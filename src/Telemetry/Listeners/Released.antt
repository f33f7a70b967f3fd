-- ===== src/Telemetry/Listeners/Released.antt =====
-- No listener is left open by an error.
use cloud_native_service_con.Base.{
  subst, Bool, List, [], ◌++◌, ◌∷◌, ◌≡◌, ◌==◌, ◌||◌, ◌&&◌, not, ℕ, true, false, refl, any, length,
  arith, Option, length-append, none, some, suc, ◌+◌, ◌∙◌, ==_iff, Bool-cases, inl, inr,
}
use cloud_native_service_con.Text.{Str}
use cloud_native_service_con.Errors.{Error, Result, err, ok}
use cloud_native_service_con.Telemetry.Listeners.{
  Network, close_all, NamedServer, listen_answer, open_listener, open_listeners, prepare,
  configured,
}

-- What the documentation of package net says: a new listener was not open, Close closes it, and
-- neither does anything to another listener; a Listen that fails opens none.
pub record NetworkLaws {W : Type 0} (network : Network W) : Type 0 where
  pub is_open : W → ℕ → Bool
  pub listen_fresh : (a : Str) (w : W) (l : ℕ) → (network.listen a w).0 ≡ ok l → is_open w l ≡ false
  pub listen_opens :
      (a : Str) (w : W) (l j : ℕ)
      → (network.listen a w).0 ≡ ok l
      → is_open (network.listen a w).1 j ≡ ((l == j) || is_open w j)
  pub listen_fails :
      (a : Str) (w : W) (e : Error) (j : ℕ)
      → (network.listen a w).0 ≡ err e
      → is_open (network.listen a w).1 j ≡ is_open w j
  pub closes : (l j : ℕ) (w : W) → is_open (network.close l w) j ≡ (not (l == j) && is_open w j)

-- Whether `j` is among the listeners.
abbrev pub among : List ℕ → ℕ → Bool
among listeners j = any (λ l. l == j) listeners

among-append : (xs : List ℕ) (l j : ℕ) → among (xs ++ (l ∷ [])) j ≡ ((l == j) || among xs j)
among-append [] l j = ground arith
among-append (x ∷ xs) l j = ground (arith, among-append xs l j)

module _ {W : Type 0} (network : Network W) (laws : NetworkLaws network) where
  close_all-closes :
      (listeners : List ℕ) (w : W) (j : ℕ)
      → laws.is_open (close_all network listeners w) j
        ≡ (not (among listeners j) && laws.is_open w j)
  unfolding close_all
  close_all-closes [] w j = refl
  close_all-closes (l ∷ listeners) w j =
      ground (arith, close_all-closes listeners (network.close l w) j, laws.closes l j w)

  -- Since the state `before`, exactly these listeners were opened.
  pub record HasOpened (before : W) (listeners : List ℕ) (w : W) : Type 0 where
    pub opened : (j : ℕ) → laws.is_open w j ≡ (among listeners j || laws.is_open before j)
    pub fresh : (j : ℕ) → among listeners j ≡ true → laws.is_open before j ≡ false

  close_all-restores :
      (before w : W) (listeners : List ℕ)
      → HasOpened before listeners w
      → (j : ℕ) → laws.is_open (close_all network listeners w) j ≡ laws.is_open before j
  close_all-restores before w listeners h j =
      ground (arith, close_all-closes listeners w j, h.opened j, h.fresh j)

  -- The outcome: the listeners that were opened, or an error and no listener more than before.
  abbrev pub IsReleased : W → ℕ → Result (List ℕ) × W → Type 0
  IsReleased before n (ok listeners, w) = HasOpened before listeners w × (length listeners ≡ n)
  IsReleased before n (err e, w) = (j : ℕ) → laws.is_open w j ≡ laws.is_open before j

  fresh-append :
      (before w : W) (address : Str) (listeners : List ℕ) (l j : ℕ)
      → HasOpened before listeners w
      → (network.listen address w).0 ≡ ok l
      → among (listeners ++ (l ∷ [])) j ≡ true
      → laws.is_open before j ≡ false
  fresh-append before w address listeners l j h a found = elim (Bool-cases (l == j)) [
    | inl same ↦
        let this : l ≡ j = (==_iff l j).0 same in
        subst (λ i. laws.is_open before i ≡ false) this
          (ground (arith, laws.listen_fresh address w l a, h.opened l))
    | inr other ↦ h.fresh j (ground (arith, among-append listeners l j))
  ]

  listen_answer-IsReleased :
      (before w : W) (name address : Str) (listeners : List ℕ) (answer : Result ℕ)
      → HasOpened before listeners w
      → (network.listen address w).0 ≡ answer
      → IsReleased before
          (suc (length listeners))
          (listen_answer network name answer listeners (network.listen address w).1)
  unfolding listen_answer
  listen_answer-IsReleased before w name address listeners (err e) h a =
      let kept = λ (j : ℕ). laws.listen_fails address w e j a ∙ h.opened j in
      close_all-restores before (network.listen address w).1 listeners
        (record { opened = kept; fresh = h.fresh })
  listen_answer-IsReleased before w name address listeners (ok l) h a = (
    record {
      opened = λ j.
          ground (arith, among-append listeners l j, laws.listen_opens address w l j a, h.opened j);
      fresh = λ j found. fresh-append before w address listeners l j h a found;
    },
    omega (arith, length-append listeners (l ∷ [])),
  )

  open_listener-IsReleased :
      (before w : W) (name : Str) (address : Option Str) (listeners : List ℕ)
      → HasOpened before listeners w
      → IsReleased before (suc (length listeners)) (open_listener network name address listeners w)
  unfolding open_listener
  open_listener-IsReleased before w name none listeners h = close_all-restores before w listeners h
  open_listener-IsReleased before w name (some address) listeners h =
      listen_answer-IsReleased before w name address listeners (network.listen address w).0 h refl

  open_listeners-IsReleased :
      (before w : W) (servers : List NamedServer) (n m : ℕ) (answer : Result (List ℕ))
      → n + length servers ≡ m
      → IsReleased before n (answer, w)
      → IsReleased before m (open_listeners network servers (answer, w))
  unfolding open_listeners
  open_listeners-IsReleased before w [] n m (err e) total h = h
  open_listeners-IsReleased before w (spec ∷ servers) n m (err e) total h = h
  open_listeners-IsReleased before w [] n m (ok listeners) total (h, k) =
      (h, omega (arith, k, total))
  open_listeners-IsReleased before w (spec ∷ servers) n m (ok listeners) total (h, k) =
      let next : Result (List ℕ) × W =
        open_listener network spec.name (configured spec) listeners w in
      open_listeners-IsReleased before next.1 servers (suc (length listeners)) m next.0
        (omega (arith, k, total))
        (open_listener-IsReleased before w spec.name (configured spec) listeners h)

  -- If the network keeps its laws, then the first part of ServeUntilShutdown either opens one listener
  -- for each server, and nothing else, or returns an error and leaves open what was open before.
  pub prepare-IsReleased :
      (servers : List NamedServer) (w : W)
      → IsReleased w (length servers) (prepare network servers w)
  unfolding prepare
  prepare-IsReleased [] w = λ j. refl
  prepare-IsReleased (spec ∷ servers) w =
      open_listeners-IsReleased w w (spec ∷ servers) 0 (length (spec ∷ servers)) (ok [])
        (omega arith) (record { opened = λ j. refl; fresh = λ j found. cc }, refl)
