-- ===== src/Telemetry/Shutdown/Ends.antt =====
-- ServeUntilShutdown ends: it takes boundedly many steps, and once it has left the select no step that
-- it waits for can fail to come.
use cloud_native_service_con.Base.{
  Bool-cases, ltb, ltb→lt, Bool, List, [], ◌∷◌, ◌≡◌, ◌+◌, ◌*◌, ◌<◌, ◌≤◌, ℕ, suc, true, false,
  length, length-append, arith, ap, ◌⊎◌, inl, inr, none, refl, some, zero, ◌++◌, ◌≢◌,
}
use cloud_native_service_con.Text.{Str}
use cloud_native_service_con.Errors.{server_closed}
use cloud_native_service_con.Telemetry.Shutdown.{
  Event, Phase, Returns, Run, Server, ServerResult, Step, System, finished, start, stopping,
  waiting, cancels, returns_pending, returns_shut, takes_first, sees_cancel, shuts_down, takes_next,
  finishes, no_step, then_step, here, there,
}
use cloud_native_service_con.Telemetry.Shutdown.Accounts.{
  IsAccounted, Returns-HasReturned, active, active-append, start-IsAccounted, Run-IsAccounted,
  Step-IsAccounted,
}

abbrev phase_weight : Phase → ℕ
phase_weight waiting = 2
phase_weight stopping = 1
phase_weight finished = 0

abbrev cancel_weight : Bool → ℕ
cancel_weight true = 0
cancel_weight false = 1

-- How many steps are left at most: each goroutine has to return and its result to be taken, each
-- server to be shut down, and the main goroutine has to leave the select and return.
abbrev weight : System → ℕ
weight s =
    2 * (active s.shut + active s.pending)
    + length s.channel
    + length s.pending
    + phase_weight s.phase
    + cancel_weight s.cancelled

Step-weight : {s t : System} {e : Event} → Step s e t → suc (weight t) ≤ weight s
unfolding active
Step-weight (cancels h) = omega (arith, ap cancel_weight h)
Step-weight {s} (returns_pending {r} h) =
    let back = Returns-HasReturned h in
    omega (arith, back.one_less, back.same_length, length-append s.channel (r ∷ []))
Step-weight {s} (returns_shut {r} h) =
    let back = Returns-HasReturned h in
    omega (arith, back.one_less, back.same_length, length-append s.channel (r ∷ []))
Step-weight (takes_first r rest w c) = omega (arith, ap phase_weight w, ap length c)
Step-weight (sees_cancel w c) = omega (arith, ap phase_weight w)
Step-weight {s} (shuts_down server rest shutdown close p q) =
    omega (arith, ap length q, ap active q, active-append s.shut (server ∷ []))
Step-weight (takes_next r rest p q l c) = omega (arith, ap length c)
Step-weight (finishes p q l) = omega (arith, ap phase_weight p)

Run-weight : {s t : System} {es : List Event} → Run s es t → length es + weight t ≤ weight s
Run-weight no_step = omega arith
Run-weight (then_step r st) = omega (arith, Run-weight r, Step-weight st)

-- ServeUntilShutdown of `n` servers takes at most 3 * n + 3 steps, in whatever order the goroutines and
-- the context act, and whatever the servers return.
pub Run-bounded :
    {t : System} {es : List Event} (names : List Str)
    → Run (start names) es t
    → length es ≤ 3 * length names + 3
unfolding start active
Run-bounded names r =
    let i = start-IsAccounted names in omega (arith, Run-weight r, i.servers, i.results)

-- The main goroutine has left the select.
abbrev pub HasLeft : System → Type 0
HasLeft s = (s.phase ≡ stopping) ⊎ (s.phase ≡ finished)

-- A goroutine of these that can return, with http.ErrServerClosed.
abbrev CanReturn : List Server → Type 0
CanReturn servers = (r : ServerResult) × (after : List Server) × Returns servers r after

head_or_tail :
    (name : Str) (serving : Bool) (rest : List Server)
    → (0 < active rest → CanReturn rest)
    → 0 < active (record { name = name; serving = serving } ∷ rest)
    → CanReturn (record { name = name; serving = serving } ∷ rest)
unfolding active
head_or_tail name true rest later h = (_, _, here name (some server_closed) rest)
head_or_tail name false rest later h =
    let (r, after, st) = later (omega (arith, h)) in (r, _, there _ st)

active-CanReturn : (servers : List Server) → 0 < active servers → CanReturn servers
unfolding active
active-CanReturn [] h = absurd (omega (arith, h))
active-CanReturn (s ∷ servers) h =
    head_or_tail s.name s.serving servers (active-CanReturn servers) h

List-cases {ℓ} :
    {A : Type ℓ} (xs : List A) → (xs ≡ []) ⊎ ((x : A) × (rest : List A) × (xs ≡ x ∷ rest))
List-cases [] = inl refl
List-cases (x ∷ xs) = inr (x, xs, refl)

-- A step to a state that has left the select, too.
abbrev CanStep : System → Type 0
CanStep s = (e : Event) × (t : System) × Step s e t × HasLeft t

collecting-CanStep :
    {n : ℕ} (s : System) → IsAccounted n s → s.phase ≡ stopping → s.pending ≡ [] → CanStep s
unfolding active
collecting-CanStep s i p none_pending = elim (Bool-cases (ltb s.received (length s.shut))) [
  | inr all_taken ↦ (_, _, finishes p none_pending (ground (arith, all_taken)), inr refl)
  | inl more ↦
      let fewer : s.received < length s.shut = ltb→lt s.received (length s.shut) more in
      elim (List-cases s.channel) [
        | inr (r, rest, c) ↦ (_, _, takes_next r rest p none_pending fewer c, inl p)
        | inl empty ↦
            let (r, after, st) = active-CanReturn s.shut (
              omega (
                arith,
                i.results,
                i.servers,
                ap length empty,
                ap length none_pending,
                ap active none_pending,
              )) in
            (_, _, returns_shut st, inl p)
      ]
]

stopping-CanStep : {n : ℕ} (s : System) → IsAccounted n s → s.phase ≡ stopping → CanStep s
stopping-CanStep s i p = elim (List-cases s.pending) [
  | inr (server, rest, q) ↦ (_, _, shuts_down server rest none none p q, inl p)
  | inl none_pending ↦ collecting-CanStep s i p none_pending
]

-- A step before a run; the events are the last first.
Run-after_step :
    {s t u : System} {e : Event} {es : List Event}
    → Step s e t
    → Run t es u
    → Run s (es ++ (e ∷ [])) u
Run-after_step st no_step = then_step no_step st
Run-after_step st (then_step r last) = then_step (Run-after_step st r) last

-- A run to the return of the main goroutine.
abbrev pub CanFinish : System → Type 0
CanFinish s = (es : List Event) × (t : System) × Run s es t × (t.phase ≡ finished)

left-CanFinish :
    {n : ℕ} (k : ℕ) (s : System) → IsAccounted n s → weight s ≤ k → HasLeft s → CanFinish s
left-CanFinish k s i small (inr f) = ([], s, no_step, f)
left-CanFinish zero s i small (inl p) =
    let (e, t, st, left) = stopping-CanStep s i p in absurd (omega (arith, Step-weight st, small))
left-CanFinish (suc k) s i small (inl p) =
    let (e, t, st, left) = stopping-CanStep s i p in
    let (es, u, r, f) =
      left-CanFinish k t (Step-IsAccounted st i) (omega (arith, Step-weight st, small)) left in
    (es ++ (e ∷ []), u, Run-after_step st r, f)

waiting-CanStep :
    (s : System) → s.phase ≡ waiting → (s.cancelled ≡ true) ⊎ (s.channel ≢ []) → CanStep s
waiting-CanStep s w (inl c) = (_, _, sees_cancel w c, inl refl)
waiting-CanStep s w (inr some_result) = elim (List-cases s.channel) [
  | inl empty ↦ absurd (some_result empty)
  | inr (r, rest, c) ↦ (_, _, takes_first r rest w c, inl refl)
]

after_CanStep : {n : ℕ} (s : System) → IsAccounted n s → CanStep s → CanFinish s
after_CanStep s i (e, t, st, left) =
    let (es, u, r, f) = left-CanFinish (weight t) t (Step-IsAccounted st i) (omega arith) left in
    (es ++ (e ∷ []), u, Run-after_step st r, f)

Phase-cases : (p : Phase) → (p ≡ waiting) ⊎ (p ≡ stopping) ⊎ (p ≡ finished)
Phase-cases waiting = inl refl
Phase-cases stopping = inr (inl refl)
Phase-cases finished = inr (inr refl)

reaches_finish :
    {n : ℕ} (s : System)
    → IsAccounted n s
    → (s.cancelled ≡ true) ⊎ (s.channel ≢ []) ⊎ HasLeft s
    → CanFinish s
reaches_finish s i h = elim (Phase-cases s.phase) [
  | inr left ↦ left-CanFinish (weight s) s i (omega arith) left
  | inl w ↦ elim h [
    | inl c ↦ after_CanStep s i (waiting-CanStep s w (inl c))
    | inr (inl c) ↦ after_CanStep s i (waiting-CanStep s w (inr c))
    | inr (inr left) ↦ left-CanFinish (weight s) s i (omega arith) left
  ]
]

-- From every state that ServeUntilShutdown can reach in which the context has ended, or a server has
-- returned, or the main goroutine has left the select, there is a way on to its return.
pub Run-CanFinish :
    {s : System} {es : List Event} (names : List Str)
    → Run (start names) es s
    → (s.cancelled ≡ true) ⊎ (s.channel ≢ []) ⊎ HasLeft s
    → CanFinish s
Run-CanFinish {s} names r h = reaches_finish s (Run-IsAccounted r (start-IsAccounted names)) h
