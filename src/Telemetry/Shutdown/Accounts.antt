-- ===== src/Telemetry/Shutdown/Accounts.antt =====
-- Every server and every result is accounted for, in whatever order the goroutines act.
use cloud_native_service_con.Base.{
  append_assoc, append-nil, sym, ◌∙◌, List, [], ◌++◌, ◌∷◌, ◌≡◌, ◌+◌, ℕ, if◌then◌else◌, length,
  length-append, arith, refl, ap, suc,
}
use cloud_native_service_con.Text.{Str}
use cloud_native_service_con.Telemetry.Shutdown.{
  Event, Returns, Run, Server, ServerResult, Step, System, finished, here, start, start_all, there,
  waiting, cancels, returns_pending, returns_shut, takes_first, sees_cancel, shuts_down, takes_next,
  finishes, no_step, then_step,
}

-- How many goroutines are in Serve.
unfoldable pub active : List Server → ℕ
active [] = 0
active (s ∷ servers) = (if s.serving then 1 else 0) + active servers

pub active-append : (xs ys : List Server) → active (xs ++ ys) ≡ active xs + active ys
unfolding active
active-append [] ys = omega arith
active-append (s ∷ xs) ys = omega (arith, active-append xs ys)

-- A return takes one goroutine out of Serve, and no server away.
pub record HasReturned (before after : List Server) : Type 0 where
  pub one_less : active before ≡ suc (active after)
  pub same_length : length after ≡ length before

pub Returns-HasReturned :
    {xs ys : List Server} {r : ServerResult} → Returns xs r ys → HasReturned xs ys
unfolding active
Returns-HasReturned (here name failure rest) = record { one_less = omega arith; same_length = refl }
Returns-HasReturned (there s h) =
    let rest = Returns-HasReturned h in
    record {
      one_less = omega (arith, rest.one_less);
      same_length = omega (arith, rest.same_length);
    }

-- Of `n` servers: all are shut down or pending; each result is taken, in the channel, or not sent yet;
-- nothing is shut down or taken before the select; and at the end all are shut down and all results
-- are taken.
pub record IsAccounted (n : ℕ) (s : System) : Type 0 where
  pub servers : length s.shut + length s.pending ≡ n
  pub results : s.received + (length s.channel + (active s.shut + active s.pending)) ≡ n
  pub untouched : s.phase ≡ waiting → (length s.shut ≡ 0) × (s.received ≡ 0)
  pub complete : s.phase ≡ finished → (length s.pending ≡ 0) × (s.received ≡ n)

length-start_all : (names : List Str) → length (start_all names) ≡ length names
unfolding start_all
length-start_all [] = refl
length-start_all (name ∷ names) = omega (arith, length-start_all names)

active-start_all : (names : List Str) → active (start_all names) ≡ length names
unfolding start_all active
active-start_all [] = refl
active-start_all (name ∷ names) = omega (arith, active-start_all names)

pub start-IsAccounted : (names : List Str) → IsAccounted (length names) (start names)
unfolding start active
start-IsAccounted names = record {
  servers = omega (arith, length-start_all names);
  results = omega (arith, active-start_all names);
  untouched = λ w. (refl, refl);
  complete = λ f. cc;
}

pub Step-IsAccounted :
    {n : ℕ} {s t : System} {e : Event} → Step s e t → IsAccounted n s → IsAccounted n t
unfolding active
Step-IsAccounted (cancels h) i = record {
  servers = i.servers;
  results = i.results;
  untouched = i.untouched;
  complete = i.complete;
}
Step-IsAccounted {n} {s} (returns_pending {r} {servers} h) i =
    let back = Returns-HasReturned h in
    record {
      servers = omega (arith, back.same_length, i.servers);
      results = omega (arith, back.one_less, i.results, length-append s.channel (r ∷ []));
      untouched = i.untouched;
      complete = λ f. (omega (arith, back.same_length, (i.complete f).0), (i.complete f).1);
    }
Step-IsAccounted {n} {s} (returns_shut {r} {servers} h) i =
    let back = Returns-HasReturned h in
    record {
      servers = omega (arith, back.same_length, i.servers);
      results = omega (arith, back.one_less, i.results, length-append s.channel (r ∷ []));
      untouched = λ w. (omega (arith, back.same_length, (i.untouched w).0), (i.untouched w).1);
      complete = i.complete;
    }
Step-IsAccounted {n} {s} (takes_first r rest w c) i = record {
  servers = i.servers;
  results = omega (arith, ap length c, i.results);
  untouched = λ x. cc;
  complete = λ f. cc;
}
Step-IsAccounted (sees_cancel w c) i = record {
  servers = i.servers;
  results = i.results;
  untouched = λ x. cc;
  complete = λ f. cc;
}
Step-IsAccounted {n} {s} (shuts_down server rest shutdown close p q) i = record {
  servers = omega (arith, ap length q, i.servers, length-append s.shut (server ∷ []));
  results = omega (arith, ap active q, i.results, active-append s.shut (server ∷ []));
  untouched = λ x. cc;
  complete = λ f. cc;
}
Step-IsAccounted {n} {s} (takes_next r rest p q l c) i = record {
  servers = i.servers;
  results = omega (arith, ap length c, i.results);
  untouched = λ x. cc;
  complete = λ f. cc;
}
Step-IsAccounted {n} {s} (finishes p q l) i = record {
  servers = i.servers;
  results = i.results;
  untouched = λ x. cc;
  complete = λ f. (omega (arith, ap length q), omega (arith, ap length q, i.servers, i.results));
}

-- Whatever happens after the servers were started, the servers and the results are accounted for.
pub Run-IsAccounted :
    {n : ℕ} {s t : System} {es : List Event} → Run s es t → IsAccounted n s → IsAccounted n t
Run-IsAccounted no_step i = i
Run-IsAccounted (then_step r st) i = Step-IsAccounted st (Run-IsAccounted r i)

-- The names of the servers, in their order.
unfoldable pub names_of : List Server → List Str
names_of [] = []
names_of (s ∷ servers) = s.name ∷ names_of servers

names_of-append : (xs ys : List Server) → names_of (xs ++ ys) ≡ names_of xs ++ names_of ys
unfolding names_of
names_of-append [] ys = refl
names_of-append (s ∷ xs) ys = ap (λ (l : List Str). s.name ∷ l) (names_of-append xs ys)

names_of-start_all : (names : List Str) → names_of (start_all names) ≡ names
unfolding names_of start_all
names_of-start_all [] = refl
names_of-start_all (name ∷ names) = ap (λ (l : List Str). name ∷ l) (names_of-start_all names)

Returns-names_of :
    {xs ys : List Server} {r : ServerResult} → Returns xs r ys → names_of ys ≡ names_of xs
unfolding names_of
Returns-names_of (here name failure rest) = refl
Returns-names_of (there s h) = ap (λ (l : List Str). s.name ∷ l) (Returns-names_of h)

abbrev all_names : System → List Str
all_names s = names_of s.shut ++ names_of s.pending

Step-all_names : {s t : System} {e : Event} → Step s e t → all_names t ≡ all_names s
unfolding names_of
Step-all_names (cancels h) = refl
Step-all_names {s} (returns_pending h) = ap (λ l. names_of s.shut ++ l) (Returns-names_of h)
Step-all_names {s} (returns_shut h) = ap (λ l. l ++ names_of s.pending) (Returns-names_of h)
Step-all_names (takes_first r rest w c) = refl
Step-all_names (sees_cancel w c) = refl
Step-all_names {s} (shuts_down server rest shutdown close p q) =
    rw (q, names_of-append s.shut (server ∷ []))
      (append_assoc (names_of s.shut) (server.name ∷ []) (names_of rest))
Step-all_names (takes_next r rest p q l c) = refl
Step-all_names (finishes p q l) = refl

Run-all_names : {s t : System} {es : List Event} → Run s es t → all_names t ≡ all_names s
Run-all_names no_step = refl
Run-all_names (then_step r st) = Step-all_names st ∙ Run-all_names r

none_left {ℓ} : {A : Type ℓ} (xs : List A) → length xs ≡ 0 → xs ≡ []
none_left [] h = refl
none_left (x ∷ xs) h = absurd (omega (arith, h))

-- The state in which ServeUntilShutdown of these servers may return.
pub record IsComplete (names : List Str) (s : System) : Type 0 where
  pub shut_down : names_of s.shut ≡ names
  pub none_pending : s.pending ≡ []
  pub none_active : active s.shut ≡ 0
  pub channel_empty : s.channel ≡ []
  pub received : s.received ≡ length names

-- When ServeUntilShutdown returns, in whatever order the goroutines acted, Shutdown was called on every
-- server, in their order, every goroutine has returned from Serve, and the result of each was taken
-- from the channel.
pub finished-IsComplete :
    {t : System} {es : List Event} (names : List Str)
    → Run (start names) es t
    → t.phase ≡ finished
    → IsComplete names t
unfolding start names_of
finished-IsComplete {t} names r f =
    let i = Run-IsAccounted r (start-IsAccounted names) in
    let (no_pending, all_received) = i.complete f in
    let pending : t.pending ≡ [] = none_left t.pending no_pending in
    let same : names_of t.shut ++ names_of t.pending ≡ names =
      Run-all_names r ∙ names_of-start_all names in
    record {
      shut_down = sym (append-nil (names_of t.shut)) ∙ (rw pending at same);
      none_pending = pending;
      none_active = omega (arith, i.results, all_received);
      channel_empty = none_left t.channel (omega (arith, i.results, all_received));
      received = all_received;
    }
