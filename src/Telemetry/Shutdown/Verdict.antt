-- ===== src/Telemetry/Shutdown/Verdict.antt =====
-- Which error ServeUntilShutdown returns.
use cloud_native_service_con.Base.{
  All, Bool, List, Option, ◌∷◌, ◌≡◌, ◌↔◌, none, some, true, false, arith, refl, ◌⊎◌, inl, inr,
}
use cloud_native_service_con.Text.{Str}
use cloud_native_service_con.Errors.{Error}
use cloud_native_service_con.Telemetry.Shutdown.{
  Event, Run, Step, System, finished, start, waiting, cancels, returns_pending, returns_shut,
  takes_first, sees_cancel, shuts_down, takes_next, finishes, no_step, then_step, real_failure,
  first_result, next_result, after_shutdown, after_close, cancel, returned, first_taken,
  cancel_seen, shut_down, next_taken, finish,
}

-- Nothing went wrong: the first result came after the end of the context, every taken result is nil or
-- http.ErrServerClosed, and Shutdown returned nil.
abbrev pub IsQuiet : Event → Type 0
IsQuiet cancel = Unit
IsQuiet (returned r) = Unit
IsQuiet (first_taken cancelled r) = (cancelled ≡ true) × (real_failure r.failure ≡ none)
IsQuiet cancel_seen = Unit
IsQuiet (shut_down name shutdown close) = shutdown ≡ none
IsQuiet (next_taken r) = real_failure r.failure ≡ none
IsQuiet finish = Unit

first_result_iff :
    (cancelled : Bool) (name : Str) (failure : Option Error)
    → (first_result cancelled name failure ≡ none) ↔ ((cancelled ≡ true) × (failure ≡ none))
unfolding first_result
first_result_iff cancelled name (some e) = ground arith
first_result_iff true name none = ground arith
first_result_iff false name none = ground arith

next_result_iff :
    (name : Str) (failure result_err : Option Error)
    → (next_result name failure result_err ≡ none) ↔ ((failure ≡ none) × (result_err ≡ none))
unfolding next_result
next_result_iff name (some e) result_err = ground arith
next_result_iff name none result_err = ground arith

after_shutdown_iff :
    (name : Str) (shutdown close result_err : Option Error)
    → (after_shutdown name shutdown close result_err ≡ none)
      ↔ ((shutdown ≡ none) × (result_err ≡ none))
unfolding after_shutdown after_close
after_shutdown_iff name none close result_err = ground arith
after_shutdown_iff name (some e) none result_err = ground arith
after_shutdown_iff name (some e) (some f) result_err = ground arith

-- What the error says of the steps so far.
pub record IsJudged (es : List Event) (s : System) : Type 0 where
  pub verdict : (s.result_err ≡ none) ↔ All IsQuiet es
  pub waiting_quiet : s.phase ≡ waiting → s.result_err ≡ none
  pub context : s.result_err ≡ none → (s.phase ≡ waiting) ⊎ (s.cancelled ≡ true)

Step-IsJudged :
    {s t : System} {e : Event} (es : List Event) → Step s e t → IsJudged es s → IsJudged (e ∷ es) t
Step-IsJudged es (cancels h) i = record {
  verdict = (λ n. (tt, i.verdict.0 n), λ (u, q). i.verdict.1 q);
  waiting_quiet = i.waiting_quiet;
  context = λ n. inr refl;
}
Step-IsJudged es (returns_pending h) i = record {
  verdict = (λ n. (tt, i.verdict.0 n), λ (u, q). i.verdict.1 q);
  waiting_quiet = i.waiting_quiet;
  context = i.context;
}
Step-IsJudged es (returns_shut h) i = record {
  verdict = (λ n. (tt, i.verdict.0 n), λ (u, q). i.verdict.1 q);
  waiting_quiet = i.waiting_quiet;
  context = i.context;
}
Step-IsJudged {s} es (takes_first r rest w c) i =
    let judged = first_result_iff s.cancelled r.name (real_failure r.failure) in
    record {
      verdict = (λ n. (judged.0 n, i.verdict.0 (i.waiting_quiet w)), λ (q, rest_quiet). judged.1 q);
      waiting_quiet = λ x. cc;
      context = λ n. inr (judged.0 n).0;
    }
Step-IsJudged es (sees_cancel w c) i = record {
  verdict = (λ n. (tt, i.verdict.0 n), λ (u, q). i.verdict.1 q);
  waiting_quiet = λ x. cc;
  context = λ n. inr c;
}
Step-IsJudged {s} es (shuts_down server rest shutdown close p q) i =
    let judged = after_shutdown_iff server.name shutdown close s.result_err in
    record {
      verdict = (
        λ n. ((judged.0 n).0, i.verdict.0 (judged.0 n).1),
        λ (quiet, rest_quiet). judged.1 (quiet, i.verdict.1 rest_quiet),
      );
      waiting_quiet = λ x. cc;
      context = λ n. i.context (judged.0 n).1;
    }
Step-IsJudged {s} es (takes_next r rest p q l c) i =
    let judged = next_result_iff r.name (real_failure r.failure) s.result_err in
    record {
      verdict = (
        λ n. ((judged.0 n).0, i.verdict.0 (judged.0 n).1),
        λ (quiet, rest_quiet). judged.1 (quiet, i.verdict.1 rest_quiet),
      );
      waiting_quiet = λ x. cc;
      context = λ n. i.context (judged.0 n).1;
    }
Step-IsJudged {s} es (finishes p q l) i = record {
  verdict = (λ n. (tt, i.verdict.0 n), λ (u, quiet). i.verdict.1 quiet);
  waiting_quiet = λ x. cc;
  context = λ n. elim (i.context n) [ inl w ↦ cc | inr c ↦ inr c ];
}

Run-IsJudged :
    (names : List Str) {t : System} {es : List Event} → Run (start names) es t → IsJudged es t
unfolding start
Run-IsJudged names no_step = record {
  verdict = (λ n. tt, λ u. refl);
  waiting_quiet = λ w. refl;
  context = λ n. inl refl;
}
Run-IsJudged names (then_step r st) = Step-IsJudged _ st (Run-IsJudged names r)

pub finished-verdict :
    {t : System} {es : List Event} (names : List Str)
    → Run (start names) es t
    → t.phase ≡ finished
    → (t.result_err ≡ none) ↔ (All IsQuiet es × (t.cancelled ≡ true))
finished-verdict names r f =
    let i = Run-IsJudged names r in
    (
      λ n. (i.verdict.0 n, elim (i.context n) [ inl w ↦ cc | inr c ↦ c ]),
      λ (quiet, c). i.verdict.1 quiet,
    )
