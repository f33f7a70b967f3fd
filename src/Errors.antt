-- ===== src/Errors.antt =====
-- Go's `error` values, as the program makes and inspects them: fmt.Errorf with and without %w,
-- errors.Join, errors.Is(err, http.ErrServerClosed). A function that returns (T, error) gives a
-- `Result T`; one that returns error alone gives an `Option Error`, nil being `none`.
use cloud_native_service_con.Base.{
  Bool, Option, false, inl, inr, none, refl, some, true, ℕ, ◌++◌, ◌||◌, ◌≡◌, ◌⊎◌,
}
use cloud_native_service_con.Text.{Str, codes}

pub data Error : Type 0 where
  -- An error of a library: which one, and its text.
  external : ℕ → Str → Error
  -- http.ErrServerClosed
  server_closed : Error
  -- fmt.Errorf(text)
  errorf : Str → Error
  -- fmt.Errorf("<prefix>: %w", err)
  wrap : Str → Error → Error
  -- errors.Join(err) of one error that is not nil, and of two
  joined : Error → Error
  join_two : Error → Error → Error

-- err.Error()
unfoldable pub text : Error → Str
text (external n s) = s
text server_closed = codes "http: Server closed"
text (errorf s) = s
text (wrap prefix e) = prefix ++ codes ": " ++ text e
text (joined e) = text e
text (join_two e f) = text e ++ codes "\n" ++ text f

-- errors.Join(first, second), the second not nil
unfoldable pub join : Option Error → Error → Error
join none e = joined e
join (some first) e = join_two first e

-- errors.Is(err, http.ErrServerClosed)
unfoldable pub is_server_closed : Error → Bool
is_server_closed (external n s) = false
is_server_closed server_closed = true
is_server_closed (errorf s) = false
is_server_closed (wrap prefix e) = is_server_closed e
is_server_closed (joined e) = is_server_closed e
is_server_closed (join_two e f) = is_server_closed e || is_server_closed f

-- What (T, error) holds: the value, or the error that is not nil.
pub data Result {ℓ} (V : Type ℓ) : Type ℓ where
  -- (value, nil)
  ok : V → Result V
  -- (zero value, failure)
  err : (failure : Error) → Result V

-- `if err != nil { return fmt.Errorf("<prefix>: %w", err) }`
unfoldable pub wrap_err {ℓ} : {V : Type ℓ} → Str → Result V → Result V
wrap_err prefix (ok value) = ok value
wrap_err prefix (err failure) = err (wrap prefix failure)

-- `value, err := …; if err != nil { return err }` and what follows
infixl 10 ◌>>=◌
abbrev pub ◌>>=◌ {ℓ κ} : {U : Type κ} {V : Type ℓ} → Result V → (V → Result U) → Result U
err failure >>= next = err failure
ok value >>= next = next value

-- A result is a value or a failure, with the equation that says which.
pub Result-cases {ℓ} :
    {V : Type ℓ} (result : Result V)
    → ((value : V) × (result ≡ ok value)) ⊎ ((failure : Error) × (result ≡ err failure))
Result-cases (err failure) = inr (failure, refl)
Result-cases (ok value) = inl (value, refl)
