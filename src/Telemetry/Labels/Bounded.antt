-- ===== src/Telemetry/Labels/Bounded.antt =====
-- Request identifiers and labels are bounded, whatever the client sends.
use cloud_native_service_con.Base.{
  ap, sym, subst, All, List, [], ◌∷◌, ◌≡◌, ◌≢◌, ◌≤◌, ◌<◌, ◌*◌, ◌/◌, ◌%◌, ◌⊎◌, length, all, true,
  false, not, ◌&&◌, ◌||◌, ltb, Bool, arith, ℕ, refl, Bool-cases, inl, inr, all_iff, ◌↔◌,
}
use cloud_native_service_con.Text.{Str, eq_str, eq_str_iff, contains_byte, eq_str-false}
use cloud_native_service_con.Text.Hex.{encode_hex, hex_digit}
use cloud_native_service_con.Errors.{Result, ok, err}
use cloud_native_service_con.Telemetry.Labels.{
  is_request_id_byte, request_id, valid_request_id, generated_id, normalized_method, safe_route,
}
use cloud_native_service_con.Telemetry.Labels.Shown.{
  RouteShown, MethodShown, safe_route-RouteShown, normalized_method-MethodShown,
}

-- A letter, a digit, or one of "-_.:".
abbrev pub IsPlain : ℕ → Type 0
IsPlain c =
    ((b'a' ≤ c) × (c ≤ b'z'))
    ⊎ ((b'A' ≤ c) × (c ≤ b'Z'))
    ⊎ ((b'0' ≤ c) × (c ≤ b'9'))
    ⊎ (c ≡ b'-')
    ⊎ (c ≡ b'_')
    ⊎ (c ≡ b'.')
    ⊎ (c ≡ b':')

-- One to 64 letters, digits and bytes of "-_.:".
pub record IsRequestId (id : Str) : Type 0 where
  pub present : id ≢ []
  pub short : length id ≤ 64
  pub plain : All IsPlain id

is_request_id_byte_iff : (c : ℕ) → (is_request_id_byte c ≡ true) ↔ IsPlain c
unfolding is_request_id_byte contains_byte
is_request_id_byte_iff c = (λ h. ground (arith, h), λ h. ground (arith, h))

valid_inv :
    (empty long plain : Bool)
    → (not (empty || long) && plain) ≡ true
    → (empty ≡ false) × (long ≡ false) × (plain ≡ true)
valid_inv empty long plain h = ground arith

valid_request_id_iff : (id : Str) → (valid_request_id id ≡ true) ↔ IsRequestId id
unfolding valid_request_id
valid_request_id_iff id = (
  λ h.
      let (some_byte, short, plain) =
        valid_inv (eq_str id []) (ltb 64 (length id)) (all is_request_id_byte id) h in
      record {
        present = λ e. cc ((eq_str_iff id []).1 e);
        short = ground arith;
        plain = (all_iff is_request_id_byte is_request_id_byte_iff id).0 plain;
      },
  λ i.
      let present : eq_str id [] ≡ false = eq_str-false id [] i.present in
      let short : ltb 64 (length id) ≡ false = ground (arith, i.short) in
      rw (present, short, (all_iff is_request_id_byte is_request_id_byte_iff id).1 i.plain) refl,
)

hex_digit-plain : (v : ℕ) → v < 16 → IsPlain (hex_digit v)
unfolding hex_digit
hex_digit-plain v h = ground arith

length-encode_hex : (bytes : List ℕ) → length (encode_hex bytes) ≡ 2 * length bytes
unfolding encode_hex
length-encode_hex [] = refl
length-encode_hex (b ∷ bytes) = omega (arith, length-encode_hex bytes)

encode_hex-plain :
    (bytes : List ℕ) → All (λ (b : ℕ). b < 256) bytes → All IsPlain (encode_hex bytes)
unfolding encode_hex
encode_hex-plain [] h = tt
encode_hex-plain (b ∷ bytes) (small, rest) = (
  hex_digit-plain (b / 16) (omega arith),
  (hex_digit-plain (b % 16) (omega arith), encode_hex-plain bytes rest),
)

-- Sixteen bytes.
pub record IsIdentifier (bytes : List ℕ) : Type 0 where
  pub sixteen : length bytes ≡ 16
  pub small : All (λ (b : ℕ). b < 256) bytes

encode_hex-IsRequestId : (bytes : List ℕ) → IsIdentifier bytes → IsRequestId (encode_hex bytes)
encode_hex-IsRequestId bytes i =
    let size : length (encode_hex bytes) ≡ 32 = omega (arith, length-encode_hex bytes, i.sixteen) in
    record {
      present = λ e. omega (arith, size, ap length e);
      short = omega (arith, size);
      plain = encode_hex-plain bytes i.small;
    }

-- Where an identifier comes from: the client's only value, or, if the client sent none, several, or
-- one that is no identifier, the random bytes.
abbrev pub ComesFrom : Result (List ℕ) → List Str → Str → Type 0
ComesFrom random values id =
    (values ≡ id ∷ [])
    ⊎ ((¬ ((value : Str) × (values ≡ value ∷ []) × IsRequestId value))
        × ((bytes : List ℕ) × (random ≡ ok bytes) × (id ≡ encode_hex bytes)))

generated_id_iff :
    (random : Result (List ℕ)) (id : Str)
    → (generated_id random ≡ ok id)
      ↔ ((bytes : List ℕ) × (random ≡ ok bytes) × (id ≡ encode_hex bytes))
unfolding generated_id
generated_id_iff (ok bytes) id = (λ h. (bytes, refl, cc), λ (bytes', e, same). cc)
generated_id_iff (err e) id = (λ h. cc, λ (bytes, e', _). cc)

-- Where the client's values are no identifier, the random bytes are it.
generated-ComesFrom_iff :
    (random : Result (List ℕ)) (values : List Str) (id : Str)
    → ((bytes : List ℕ) → random ≡ ok bytes → IsIdentifier bytes)
    → ¬ ((value : Str) × (values ≡ value ∷ []) × IsRequestId value)
    → (generated_id random ≡ ok id) ↔ (IsRequestId id × ComesFrom random values id)
generated-ComesFrom_iff random values id fair unfit = (
  λ h.
      let (bytes, e, same) = (generated_id_iff random id).0 h in
      (
        subst IsRequestId (sym same) (encode_hex-IsRequestId bytes (fair bytes e)),
        inr (unfit, (bytes, e, same)),
      ),
  λ (i, from). elim from [
    | inl sent ↦ absurd (unfit (id, sent, i))
    | inr (_, made) ↦ (generated_id_iff random id).1 made
  ],
)

sent-ComesFrom_iff :
    (random : Result (List ℕ)) (value id : Str)
    → IsRequestId value
    → (◌≡◌ {A = Result Str} (ok value) (ok id))
      ↔ (IsRequestId id × ComesFrom random (value ∷ []) id)
sent-ComesFrom_iff random value id i = (
  λ h.
      let same : value ≡ id = cc in (subst IsRequestId same i, inl (ap (λ (v : Str). v ∷ []) same)),
  λ (_, from). elim from [ inl sent ↦ cc | inr (unfit, _) ↦ absurd (unfit (value, refl, i)) ],
)

-- If the random source gives sixteen bytes where it gives no error, then a request gets an identifier
-- exactly when this has one to 64 letters, digits and bytes of "-_.:" and is the only value that the
-- client sent, or, if the client sent none, several, or one of another form, the random bytes in
-- hexadecimal.
pub request_id-IsRequestId :
    (random : Result (List ℕ)) (values : List Str) (id : Str)
    → ((bytes : List ℕ) → random ≡ ok bytes → IsIdentifier bytes)
    → (request_id random values ≡ ok id) ↔ (IsRequestId id × ComesFrom random values id)
unfolding request_id
request_id-IsRequestId random [] id fair =
    generated-ComesFrom_iff random [] id fair (λ (value, e, _). cc)
request_id-IsRequestId random (value ∷ []) id fair = elim (Bool-cases (valid_request_id value)) [
  | inl valid ↦ rw valid (sent-ComesFrom_iff random value id ((valid_request_id_iff value).0 valid))
  | inr invalid ↦ rw invalid (
      generated-ComesFrom_iff random (value ∷ []) id fair (λ (other, e, i).
        let same : other ≡ value = cc in
        cc (invalid, (valid_request_id_iff value).1 (subst IsRequestId same i))))
]
request_id-IsRequestId random (value ∷ value' ∷ values) id fair =
    generated-ComesFrom_iff random (value ∷ value' ∷ values) id fair (λ (other, e, _). cc)

-- The label of a route is the route itself if it has one to 128 bytes, all printable and no space, and
-- "unknown" if not; the label of a method is the method itself if it is one of the nine, and "OTHER" if
-- not.
pub labels-Bounded :
    (route method : Str)
    → RouteShown route (safe_route route) × MethodShown method (normalized_method method)
labels-Bounded route method = (safe_route-RouteShown route, normalized_method-MethodShown method)
