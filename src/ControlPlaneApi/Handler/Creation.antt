-- ===== src/ControlPlaneApi/Handler/Creation.antt =====
-- What a POST to the collection does to the store.
use cloud_native_service_con.Base.{
  Bool, Option, arith, ltb, ltb_ℤ, not, pos, some, true, ℕ, ℤ, ◌||◌, ◌≡◌, ◌≤ℤ◌, ◌≤◌, ◌⊎◌,
  Bool-cases, inl, inr, none, refl, [], false, ◌&&◌, ◌↔◌, ◌≢◌,
}
use cloud_native_service_con.Text.{Str, codes, eq_str, eq_str-false, eq_str_iff}
use cloud_native_service_con.Text.Utf8.{rune_count}
use cloud_native_service_con.ControlPlaneApi.Http.{Request, Response, error_response, write_json}
use cloud_native_service_con.ControlPlaneApi.Requests.{
  CreateRequest, valid_managed_service_name, DecodeError, decode_create_request,
  replicas_or_default, trailing_status, valid_create_request, decode_status, end_of_input,
  malformed, too_large, request_error,
}
use cloud_native_service_con.ControlPlaneApi.Handler.{
  Libraries, ApiHandler, create_decoded, create_managed_service, created,
}

-- The arguments with which the handler lets a ManagedService be created.
pub record IsAcceptable (is_dns_label : Str → Bool) (request : CreateRequest) (replicas : ℤ)
    : Type 0 where
  pub named : request.name ≢ []
  pub dns_label : is_dns_label request.name ≡ true
  pub at_least_one : pos 1 ≤ℤ replicas
  pub at_most_three : replicas ≤ℤ pos 3
  pub message : rune_count request.message ≤ 120

limits_iff :
    (empty label : Bool) (replicas : ℤ) (n : ℕ)
    → (not (
          not (not empty && label)
          || (ltb_ℤ replicas (pos 1) || (ltb_ℤ (pos 3) replicas || ltb 120 n)))
        ≡ true)
      ↔ ((empty ≡ false) × (label ≡ true) × (pos 1 ≤ℤ replicas) × (replicas ≤ℤ pos 3) × (n ≤ 120))
limits_iff empty label replicas n =
    (λ h. ground (arith, h), λ (e, l, low, high, short). ground (arith, e, l, low, high, short))

valid_create_request_iff :
    (is_dns_label : Str → Bool) (request : CreateRequest) (replicas : ℤ)
    → (valid_create_request is_dns_label request replicas ≡ true)
      ↔ IsAcceptable is_dns_label request replicas
unfolding valid_create_request valid_managed_service_name
valid_create_request_iff is_dns_label request replicas =
    let limits =
      limits_iff (eq_str request.name []) (is_dns_label request.name) replicas
        (rune_count request.message) in
    (
      λ h.
          let (named, label, low, high, message) = limits.0 h in
          record {
            named = λ e. cc (named, (eq_str_iff request.name []).1 e);
            dns_label = label;
            at_least_one = low;
            at_most_three = high;
            message = message;
          },
      λ i. limits.1 (
        eq_str-false request.name [] i.named,
        i.dns_label,
        i.at_least_one,
        i.at_most_three,
        i.message,
      ),
    )

-- The replicas that a request asks for: one where it names none.
abbrev pub Asks : Option ℤ → ℤ → Type 0
Asks asked n = (asked ≡ some n) ⊎ ((asked ≡ none) × (n ≡ pos 1))

replicas_or_default-Asks : (asked : Option ℤ) → Asks asked (replicas_or_default asked)
unfolding replicas_or_default
replicas_or_default-Asks none = inr (refl, refl)
replicas_or_default-Asks (some n) = inl refl

-- A body, by the errors of its first and of a second value: it runs over the limit.
abbrev pub IsTooLarge : Option DecodeError → Option DecodeError → Type 0
IsTooLarge first second = (first ≡ some too_large) ⊎ ((first ≡ none) × (second ≡ some too_large))

-- Its first value does not decode, or something that is no end follows.
abbrev pub IsMalformed : Option DecodeError → Option DecodeError → Type 0
IsMalformed first second =
    (first ≡ some malformed)
    ⊎ (first ≡ some end_of_input)
    ⊎ ((first ≡ none) × ((second ≡ none) ⊎ (second ≡ some malformed)))

-- It is one value and no more.
abbrev pub IsOneValue : Option DecodeError → Option DecodeError → Type 0
IsOneValue first second = (first ≡ none) × (second ≡ some end_of_input)

module _ {B W : Type 0} (lib : Libraries B) (h : ApiHandler W) where
  -- What a POST did with a request whose values decoded with these errors.
  abbrev pub Answered :
      CreateRequest → (first second : Option DecodeError) → W → Response × W → Type 0
  Answered request first second w result =
      (IsTooLarge first second
        × (result ≡ (write_json [] 413 (error_response (codes "request too large")), w)))
      ⊎ (IsMalformed first second
          × (result ≡ (write_json [] 400 (error_response (codes "invalid request")), w)))
      ⊎ (IsOneValue first second
          × ((replicas : ℤ) × Asks request.replicas replicas
              × (((¬ IsAcceptable lib.is_dns_label request replicas)
                    × (result ≡ (write_json [] 400 (error_response (codes "invalid request")), w)))
                  ⊎ (IsAcceptable lib.is_dns_label request replicas
                      × (result ≡ (
                        created lib (h.store.create request.name replicas request.message w).0,
                        (h.store.create request.name replicas request.message w).1,
                      ))))))

  -- The same, of a body: at most 4096 bytes of it are read.
  abbrev pub CreatesOnce : B → W → Response × W → Type 0
  CreatesOnce body w result =
      Answered (lib.decoder.first_value 4096 body).0 (lib.decoder.first_value 4096 body).1
        (lib.decoder.second_value 4096 body) w result

  create_decoded-Answered :
      (request : CreateRequest) (first second : Option DecodeError) (w : W)
      → Answered request first second w
          (create_decoded lib h request (decode_status first (trailing_status second)) w)
  unfolding create_decoded decode_status trailing_status request_error
  create_decoded-Answered request (some too_large) second w = inl (inl refl, refl)
  create_decoded-Answered request (some end_of_input) second w = inr (inl (inr (inl refl), refl))
  create_decoded-Answered request (some malformed) second w = inr (inl (inl refl, refl))
  create_decoded-Answered request none none w = inr (inl (inr (inr (refl, inl refl)), refl))
  create_decoded-Answered request none (some too_large) w = inl (inr (refl, refl), refl)
  create_decoded-Answered request none (some malformed) w =
      inr (inl (inr (inr (refl, inr refl)), refl))
  create_decoded-Answered request none (some end_of_input) w =
      let replicas : ℤ = replicas_or_default request.replicas in
      let acceptable = valid_create_request_iff lib.is_dns_label request replicas in
      let asked : Asks request.replicas replicas = replicas_or_default-Asks request.replicas in
      elim (Bool-cases (valid_create_request lib.is_dns_label request replicas)) [
        | inl valid ↦
            rw valid (inr (inr ((refl, refl), (replicas, asked, inr (acceptable.0 valid, refl)))))
        | inr invalid ↦ rw invalid (
            inr (
              inr
                ((refl, refl), (replicas, asked, inl ((λ i. cc (invalid, acceptable.1 i)), refl)))))
      ]

  -- A POST to the collection whose body runs over 4096 bytes is answered by 413, and one whose body is
  -- malformed or more than one value by 400. One value is answered by 400 if it is not acceptable: an
  -- empty name or one that is no DNS label, less than one or more than three replicas, or a message of
  -- more than 120 runes. These leave the store alone. An acceptable value makes one call of the store,
  -- with the name, the replicas asked for, or one where none are, and the message, and the answer reports
  -- that of the store.
  pub create_managed_service-CreatesOnce :
      (r : Request B) (w : W) → CreatesOnce r.body w (create_managed_service lib h r w)
  unfolding create_managed_service decode_create_request
  create_managed_service-CreatesOnce r w = create_decoded-Answered _ _ _ w
