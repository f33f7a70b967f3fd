-- ===== src/Controller/Image/Laws.antt =====
-- Which images the operator approves.
use cloud_native_service_con.Base.{
  All, List, [], length, none, some, ℕ, ◌++◌, ◌↔◌, ◌≡◌, ◌≢◌, Option-cases, arith, inl, inr, refl,
  ◌∷◌,
}
use cloud_native_service_con.Text.{Str, codes, contains_byte}
use cloud_native_service_con.Text.Search.{Occurs, cut, cut_complete, cut_first, cut_sound}
use cloud_native_service_con.Text.Hex.{decode_hex, IsHexDigit}
use cloud_native_service_con.Text.Hex.Laws.{decode_hex_sound, decode_hex_complete}
use cloud_native_service_con.Controller.Image.{
  check_parts, validate_immutable_image, digest_separator, check_digest,
}

-- A repository, the first "@sha256:", and 64 hexadecimal digits.
pub record IsImmutable (image : Str) : Type 0 where
  pub repository : Str
  pub digest : Str
  pub parts : image ≡ repository ++ (digest_separator ++ digest)
  pub named : repository ≢ []
  pub first : ¬ Occurs digest_separator repository
  pub size : length digest ≡ 64
  pub digits : All IsHexDigit digest

check_parts_sound :
    (repository digest : Str)
    → check_parts (some (repository, digest)) ≡ none
    → (repository ≢ []) × (bs : List ℕ) × (decode_hex digest ≡ some bs) × (length bs ≡ 32)
unfolding check_parts
check_parts_sound [] digest h = cc
check_parts_sound (c ∷ repository) digest h = elim (Option-cases (decode_hex digest)) [
  | inl e ↦ cc (rw (e, check_digest) at h)
  | inr (bs, e) ↦ (cc, bs, e, ground (arith, rw (e, check_digest) at h))
]

check_parts_complete :
    (repository digest : Str) (bs : List ℕ)
    → repository ≢ []
    → decode_hex digest ≡ some bs
    → length bs ≡ 32
    → check_parts (some (repository, digest)) ≡ none
unfolding check_parts
check_parts_complete [] digest bs named e size = absurd (named refl)
check_parts_complete (c ∷ repository) digest bs named e size = rw (e, check_digest) (ground arith)

validate_sound : (image : Str) → validate_immutable_image image ≡ none → IsImmutable image
unfolding validate_immutable_image
validate_sound image h = elim (Option-cases (cut image digest_separator)) [
  | inl e ↦ cc (rw (e, check_parts) at h)
  | inr ((repository, digest), e) ↦
      let (named, bs, decoded, size) = check_parts_sound repository digest (rw e at h) in
      let (digest_size, digest_digits) = decode_hex_sound digest bs decoded in
      record {
        repository = repository;
        digest = digest;
        parts = cut_sound image digest_separator repository digest e;
        named = named;
        first = cut_first b'@' (codes "sha256:") image repository digest e;
        size = omega arith;
        digits = digest_digits;
      }
]

validate_complete : (image : Str) → IsImmutable image → validate_immutable_image image ≡ none
unfolding validate_immutable_image contains_byte
validate_complete image i =
    let (bs, decoded, size) = decode_hex_complete 32 i.digest i.size i.digits in
    rw i.parts (
      rw (cut_complete b'@' (codes "sha256:") i.repository i.digest refl i.first)
        (check_parts_complete i.repository i.digest bs i.named decoded size))

-- An image is approved exactly when it is a nonempty repository, "@sha256:" where it first occurs,
-- and 64 hexadecimal digits.
pub validate_immutable_image_iff :
    (image : Str) → (validate_immutable_image image ≡ none) ↔ IsImmutable image
validate_immutable_image_iff image = (validate_sound image, validate_complete image)
