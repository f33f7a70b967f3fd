-- ===== src/Controller/Image.antt =====
-- validateImmutableImage (managedservice_resources.go).
pub mod Laws
use cloud_native_service_con.Base.{Option, [], if◌then◌else◌, length, none, some, ◌==◌, List, ℕ}
use cloud_native_service_con.Text.{Str, codes, eq_str}
use cloud_native_service_con.Text.Search.{cut}
use cloud_native_service_con.Text.Hex.{decode_hex}
use cloud_native_service_con.Errors.{Error, errorf}

abbrev pub digest_separator : Str
digest_separator = codes "@sha256:"

abbrev pub not_immutable : Error
not_immutable = errorf (codes "demo-http image must use an immutable @sha256 digest")

abbrev pub invalid_digest : Error
invalid_digest = errorf (codes "demo-http image contains an invalid sha256 digest")

-- `err != nil || len(decodedDigest) != 32`
check_digest : Option (List ℕ) → Option Error
check_digest none = some invalid_digest
check_digest (some decoded) = if length decoded == 32 then none else some invalid_digest

-- `!found || repository == ""`, and then the digest.
check_parts : Option (Str × Str) → Option Error
unfolding eq_str check_digest
check_parts none = some not_immutable
check_parts (some (repository, digest)) =
    if eq_str repository [] then some not_immutable else check_digest (decode_hex digest)

unfoldable pub validate_immutable_image : Str → Option Error
unfolding check_parts
validate_immutable_image image = check_parts (cut image digest_separator)
