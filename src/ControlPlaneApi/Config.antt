-- ===== src/ControlPlaneApi/Config.antt =====
-- The token file (internal/controlplaneapi/config.go): LoadToken and trimTrailingLineEnding.
pub mod Token
use cloud_native_service_con.Base.{Option, [], if◌then◌else◌, length, ltb, none, some, ℕ}
use cloud_native_service_con.Text.{Str, codes, contains_any, eq_str}
use cloud_native_service_con.Text.Suffix.{before_suffix}
use cloud_native_service_con.Errors.{Result, err, errorf, ok, wrap}

abbrev pub minimum_token_length : ℕ
minimum_token_length = 32

-- The contents without the first of two suffixes that they have.
unfoldable pub without : (long short : Option Str) → Str → Str
without (some t) short contents = t
without none (some t) contents = t
without none none contents = contents

unfoldable pub trim_trailing_line_ending : Str → Str
unfolding before_suffix without
trim_trailing_line_ending contents =
    without (before_suffix contents (codes "\r\n")) (before_suffix contents (codes "\n")) contents

-- The tests of LoadToken on what was read, without its line ending.
unfoldable pub check_token : Str → Result Str
unfolding eq_str contains_any
check_token contents =
    if eq_str contents []
    then err (errorf (codes "API token is empty"))
    else if contains_any contents (codes "\r\n")
    then err (errorf (codes "API token contains an unexpected line ending"))
    else if ltb (length contents) minimum_token_length
    then err (errorf (codes "API token must contain at least 32 characters"))
    else ok contents

unfoldable pub read_token : Result Str → Result Str
unfolding check_token trim_trailing_line_ending
read_token (err e) = err (wrap (codes "read API token file") e)
read_token (ok contents) = check_token (trim_trailing_line_ending contents)

-- LoadToken; `read_file` is os.ReadFile
unfoldable pub load_token : (Str → Result Str) → Str → Result Str
unfolding read_token eq_str
load_token read_file path =
    if eq_str path []
    then err (errorf (codes "API_TOKEN_FILE is required"))
    else read_token (read_file path)
