-- ===== src/ControlPlaneApi/Mux.antt =====
-- The router of NewHandler: the patterns that it registers, and how http.ServeMux (Go 1.22 and later)
-- chooses among them. A path is matched segment by segment, each segment with its escapes decoded;
-- a path that is not clean is answered by a redirection, except for CONNECT.
pub mod Escapes
use cloud_native_service_con.Base.{
  Bool, List, Option, [], false, if◌then◌else◌, map, none, reverse, some, tail, ℕ, ◌&&◌, ◌*◌, ◌++◌,
  ◌+◌, ◌==◌, ◌||◌, ◌∷◌,
}
use cloud_native_service_con.Text.{Str, codes, eq_str}
use cloud_native_service_con.Text.Hex.{hex_value}

-- The handler that serves a request.
pub data Route : Type 0 where
  -- the request for "*", which ServeMux.ServeHTTP refuses
  star : Route
  -- RedirectHandler(to, …)
  redirect : Str → Route
  -- the pattern "/", and no pattern at all
  unknown unmatched : Route
  health readiness identity collection item : Route

-- The segments between the slashes.
unfoldable pub push_byte : ℕ → List Str → List Str
push_byte c [] = (c ∷ []) ∷ []
push_byte c (seg ∷ segs) = (c ∷ seg) ∷ segs

unfoldable pub split_slash : Str → List Str
unfolding push_byte
split_slash [] = [] ∷ []
split_slash (c ∷ s) = let rest = split_slash s in if c == b'/' then [] ∷ rest else push_byte c rest

unfoldable pub join_slash : List Str → Str
join_slash [] = []
join_slash (seg ∷ []) = seg
join_slash (seg ∷ (seg' ∷ segs)) = seg ++ (b'/' ∷ join_slash (seg' ∷ segs))

cons_byte : ℕ → Option Str → Option Str
cons_byte c none = none
cons_byte c (some s) = some (c ∷ s)

escape_byte : Option ℕ → Option ℕ → Option Str → Option Str
escape_byte (some a) (some b) (some s) = some ((a * 16 + b) ∷ s)
escape_byte _ _ _ = none

-- url.PathUnescape: none is an error
unfoldable pub path_unescape : Str → Option Str
unfolding cons_byte escape_byte
path_unescape [] = some []
path_unescape (c ∷ []) = if c == b'%' then none else some (c ∷ [])
path_unescape (c ∷ a ∷ []) =
    let plain = path_unescape (a ∷ []) in if c == b'%' then none else cons_byte c plain
path_unescape (c ∷ a ∷ b ∷ s) =
    let plain = path_unescape (a ∷ b ∷ s) in
    let escaped = path_unescape s in
    if c == b'%' then escape_byte (hex_value a) (hex_value b) escaped else cons_byte c plain

-- pathUnescape of net/http: a segment that cannot be decoded stands for itself.
unfoldable pub segment : Str → Str
segment s = elim (path_unescape s) [ none ↦ s | some t ↦ t ]

-- One segment of path.Clean; the stack has the last segment first.
resolve : List Str → Str → List Str
unfolding eq_str
resolve stack seg =
    if eq_str seg [] || eq_str seg (codes ".")
    then stack
    else if eq_str seg (codes "..")
    then tail stack
    else seg ∷ stack

clean_segments : List Str → List Str → List Str
clean_segments stack [] = reverse stack
clean_segments stack (seg ∷ segs) = clean_segments (resolve stack seg) segs

-- The bytes behind the leading slash, which cleanPath adds where it is missing.
rooted : Str → Str
rooted [] = []
rooted (c ∷ s) = if c == b'/' then s else c ∷ s

ends_with_slash : Str → Bool
ends_with_slash [] = false
ends_with_slash (c ∷ []) = c == b'/'
ends_with_slash (c ∷ c' ∷ s) = ends_with_slash (c' ∷ s)

-- A slash and the segments, with the slash at the end that the path had; the root is one slash.
rooted_path : List Str → Bool → Str
unfolding join_slash
rooted_path [] slash = codes "/"
rooted_path (seg ∷ segs) slash =
    b'/' ∷ (join_slash (seg ∷ segs) ++ (if slash then codes "/" else []))

-- cleanPath: path.Clean of the rooted path, which keeps a slash at the end.
unfoldable pub clean_path : Str → Str
unfolding rooted rooted_path clean_segments resolve ends_with_slash split_slash
clean_path p =
    let segs = clean_segments [] (split_slash (rooted p)) in rooted_path segs (ends_with_slash p)

-- The pattern for the segments of a path behind its leading slash.
unfoldable pub route_segments : List Str → Route
unfolding eq_str
route_segments (a ∷ []) =
    if eq_str a (codes "healthz")
    then health
    else if eq_str a (codes "readyz")
    then readiness
    else unknown
route_segments (a ∷ b ∷ []) =
    if eq_str a (codes "api") && eq_str b (codes "v1") then identity else unknown
route_segments (a ∷ b ∷ c ∷ rest) =
    if eq_str a (codes "api") && (eq_str b (codes "v1") && eq_str c (codes "managed-services"))
    then elim rest [ [] ↦ collection | _ ↦ item ]
    else unknown
route_segments [] = unknown

unfoldable pub match_path : Str → Route
unfolding split_slash segment
match_path [] = unmatched
match_path (c ∷ s) = if c == b'/' then route_segments (map segment (split_slash s)) else unmatched

-- ServeMux.Handler for this router. (A pattern with a slash at the end has its twin without, so
-- there is no redirection to add a slash.)
unfoldable pub route : Str → Str → Str → Route
unfolding eq_str
route request_uri method escaped =
    let clean = clean_path escaped in
    if eq_str request_uri (codes "*")
    then star
    else if eq_str method (codes "CONNECT")
    then match_path escaped
    else if eq_str clean escaped
    then match_path clean
    else redirect clean
