-- ===== src/DemoHttp/Routes.antt =====
-- Which requests the demo service answers itself, and under which label.
use cloud_native_service_con.Base.{
  Bool-cases, List, [], ◌∷◌, ◌||◌, ◌≡◌, ◌⊎◌, inl, inr, or-eq-true, refl, map, some, true, ℕ, ◌==◌,
  ◌∙◌, ◌≢◌,
}
use cloud_native_service_con.Text.{Str, codes, eq_str, eq_str_iff}
use cloud_native_service_con.ControlPlaneApi.Http.{Request}
use cloud_native_service_con.ControlPlaneApi.Mux.{
  join_slash, clean_path, path_unescape, segment, split_slash,
}
use cloud_native_service_con.ControlPlaneApi.Mux.Escapes.{decoded, path_unescape-segments}
use cloud_native_service_con.DemoHttp.{
  DemoResponse, DemoRoute, demo_segments, get_pattern, demo_health, demo_ready, demo_root,
  DemoResponse, asterisk, demo_match, demo_route, demo_status, demo_write_json, missing, moved,
  normalize_demo_route, not_allowed, root_response, service_name,
}

-- The path of a route.
abbrev IsPathOf : DemoRoute → Str → Type 0
IsPathOf demo_root path = path ≡ codes "/"
IsPathOf demo_health path = path ≡ codes "/healthz"
IsPathOf demo_ready path = path ≡ codes "/readyz"
IsPathOf _ path = Unit

-- The routes that are answered by a handler of the program.
abbrev pub IsHandled : DemoRoute → Type 0
IsHandled demo_root = Unit
IsHandled demo_health = Unit
IsHandled demo_ready = Unit
IsHandled _ = ⊥

-- GET or HEAD.
abbrev pub Reads : Str → Type 0
Reads method = (method ≡ codes "GET") ⊎ (method ≡ codes "HEAD")

get_pattern-path :
    (method path : Str) (rt : DemoRoute)
    → IsPathOf rt path
    → IsPathOf (get_pattern method rt) path × (IsHandled (get_pattern method rt) → Reads method)
unfolding get_pattern
get_pattern-path method path rt at =
    elim (Bool-cases (eq_str method (codes "GET") || eq_str method (codes "HEAD"))) [
      | inl reads ↦ rw reads (
        at,
        λ h. elim ((or-eq-true (eq_str method (codes "GET")) _).0 reads) [
          | inl get ↦ inl ((eq_str_iff method (codes "GET")).0 get)
          | inr head ↦ inr ((eq_str_iff method (codes "HEAD")).0 head)
        ],
      )
      | inr other ↦ rw other (tt, λ h. absurd h)
    ]

-- A match of segments, seen from the path.
abbrev Fits : Str → Str → DemoRoute → Type 0
Fits method path rt = IsPathOf rt path × (IsHandled rt → Reads method)

demo_segments-path :
    (method : Str) (segs : List Str)
    → Fits method (join_slash ([] ∷ segs)) (demo_segments method segs)
unfolding demo_segments join_slash
demo_segments-path method [] = (tt, λ h. absurd h)
demo_segments-path method (a ∷ b ∷ segs) = (tt, λ h. absurd h)
demo_segments-path method (a ∷ []) = elim (Bool-cases (eq_str a [])) [
  | inl empty ↦
      rw (empty, (eq_str_iff a []).0 empty) (get_pattern-path method (codes "/") demo_root refl)
  | inr named ↦ elim (Bool-cases (eq_str a (codes "healthz"))) [
    | inl is_health ↦
        rw (named, is_health, (eq_str_iff a (codes "healthz")).0 is_health)
          (get_pattern-path method (codes "/healthz") demo_health refl)
    | inr not_health ↦ elim (Bool-cases (eq_str a (codes "readyz"))) [
      | inl is_ready ↦
          rw (named, not_health, is_ready, (eq_str_iff a (codes "readyz")).0 is_ready)
            (get_pattern-path method (codes "/readyz") demo_ready refl)
      | inr not_ready ↦ rw (named, not_health, not_ready) (tt, λ h. absurd h)
    ]
  ]
]

split-root :
    (c : ℕ) (s : Str)
    → (c == b'/') ≡ true
    → decoded (split_slash (c ∷ s)) ≡ join_slash ([] ∷ map segment (split_slash s))
unfolding split_slash segment path_unescape
split-root c s slash = rw slash refl

demo_match-path :
    (method escaped path : Str)
    → path_unescape escaped ≡ some path
    → Fits method path (demo_match method escaped)
unfolding demo_match
demo_match-path method [] path h = (tt, λ k. absurd k)
demo_match-path method (c ∷ s) path h = elim (Bool-cases (c == b'/')) [
  | inl slash ↦
      let same : path ≡ join_slash ([] ∷ map segment (split_slash s)) =
        path_unescape-segments (c ∷ s) path h ∙ split-root c s slash in
      rw (slash, same) (demo_segments-path method (map segment (split_slash s)))
  | inr other ↦ rw other (tt, λ k. absurd k)
]

demo_route-path :
    (request_uri method escaped path : Str)
    → path_unescape escaped ≡ some path
    → Fits method path (demo_route request_uri method escaped)
unfolding demo_route
demo_route-path request_uri method escaped path h =
    elim (Bool-cases (eq_str request_uri (codes "*"))) [
      | inl whole ↦ rw whole (tt, λ k. absurd k)
      | inr target ↦ elim (Bool-cases (eq_str method (codes "CONNECT"))) [
        | inl tunnel ↦ rw (target, tunnel) (demo_match-path method escaped path h)
        | inr plain ↦ elim (Bool-cases (eq_str (clean_path escaped) escaped)) [
          | inl clean ↦
              rw (target, plain, clean, (eq_str_iff (clean_path escaped) escaped).0 clean)
                (demo_match-path method escaped path h)
          | inr unclean ↦ rw (target, plain, unclean) (tt, λ k. absurd k)
        ]
      ]
    ]

-- One of the three fixed routes.
abbrev pub IsFixed : Str → Type 0
IsFixed path = (path ≡ codes "/") ⊎ (path ≡ codes "/healthz") ⊎ (path ≡ codes "/readyz")

handled_path : (rt : DemoRoute) (path : Str) → IsPathOf rt path → IsHandled rt → IsFixed path
handled_path demo_root path at h = inl at
handled_path demo_health path at h = inr (inl at)
handled_path demo_ready path at h = inr (inr at)
handled_path asterisk path at h = absurd h
handled_path missing path at h = absurd h
handled_path not_allowed path at h = absurd h
handled_path (moved to) path at h = absurd h

normalize_demo_route_fixed : (path : Str) → IsFixed path → normalize_demo_route path ≡ path
unfolding normalize_demo_route eq_str
normalize_demo_route_fixed path (inl e) = rw e refl
normalize_demo_route_fixed path (inr (inl e)) = rw e refl
normalize_demo_route_fixed path (inr (inr e)) = rw e refl

-- If the path of a request is its escaped path decoded and the router hands it to a handler of the demo
-- service, then its method is GET or HEAD, its path is one of the three fixed routes, and
-- NormalizeRoute gives it this path as its label.
pub demo_route-labelled :
    {B : Type 0} (r : Request B)
    → path_unescape r.escaped_path ≡ some r.path
    → IsHandled (demo_route r.request_uri r.method r.escaped_path)
    → Reads r.method × IsFixed r.path × (normalize_demo_route r.path ≡ r.path)
demo_route-labelled r h handled =
    let (at, reads) = demo_route-path r.request_uri r.method r.escaped_path r.path h in
    let fixed = handled_path (demo_route r.request_uri r.method r.escaped_path) r.path at handled in
    (reads handled, fixed, normalize_demo_route_fixed r.path fixed)

-- What the demo service answers on a fixed route.
abbrev pub IsDemoAnswer : Str → Str → DemoResponse → Type 0
IsDemoAnswer message path answer =
    ((path ≡ codes "/")
      × (message ≢ [])
      × (answer ≡ demo_write_json 200 (root_response service_name message)))
    ⊎ ((path ≡ codes "/healthz") × (answer ≡ demo_write_json 200 (demo_status (codes "ok"))))
    ⊎ ((path ≡ codes "/readyz") × (answer ≡ demo_write_json 200 (demo_status (codes "ready"))))
