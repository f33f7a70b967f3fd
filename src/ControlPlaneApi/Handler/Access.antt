-- ===== src/ControlPlaneApi/Handler/Access.antt =====
-- Nobody reaches the store without the credential, whatever way a path is written.
use cloud_native_service_con.Base.{
  List, some, true, ◌∷◌, ◌≡◌, Bool-cases, [], and-eq-true, false, inl, inr, map, or-eq-true, refl,
  ℕ, ◌&&◌, ◌++◌, ◌==◌, ◌∙◌, subst,
}
use cloud_native_service_con.Text.{Str, codes, eq_str, eq_str_iff, has_prefix}
use cloud_native_service_con.Text.Search.{has_prefix-append}
use cloud_native_service_con.ControlPlaneApi.Http.{Request}
use cloud_native_service_con.ControlPlaneApi.Auth.{is_protected_path, authenticated}
use cloud_native_service_con.ControlPlaneApi.Mux.{
  Route, path_unescape, match_path, join_slash, route, route_segments, segment, split_slash,
  clean_path,
}
use cloud_native_service_con.ControlPlaneApi.Mux.Escapes.{path_unescape-segments, decoded}
use cloud_native_service_con.ControlPlaneApi.Store.{ManagedServiceStore}
use cloud_native_service_con.ControlPlaneApi.Handler.{
  ApiHandler, Libraries, serve_http, serve_route,
}

-- The handlers that use the store.
abbrev pub UsesStore : Route → Type 0
UsesStore Route.collection = Unit
UsesStore Route.item = Unit
UsesStore _ = ⊥

protected_prefix : (s : Str) → is_protected_path (codes "/api/v1/" ++ s) ≡ true
unfolding is_protected_path
protected_prefix s =
    (or-eq-true (eq_str (codes "/api/v1/" ++ s) (codes "/api/v1"))
        (has_prefix (codes "/api/v1/" ++ s) (codes "/api/v1/"))).1
      (inr (has_prefix-append (codes "/api/v1/") s))

one_segment : (a : Str) → UsesStore (route_segments (a ∷ [])) → ⊥
unfolding route_segments
one_segment a u = elim (Bool-cases (eq_str a (codes "healthz"))) [
  | inl e ↦ rw e at u
  | inr e ↦ elim (Bool-cases (eq_str a (codes "readyz"))) [
    | inl f ↦ rw (e, f) at u
    | inr f ↦ rw (e, f) at u
  ]
]

two_segments : (a b : Str) → UsesStore (route_segments (a ∷ b ∷ [])) → ⊥
unfolding route_segments
two_segments a b u = elim (Bool-cases (eq_str a (codes "api") && eq_str b (codes "v1"))) [
  | inl e ↦ rw e at u
  | inr e ↦ rw e at u
]

split-root :
    (c : ℕ) (s : Str)
    → (c == b'/') ≡ true
    → decoded (split_slash (c ∷ s)) ≡ join_slash ([] ∷ map segment (split_slash s))
unfolding split_slash segment path_unescape
split-root c s slash = rw slash refl

-- A path whose segments lead to the store is a protected path.
segments-protected :
    (segs : List Str)
    → UsesStore (route_segments segs)
    → is_protected_path (join_slash ([] ∷ segs)) ≡ true
unfolding route_segments join_slash
segments-protected [] u = elim u [ ]
segments-protected (a ∷ []) u = absurd (one_segment a u)
segments-protected (a ∷ b ∷ []) u = absurd (two_segments a b u)
segments-protected (a ∷ b ∷ c ∷ rest) u =
    elim (Bool-cases
      (eq_str a (codes "api") && (eq_str b (codes "v1") && eq_str c (codes "managed-services")))) [
        | inl hit ↦
            let (ha, t) =
              (and-eq-true (eq_str a (codes "api"))
                  (eq_str b (codes "v1") && eq_str c (codes "managed-services"))).0
                hit in
            let (hb, hc) =
              (and-eq-true (eq_str b (codes "v1")) (eq_str c (codes "managed-services"))).0 t in
            rw ((eq_str_iff a (codes "api")).0 ha, (eq_str_iff b (codes "v1")).0 hb)
              (protected_prefix (join_slash (c ∷ rest)))
        | inr miss ↦ absurd (rw miss at u)
      ]

match_path-protected :
    (escaped path : Str)
    → path_unescape escaped ≡ some path
    → UsesStore (match_path escaped)
    → is_protected_path path ≡ true
unfolding match_path
match_path-protected [] path h u = elim u [ ]
match_path-protected (c ∷ s) path h u = elim (Bool-cases (c == b'/')) [
  | inl slash ↦
      let same : path ≡ decoded (split_slash (c ∷ s)) = path_unescape-segments (c ∷ s) path h in
      let parts : decoded (split_slash (c ∷ s)) ≡ join_slash ([] ∷ map segment (split_slash s)) =
        split-root c s slash in
      rw (same ∙ parts) (segments-protected (map segment (split_slash s)) (rw slash at u))
  | inr other ↦ absurd (rw other at u)
]

-- Whatever the router does first, a request that it hands to the store has a protected path.
route-protected :
    (request_uri method escaped path : Str)
    → path_unescape escaped ≡ some path
    → UsesStore (route request_uri method escaped)
    → is_protected_path path ≡ true
unfolding route
route-protected request_uri method escaped path h u =
    elim (Bool-cases (eq_str request_uri (codes "*"))) [
      | inl whole ↦ absurd (rw whole at u)
      | inr target ↦ elim (Bool-cases (eq_str method (codes "CONNECT"))) [
        | inl tunnel ↦ match_path-protected escaped path h (rw (target, tunnel) at u)
        | inr plain ↦ elim (Bool-cases (eq_str (clean_path escaped) escaped)) [
          | inl clean ↦ match_path-protected escaped path h (
              subst (λ p. UsesStore (match_path p))
                ((eq_str_iff (clean_path escaped) escaped).0 clean)
                (rw (target, plain, clean) at u))
          | inr unclean ↦ absurd (rw (target, plain, unclean) at u)
        ]
      ]
    ]

module _ {B W : Type 0} (lib : Libraries B) (h : ApiHandler W) (other : ManagedServiceStore W) where
  abbrev pub with_store : ApiHandler W
  with_store = record h { store = other }

  serve_route-no_store :
      (rt : Route) (r : Request B) (w : W)
      → ¬ UsesStore rt
      → serve_route lib with_store rt r w ≡ serve_route lib h rt r w
  unfolding serve_route
  serve_route-no_store Route.collection r w u = absurd (u tt)
  serve_route-no_store Route.item r w u = absurd (u tt)
  serve_route-no_store _ r w u = refl

  -- A request without the credential is answered the same whatever the store would do, and however its
  -- path is escaped: if it is not refused, what serves it does not use the store.
  pub serve_http-without_credential :
      (r : Request B) (w : W)
      → path_unescape r.escaped_path ≡ some r.path
      → authenticated lib.hash h.expected_token_hash r.authorization ≡ false
      → serve_http lib with_store r w ≡ serve_http lib h r w
  unfolding serve_http
  serve_http-without_credential r w escaped no_credential =
      elim (Bool-cases (is_protected_path r.path)) [
        | inl guarded ↦ rw (guarded, no_credential) refl
        | inr free ↦ rw free (
            serve_route-no_store (route r.request_uri r.method r.escaped_path) r w
              (λ u. cc (route-protected r.request_uri r.method r.escaped_path r.path escaped u)))
      ]
