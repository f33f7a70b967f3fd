-- ===== src/Telemetry/Labels/Shown.antt =====
-- The labels of routes (safeRoute) and methods (normalizedMethod).
use cloud_native_service_con.Base.{
  All, Bool-cases, [], all, any, arith, length, ltb, inl, inr, refl, true, ◌<◌, ◌↔◌, ◌≡◌, ◌≢◌, ◌≤◌,
  ◌⊎◌, ◌∷◌, ℕ, ◌||◌, all_iff, or-eq-true,
}
use cloud_native_service_con.Text.{OneOf, Str, any-eq_str_iff, codes, eq_str, eq_str_iff}
use cloud_native_service_con.Telemetry.Labels.{
  http_methods, is_route_byte, normalized_method, safe_route,
}

-- A byte that is printable and no space.
abbrev pub IsVisible : ℕ → Type 0
IsVisible c = (b' ' < c) × (c < 127)

-- A route that may be shown: one to 128 visible bytes.
pub record IsRouteLabel (route : Str) : Type 0 where
  pub present : route ≢ []
  pub short : length route ≤ 128
  pub visible : All IsVisible route

is_route_byte_iff : (c : ℕ) → (is_route_byte c ≡ true) ↔ IsVisible c
unfolding is_route_byte
is_route_byte_iff c = (λ h. ground (arith, h), λ h. ground (arith, h))

-- The label of a route: itself, if it may be shown, or "unknown".
abbrev pub RouteShown : Str → Str → Type 0
RouteShown route label =
    (IsRouteLabel route × (label ≡ route)) ⊎ ((¬ IsRouteLabel route) × (label ≡ codes "unknown"))

-- The nine methods.
abbrev pub IsMethod : Str → Type 0
IsMethod method = OneOf method (
    codes "CONNECT"
    ∷ codes "DELETE"
    ∷ codes "GET"
    ∷ codes "HEAD"
    ∷ codes "OPTIONS"
    ∷ codes "PATCH"
    ∷ codes "POST"
    ∷ codes "PUT"
    ∷ codes "TRACE"
    ∷ [])

-- The label of a method: itself, if it is one of the nine, or "OTHER".
abbrev pub MethodShown : Str → Str → Type 0
MethodShown method label =
    (IsMethod method × (label ≡ method)) ⊎ ((¬ IsMethod method) × (label ≡ codes "OTHER"))

pub safe_route-RouteShown : (route : Str) → RouteShown route (safe_route route)
unfolding safe_route
safe_route-RouteShown route = elim (Bool-cases (eq_str route [] || ltb 128 (length route))) [
  | inl bad ↦ rw bad (
      inr (
        λ i. elim ((or-eq-true (eq_str route []) (ltb 128 (length route))).0 bad) [
          | inl empty ↦ i.present ((eq_str_iff route []).0 empty)
          | inr long ↦ ground (arith, i.short)
        ],
        refl,
      ))
  | inr fine ↦ elim (Bool-cases (all is_route_byte route)) [
    | inl plain ↦
        rw (fine, plain)
          (inl (
            record {
              present = λ e. ground (arith, (eq_str_iff route []).1 e);
              short = ground arith;
              visible = (all_iff is_route_byte is_route_byte_iff route).0 plain;
            },
            refl,
          ))
    | inr rough ↦
        rw (fine, rough)
          (inr (λ i. cc (rough, (all_iff is_route_byte is_route_byte_iff route).1 i.visible), refl))
  ]
]

pub normalized_method-MethodShown : (method : Str) → MethodShown method (normalized_method method)
unfolding normalized_method
normalized_method-MethodShown method = elim (Bool-cases (any (eq_str method) http_methods)) [
  | inl known ↦ rw known (inl ((any-eq_str_iff method http_methods).0 known, refl))
  | inr unknown ↦
      rw unknown (inr (λ i. cc (unknown, (any-eq_str_iff method http_methods).1 i), refl))
]
