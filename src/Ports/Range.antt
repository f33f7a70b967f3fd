-- ===== src/Ports/Range.antt =====
-- The ports that the commands listen on.
use cloud_native_service_con.Base.{
  sym, ◌∙◌, Bool-cases, Option, [], arith, inl, inr, none, some, pos, ltb_ℤ, ◌||◌, ◌≡◌, ◌≢◌, ◌≤ℤ◌,
  ◌↔◌, ◌⊎◌, ℤ, false, ap, eq_ℤ, eq_ℤ_iff, if◌then◌else◌, subst,
}
use cloud_native_service_con.Text.{Str, codes, eq_str, eq_str_iff}
use cloud_native_service_con.Text.Number.{atoi}
use cloud_native_service_con.Errors.{ok, Result, err}
use cloud_native_service_con.Ports.{
  check_port, default_metrics_port, default_port, differing_port, parse_demo_port,
  parse_metrics_port, parse_port,
}

-- The value of a variable: the default if it is empty, and else the number that it spells.
abbrev pub Spells : ℤ → Str → ℤ → Type 0
Spells default value port =
    ((value ≡ []) × (port ≡ default)) ⊎ ((value ≢ []) × (atoi value ≡ some port))

-- A port that can be listened on.
pub record IsPort (port : ℤ) : Type 0 where
  pub at_least : pos 1 ≤ℤ port
  pub at_most : port ≤ℤ pos 65535

in_range : (port : ℤ) → (ltb_ℤ port (pos 1) || ltb_ℤ (pos 65535) port) ≡ false → IsPort port
in_range port h = record { at_least = ground arith; at_most = ground arith }

in_range_complete :
    (port : ℤ) → IsPort port → (ltb_ℤ port (pos 1) || ltb_ℤ (pos 65535) port) ≡ false
in_range_complete port i = ground (arith, i.at_least, i.at_most)

module _ (quote : Str → Str) where
  check_port_iff :
      (name value : Str) (spelled : Option ℤ) (port : ℤ)
      → (check_port quote name value spelled ≡ ok port) ↔ ((spelled ≡ some port) × IsPort port)
  unfolding check_port
  check_port_iff name value none port = (λ h. cc, λ h. cc)
  check_port_iff name value (some n) port =
      elim (Bool-cases (ltb_ℤ n (pos 1) || ltb_ℤ (pos 65535) n)) [
        | inl out ↦ (
          λ h. cc (rw out at h),
          λ (e, i).
              let same : n ≡ port = cc in cc (in_range_complete n (subst IsPort (sym same) i)),
        )
        | inr fits ↦ (
          λ h.
              let same : n ≡ port = cc (rw fits at h) in
              (ap some same, subst IsPort same (in_range n fits)),
          λ (e, i). let same : n ≡ port = cc in rw fits (ap ok same),
        )
      ]

  -- The choice between the default and the checked number.
  abbrev chosen : Str → ℤ → Str → Result ℤ
  chosen name default value =
      if eq_str value [] then ok default else check_port quote name value (atoi value)

  chosen_iff :
      (name value : Str) (default port : ℤ)
      → IsPort default
      → (chosen name default value ≡ ok port) ↔ (Spells default value port × IsPort port)
  chosen_iff name value default port d = elim (Bool-cases (eq_str value [])) [
    | inl empty ↦ (
      λ h.
          let same : default ≡ port = cc (rw empty at h) in
          (inl ((eq_str_iff value []).0 empty, sym same), subst IsPort same d),
      λ (s, i). elim s [
        | inl (e, same) ↦ rw empty (ap ok (sym same))
        | inr (e, spelled) ↦ absurd (e ((eq_str_iff value []).0 empty))
      ],
    )
    | inr full ↦ (
      λ h.
          let (spelled, i) = (check_port_iff name value (atoi value) port).0 (rw full at h) in
          (inr (λ e. cc ((eq_str_iff value []).1 e), spelled), i),
      λ (s, i). elim s [
        | inl (e, same) ↦ cc ((eq_str_iff value []).1 e)
        | inr (e, spelled) ↦ rw full ((check_port_iff name value (atoi value) port).1 (spelled, i))
      ],
    )
  ]

  differing_port_iff :
      (public_port port : ℤ) (answer : Result ℤ)
      → (differing_port quote public_port answer ≡ ok port)
        ↔ ((answer ≡ ok port) × (port ≢ public_port))
  unfolding differing_port
  differing_port_iff public_port port (err e) = (λ h. cc, λ h. cc)
  differing_port_iff public_port port (ok n) = elim (Bool-cases (eq_ℤ n public_port)) [
    | inl equal ↦ (
      λ h. cc (rw equal at h),
      λ (e, other).
          let same : n ≡ port = cc in absurd (other (sym same ∙ (eq_ℤ_iff n public_port).0 equal)),
    )
    | inr differs ↦ (
      λ h.
          let same : n ≡ port = cc (rw differs at h) in
          (ap ok same, λ e. cc ((eq_ℤ_iff n public_port).1 (same ∙ e))),
      λ (e, other). rw differs e,
    )
  ]

  -- Each of the two ParsePort returns a port exactly when PORT is empty and it is 8080, or PORT spells
  -- it, and it is between 1 and 65535.
  pub parse_port_iff :
      (value : Str) (port : ℤ)
      → ((parse_port quote value ≡ ok port) ↔ (Spells default_port value port × IsPort port))
        × ((parse_demo_port quote value ≡ ok port) ↔ (Spells default_port value port × IsPort port))
  unfolding parse_port parse_demo_port
  parse_port_iff value port =
      let spelled =
        chosen_iff (codes "PORT") value default_port port
          (record { at_least = omega arith; at_most = omega arith }) in
      (spelled, spelled)

  -- ParseMetricsPort returns a port exactly when METRICS_PORT is empty and it is 9090, or
  -- METRICS_PORT spells it, it is between 1 and 65535, and it is not the public port.
  pub parse_metrics_port_iff :
      (value : Str) (public_port port : ℤ)
      → (parse_metrics_port quote value public_port ≡ ok port)
        ↔ (Spells default_metrics_port value port × IsPort port × (port ≢ public_port))
  unfolding parse_metrics_port
  parse_metrics_port_iff value public_port port =
      let spelled =
        chosen_iff (codes "METRICS_PORT") value default_metrics_port port
          (record { at_least = omega arith; at_most = omega arith }) in
      let differs =
        differing_port_iff public_port port
          (chosen (codes "METRICS_PORT") default_metrics_port value) in
      (
        λ h. ((spelled.0 (differs.0 h).0).0, (spelled.0 (differs.0 h).0).1, (differs.0 h).1),
        λ (s, i, other). differs.1 (spelled.1 (s, i), other),
      )
