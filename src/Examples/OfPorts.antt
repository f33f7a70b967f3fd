-- ===== src/Examples/OfPorts.antt =====
-- Ports on sample inputs.
use cloud_native_service_con.Base.{[], negsuc, none, pos, refl, some, ◌↔◌, ◌≡◌, ◌≢◌}
use cloud_native_service_con.Text.{codes}
use cloud_native_service_con.Text.Number.{atoi}
use cloud_native_service_con.Errors.{ok}
use cloud_native_service_con.Ports.{
  default_metrics_port, default_port, parse_demo_port, parse_metrics_port, parse_port,
}
use cloud_native_service_con.Ports.Range.{IsPort, Spells, parse_metrics_port_iff, parse_port_iff}

atoi_signed : atoi (codes "-12") ≡ some (negsuc 11)
unfolding atoi
atoi_signed = refl

atoi_too_large : atoi (codes "9223372036854775808") ≡ none
unfolding atoi
atoi_too_large = refl

atoi_rest : atoi (codes "80 ") ≡ none
unfolding atoi
atoi_rest = refl

parse_port_iff_example :
    ((parse_port (λ s. s) (codes "+8081") ≡ ok (pos 8081))
      ↔ (Spells default_port (codes "+8081") (pos 8081) × IsPort (pos 8081)))
    × ((parse_demo_port (λ s. s) (codes "+8081") ≡ ok (pos 8081))
        ↔ (Spells default_port (codes "+8081") (pos 8081) × IsPort (pos 8081)))
parse_port_iff_example = parse_port_iff (λ s. s) (codes "+8081") (pos 8081)

parse_metrics_port_iff_example :
    (parse_metrics_port (λ s. s) [] (pos 8080) ≡ ok (pos 9090))
    ↔ (Spells default_metrics_port [] (pos 9090) × IsPort (pos 9090) × (pos 9090 ≢ pos 8080))
parse_metrics_port_iff_example = parse_metrics_port_iff (λ s. s) [] (pos 8080) (pos 9090)
