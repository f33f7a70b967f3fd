-- ===== src/Commands/Manager/Started.antt =====
-- What it means that the operator exits with 0, and what its servers speak.
use cloud_native_service_con.Base.{
  List, Option, [], ◌∷◌, ◌≡◌, ℕ, none, some, refl, arith, Bool-cases, if◌then◌else◌, inl, inr, ◌≢◌,
  ◌⊎◌,
}
use cloud_native_service_con.Text.{codes, Str, eq_str, eq_str_iff}
use cloud_native_service_con.Errors.{Error, Result, err, ok}
use cloud_native_service_con.Registry.{ManagedServiceMetrics}
use cloud_native_service_con.Commands.Manager.{
  Flags, ManagerOptions, ManagerProcess, TlsConfig, disable_http2, manager_options,
  metrics_server_options, or_exit, reconciler_settings, tls_options, unless_error,
  webhook_server_options, manager_main, run_manager, setup_with_manager, Certificate,
  certificate_options, deployment_kind, managed_service_kind, service_kind,
}
use cloud_native_service_con.Registry.Taken.{AreTaken, new_managed_service_metrics-AreTaken}

-- A server applies its TLS options one after the other.
unfoldable pub apply_options :
    {C : Type 0} → List (TlsConfig C → TlsConfig C) → TlsConfig C → TlsConfig C
apply_options [] c = c
apply_options (f ∷ fs) c = apply_options fs (f c)

-- The certificate that the flags name: none without a path.
abbrev pub IsNamed : (path name key : Str) → Certificate → Type 0
IsNamed path name key c =
    ((path ≡ []) × (c ≡ record { cert_dir = []; cert_name = []; key_name = [] }))
    ⊎ ((path ≢ []) × (c ≡ record { cert_dir = path; cert_name = name; key_name = key }))

certificate_options-IsNamed :
    (path name key : Str) → IsNamed path name key (certificate_options path name key)
unfolding certificate_options
certificate_options-IsNamed path name key = elim (Bool-cases (eq_str path [])) [
  | inl empty ↦ rw empty (inl ((eq_str_iff path []).0 empty, refl))
  | inr given ↦ rw given (inr ((λ e. cc (given, (eq_str_iff path []).1 e)), refl))
]

-- Options without HTTP/2 unless it was asked for, without an open metrics endpoint unless it was
-- asked for, and with the addresses, the certificates and the leader election of the flags.
pub record IsGuarded {C : Type 0} (flags : Flags) (options : ManagerOptions C) : Type 0 where
  pub webhook_protos :
      (c : TlsConfig C)
      → (apply_options options.webhook_server.tls_opts c).next_protos
        ≡ (if flags.enable_http2 then c.next_protos else codes "http/1.1" ∷ [])
  pub metrics_protos :
      (c : TlsConfig C)
      → (apply_options options.metrics.tls_opts c).next_protos
        ≡ (if flags.enable_http2 then c.next_protos else codes "http/1.1" ∷ [])
  pub protected : options.metrics.authenticated ≡ options.metrics.secure_serving
  pub secure : options.metrics.secure_serving ≡ flags.secure_metrics
  pub metrics_address : options.metrics.bind_address ≡ flags.metrics_addr
  pub probe_address : options.health_probe_bind_address ≡ flags.probe_addr
  pub leader_election : options.leader_election ≡ flags.enable_leader_election
  pub leader_election_id : options.leader_election_id ≡ codes "f3394f2f.eoghanclancy.eu"
  pub webhook_certificate :
      IsNamed flags.webhook_cert_path flags.webhook_cert_name flags.webhook_cert_key
        options.webhook_server.certificate
  pub metrics_certificate :
      IsNamed flags.metrics_cert_path flags.metrics_cert_name flags.metrics_cert_key
        options.metrics.certificate

tls_options_protos :
    {C : Type 0} (flags : Flags) (c : TlsConfig C)
    → (apply_options (tls_options flags) c).next_protos
      ≡ (if flags.enable_http2 then c.next_protos else codes "http/1.1" ∷ [])
unfolding apply_options tls_options disable_http2
tls_options_protos flags c = elim (Bool-cases flags.enable_http2) [
  | inl on ↦ rw on refl
  | inr off ↦ rw off refl
]

manager_options-IsGuarded :
    {C : Type 0} (flags : Flags) → IsGuarded {C = C} flags (manager_options flags)
unfolding manager_options webhook_server_options metrics_server_options
manager_options-IsGuarded flags = record {
  webhook_protos = tls_options_protos flags;
  metrics_protos = tls_options_protos flags;
  protected = refl;
  secure = refl;
  metrics_address = refl;
  probe_address = refl;
  leader_election = refl;
  leader_election_id = refl;
  webhook_certificate =
      certificate_options-IsNamed flags.webhook_cert_path flags.webhook_cert_name
        flags.webhook_cert_key;
  metrics_certificate =
      certificate_options-IsNamed flags.metrics_cert_path flags.metrics_cert_name
        flags.metrics_cert_key;
}

past_exit :
    {W V : Type 0} (D : W → Type 0) (rest : V → W → ℕ × W) (step : Result V × W)
    → (or_exit step rest).0 ≡ 0
    → ((value : V) (w : W) → step ≡ (ok value, w) → (rest value w).0 ≡ 0 → D (rest value w).1)
    → D (or_exit step rest).1
unfolding or_exit
past_exit D rest (err e, w) h next = absurd (omega (arith, h))
past_exit D rest (ok value, w) h next = next value w refl h

past_error :
    {W : Type 0} (D : W → Type 0) (rest : W → ℕ × W) (step : Option Error × W)
    → (unless_error step rest).0 ≡ 0
    → ((w : W) → step ≡ (none, w) → (rest w).0 ≡ 0 → D (rest w).1)
    → D (unless_error step rest).1
unfolding unless_error
past_error D rest (some e, w) h next = absurd (omega (arith, h))
past_error D rest (none, w) h next = next w refl h

module _ {C W M Config : Type 0} (p : ManagerProcess C W M Config) where
  -- The steps of a run with exit code 0, one after the other, from `w` to `w'`.
  pub record IsManagerRun (flags : Flags) (w w' : W) : Type 0 where
    pub options : ManagerOptions C
    pub guarded : IsGuarded flags options
    pub config : Config
    pub mgr : M
    pub metrics : ManagedServiceMetrics
    pub w1 : W
    pub configured : p.get_config w ≡ (ok config, w1)
    pub w2 : W
    pub made : p.new_manager config options w1 ≡ (ok mgr, w2)
    pub w3 : W
    pub registered : AreTaken p.registry metrics w2 w3
    pub w4 : W
    pub set_up :
        p.complete
          (record {
            primary = managed_service_kind;
            owned = deployment_kind ∷ service_kind ∷ [];
            name = codes "managedservice";
          })
          (record {
            demo_http_image = flags.demo_http_image;
            image_pull_secret_name = flags.managed_service_image_pull_secret;
          })
          metrics
          mgr
          w3
        ≡ (none, w4)
    pub w5 : W
    pub healthz : p.add_healthz_check (codes "healthz") mgr w4 ≡ (none, w5)
    pub w6 : W
    pub readyz : p.add_readyz_check (codes "readyz") mgr w5 ≡ (none, w6)
    pub ended : p.start mgr w6 ≡ (none, w')

  -- If main of the operator ends with the exit code 0, then it had a configuration; it made a manager
  -- with the addresses, the certificates and the leader election of the flags, whose servers speak
  -- HTTP/1.1 alone unless HTTP/2 was enabled, and whose metrics are behind authentication exactly if they
  -- are served securely; it registered its three metrics, or took those registered already; it set up the
  -- reconciler for ManagedServices, with the Deployments and Services they own, and with the image and
  -- the pull secret of the flags; it added both checks, in this order; and the manager ended without an
  -- error.
  pub manager_main-IsManagerRun :
      (flags : Flags) (w : W)
      → (manager_main p flags w).0 ≡ 0
      → IsManagerRun flags w (manager_main p flags w).1
  unfolding manager_main run_manager setup_with_manager reconciler_settings
  manager_main-IsManagerRun flags w h =
      let D : W → Type 0 = IsManagerRun flags w in
      past_exit D _ _ h (λ config w1 configured h1. past_exit D _ _ h1 (λ mgr w2 made h2.
        past_exit D _ _ h2 (λ metrics w3 registered h3. past_error D _ _ h3 (λ w4 set_up h4.
          past_error D _ _ h4 (λ w5 healthz h5. past_error D _ _ h5 (λ w6 readyz h6.
            past_error D _ _ h6 (λ w7 ended h7. record {
              options = manager_options flags;
              guarded = manager_options-IsGuarded flags;
              config = config;
              mgr = mgr;
              metrics = metrics;
              w1 = w1;
              configured = configured;
              w2 = w2;
              made = made;
              w3 = w3;
              registered =
                  new_managed_service_metrics-AreTaken p.registry p.handle w2 w3 metrics registered;
              w4 = w4;
              set_up = set_up;
              w5 = w5;
              healthz = healthz;
              w6 = w6;
              readyz = readyz;
              ended = ended;
            })))))))
