-- ===== src/Registry/Fresh.antt =====
-- NewHTTPMetrics registers collectors of its own, once for each service name.
use cloud_native_service_con.Base.{
  All, Bool-cases, List, Option, Option-cases, [], ◌∷◌, ◌≡◌, ◌≢◌, ◌∙◌, ℕ, ap, inl, inr, none, some,
  refl, sym,
}
use cloud_native_service_con.Text.{Str, codes, eq_str, eq_str_iff}
use cloud_native_service_con.Errors.{Error, err, ok, wrap}
use cloud_native_service_con.Registry.{
  Collector, HttpMetrics, Registerer, collectors_of, finish_http_metrics, http_metrics,
  new_http_metrics, register_all, after_register, already, register_error,
}
use cloud_native_service_con.Registry.Laws.{RegistryLaws, differ}

-- No collector has the name of a later one.
abbrev Apart : List Collector → Type 0
Apart [] = Unit
Apart (c ∷ cs) = All (λ (d : Collector). c.name ≢ d.name) cs × Apart cs

http_metrics-Apart : (handle : ℕ) → Apart (collectors_of (http_metrics handle))
unfolding eq_str
http_metrics-Apart handle =
    ((differ _ _ refl, (differ _ _ refl, tt)), ((differ _ _ refl, tt), (tt, tt)))

module _ {W : Type 0} (registry : Registerer W) (laws : RegistryLaws registry)
    (labels : List (Str × Str)) where
  register_all_keeps :
      (cs : List Collector) (w : W) (name : Str)
      → All (λ (d : Collector). name ≢ d.name) cs
      → laws.registered (register_all registry labels cs w).1 labels name
        ≡ laws.registered w labels name
  unfolding register_all after_register
  register_all_keeps [] w name other = refl
  register_all_keeps (c ∷ cs) w name (first, other) =
      elim (Option-cases (registry.register labels c w).0) [
        | inl answer ↦ rw answer (
            register_all_keeps cs (registry.register labels c w).1 name other
            ∙ laws.others_kept labels labels c w name first)
        | inr (e, answer) ↦ rw answer (laws.others_kept labels labels c w name first)
      ]

  register_all-registered :
      (cs : List Collector) (w w' : W)
      → Apart cs
      → register_all registry labels cs w ≡ (none, w')
      → All (λ (c : Collector). laws.registered w' labels c.name ≡ some c) cs
  unfolding register_all after_register
  register_all-registered [] w w' apart h = tt
  register_all-registered (c ∷ cs) w w' (first, apart) h =
      elim (Option-cases (registry.register labels c w).0) [
        | inl answer ↦
            let done : register_all registry labels cs (registry.register labels c w).1
                ≡ (none, w') =
              rw answer at h in
            let kept = register_all_keeps cs (registry.register labels c w).1 c.name first in
            (
              ap (λ (a : Option Error × W). laws.registered a.1 labels c.name) (sym done)
                  ∙ (kept ∙ (laws.new_registered labels c w answer).1),
              register_all-registered cs (registry.register labels c w).1 w' apart done,
            )
        | inr (e, answer) ↦ cc (rw answer at h)
      ]

module _ {W : Type 0} (registry : Registerer W) (laws : RegistryLaws registry) where
  abbrev service_labels : Str → List (Str × Str)
  service_labels service_name = (codes "service", service_name) ∷ []

  -- The metrics of NewHTTPMetrics for a service: its own new collectors, registered under its label.
  pub record AreFresh (service_name : Str) (handle : ℕ) (w : W) (m : HttpMetrics) : Type 0 where
    pub named : service_name ≢ []
    pub own : m ≡ http_metrics handle
    pub registered :
        All
          (λ (c : Collector). laws.registered w (service_labels service_name) c.name ≡ some c)
          (collectors_of m)

  finish_http_metrics_inv :
      (new m : HttpMetrics) (answer : Option Error × W) (w' : W)
      → finish_http_metrics new answer ≡ (ok m, w')
      → (m ≡ new) × (answer ≡ (none, w'))
  unfolding finish_http_metrics
  finish_http_metrics_inv new m (none, w) w' h =
      let same : new ≡ m = cc in
      let world : w ≡ w' = cc in (sym same, ap (λ (u : W). (none, u)) world)
  finish_http_metrics_inv new m (some e, w) w' h = cc

  new_http_metrics-AreFresh :
      (service_name : Str) (handle : ℕ) (w w' : W) (m : HttpMetrics)
      → new_http_metrics (some registry) service_name handle w ≡ (ok m, w')
      → AreFresh service_name handle w' m
  unfolding new_http_metrics
  new_http_metrics-AreFresh service_name handle w w' m h =
      elim (Bool-cases (eq_str service_name [])) [
        | inl empty ↦ cc (rw empty at h)
        | inr full ↦
            let cs = collectors_of (http_metrics handle) in
            let (own, done) =
              finish_http_metrics_inv (http_metrics handle) m
                (register_all registry (service_labels service_name) cs w) w' (rw full at h) in
            let registered =
              register_all-registered registry laws (service_labels service_name) cs w w'
                (http_metrics-Apart handle) done in
            record {
              named = λ e. cc ((eq_str_iff service_name []).1 e);
              own = own;
              registered = rw own registered;
            }
      ]

  AreFresh-refuses :
      (service_name : Str) (handle again : ℕ) (w : W) (m : HttpMetrics)
      → AreFresh service_name handle w m
      → (e : Error) × (new_http_metrics (some registry) service_name again w ≡ (err e, w))
  unfolding new_http_metrics register_all after_register finish_http_metrics
  AreFresh-refuses service_name handle again w m fresh =
      let found = (rw fresh.own at fresh.registered).0 in
      let (e, answered) =
        laws.answers_already (service_labels service_name) (http_metrics again).requests_total
          (http_metrics handle).requests_total w found
          (record { same_kind = refl; same_name = refl; same_help = refl; same_labels = refl }) in
      elim (Bool-cases (eq_str service_name [])) [
        | inl empty ↦ absurd (fresh.named ((eq_str_iff service_name []).0 empty))
        | inr full ↦ (
          wrap (codes "register HTTP metric")
              (register_error (already (http_metrics handle).requests_total e)),
          rw (full, answered) refl,
        )
      ]

  -- If the registry keeps its laws and NewHTTPMetrics returns no error, then the service has a name, the
  -- metrics are its own new collectors, and they are registered under the label of the service; and
  -- another call for this service name returns an error and changes nothing.
  pub new_http_metrics_once :
      (service_name : Str) (handle again : ℕ) (w w' : W) (m : HttpMetrics)
      → new_http_metrics (some registry) service_name handle w ≡ (ok m, w')
      → AreFresh service_name handle w' m
        × ((e : Error) × (new_http_metrics (some registry) service_name again w' ≡ (err e, w')))
  new_http_metrics_once service_name handle again w w' m h =
      let fresh = new_http_metrics-AreFresh service_name handle w w' m h in
      (fresh, AreFresh-refuses service_name handle again w' m fresh)
