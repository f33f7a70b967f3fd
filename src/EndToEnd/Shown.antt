-- ===== src/EndToEnd/Shown.antt =====
-- What the API shows of a status that the operator stored.
use mathlib.Core.List.{Mem, mem-map_of_mem}
use mathlib.Core.List.Perm
use native.Mathlib.Decide.{dec_le}
use cloud_native_service_con.Base.{
  ◌≡◌, ◌∙◌, ap, inl, inr, map, neg_part, pos_part, some, ℤ, ◌+◌, ◌≤ℤ◌, ◌⊎◌,
}
use cloud_native_service_con.Text.{Str}
use cloud_native_service_con.Text.Order.{sort_by-perm}
use cloud_native_service_con.Types.{
  ConditionStatus, ManagedService, condition_available, condition_false, condition_true,
}
use cloud_native_service_con.Controller.Labels.{desired_replicas}
use cloud_native_service_con.Controller.Status.{service_endpoint}
use cloud_native_service_con.Controller.Status.Laws.{IsObserved, Reports}
use cloud_native_service_con.Controller.Workload.{Deployment}
use cloud_native_service_con.Controller.Reconcile.{Cluster}
use cloud_native_service_con.Controller.Reconcile.Laws.Persist.{ClusterLaws}
use cloud_native_service_con.ControlPlaneApi.Http.{ManagedServiceResponse, ResponseCondition}
use cloud_native_service_con.ControlPlaneApi.Store.{Client, new_managed_service}
use cloud_native_service_con.ControlPlaneApi.Store.Scope.{ClientLaws}
use cloud_native_service_con.ControlPlaneApi.Requests.{
  new_managed_service_response, replicas_or_default, response_condition,
}
use cloud_native_service_con.EndToEnd.{SharesCluster, fixed_part}

-- The shown ManagedService has a condition of this type, with this status.
abbrev pub HasCondition : ManagedServiceResponse → Str → ConditionStatus → Type 0
HasCondition item t status =
    (rc : ResponseCondition) × Mem rc item.conditions × (rc.type_name ≡ t) × (rc.status ≡ status)

-- The representation of a ManagedService that was created with these arguments and reconciled with this
-- Deployment: what was asked for, what was observed, and Available with status "True" exactly if there
-- are as many ready replicas as were asked for.
pub record IsDeployed (name : Str) (replicas : ℤ) (message : Str) (made : ManagedService)
    (d : Deployment) (item : ManagedServiceResponse) : Type 0 where
  pub same_name : item.name ≡ name
  pub same_replicas : item.replicas ≡ replicas
  pub same_message : item.message ≡ message
  pub observed : item.observed_generation ≡ made.meta.generation
  pub ready : item.ready_replicas ≡ d.ready_replicas
  pub reachable : item.endpoint ≡ service_endpoint made.meta
  pub available :
      ((desired_replicas made ≤ℤ d.ready_replicas)
        × HasCondition item condition_available condition_true)
      ⊎ ((¬ (desired_replicas made ≤ℤ d.ready_replicas))
          × HasCondition item condition_available condition_false)

pub fixed_parts :
    (a b : ManagedService)
    → fixed_part (some a) ≡ fixed_part (some b)
    → (a.meta ≡ b.meta) × (a.spec ≡ b.spec)
unfolding fixed_part
fixed_parts a b h = (cc, cc)

module _ {W : Type 0} {client : Client W} {c : Cluster W} (laws : ClientLaws client)
    (cluster_laws : ClusterLaws c) (shares : SharesCluster laws cluster_laws) where
  -- A condition that the status reports is shown.
  Reports-HasCondition :
      (after object : ManagedService) (t : Str) (status : ConditionStatus) (reason message : Str)
      → object.status ≡ after.status
      → Reports c.conditions after t status reason message
      → HasCondition (new_managed_service_response object) t status
  unfolding new_managed_service_response
  Reports-HasCondition after object t status reason message same reports =
      let (member, typed) =
        shares.find_member object.status.conditions t reports.condition (rw same reports.found) in
      (
        response_condition reports.condition,
        (Perm.mem_iff (
              sort_by-perm (λ (rc : ResponseCondition). rc.type_name)
                (map response_condition object.status.conditions))).1
            (mem-map_of_mem response_condition member),
        typed,
        reports.has_status,
      )

  available_shown :
      (made after object : ManagedService) (d : Deployment)
      → object.status ≡ after.status
      → IsObserved c.conditions made d after
      → ((desired_replicas made ≤ℤ d.ready_replicas)
          × HasCondition (new_managed_service_response object) condition_available condition_true)
        ⊎ ((¬ (desired_replicas made ≤ℤ d.ready_replicas))
            × HasCondition
                (new_managed_service_response object)
                condition_available
                condition_false)
  available_shown made after object d same i =
      elim (dec_le (pos_part (desired_replicas made) + neg_part d.ready_replicas)
        (pos_part d.ready_replicas + neg_part (desired_replicas made))) [
          | yes enough ↦
              inl (enough, Reports-HasCondition after object _ _ _ _ same (i.enough enough).0)
          | no waiting ↦
              inr (waiting, Reports-HasCondition after object _ _ _ _ same (i.waiting waiting).0)
        ]

  pub object-IsDeployed :
      (name : Str) (replicas : ℤ) (message : Str) (made after object : ManagedService)
      (d : Deployment)
      → made.spec ≡ (new_managed_service name replicas message).spec
      → made.meta.name ≡ name
      → (object.meta ≡ made.meta) × (object.spec ≡ made.spec)
      → object.status ≡ after.status
      → IsObserved c.conditions made d after
      → IsDeployed name replicas message made d (new_managed_service_response object)
  unfolding new_managed_service_response new_managed_service
  object-IsDeployed name replicas message made after object d spec named (meta, kept) same i =
      record {
        same_name = ap (λ m. m.name) meta ∙ named;
        same_replicas = ap (λ s. replicas_or_default s.replicas) (kept ∙ spec);
        same_message = ap (λ s. s.message) (kept ∙ spec);
        observed = ap (λ s. s.observed_generation) same ∙ i.observed;
        ready = ap (λ s. s.ready_replicas) same ∙ i.replicas;
        reachable = ap (λ s. s.endpoint) same ∙ i.endpoint;
        available = available_shown made after object d same i;
      }
