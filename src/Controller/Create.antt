-- ===== src/Controller/Create.antt =====
-- createTimeshift of cmd/controller/controller.go, with the injection of a pod and the check for
-- conflicts.
pub mod Exclusive
use Prim.Native.String.{◌++◌ as str_append}
use epochd.Base.{
  ℕ, suc, ◌+◌, String, Bool, true, false, not, ◌&&◌, ◌||◌, Option, none, some, List, [], ◌∷◌, ◌++◌,
  if◌then◌else◌, str_eq,
}
use epochd.Base.Int.{ℤ, pos, ◌+ℤ◌, ltb_ℤ}
use epochd.Clock.{Time, Duration, zero_time, add, sub}
use epochd.Controller.{
  ContainerHandle, Timeshift, ContainerStatus, Pod, Call, inject_call, Agents, Metrics, Timeshifts,
  Controller, Error, list_failed, not_found_error, no_containers, conflict_error, Result, ok, err,
  persist,
}
use epochd.Controller.Registry.{lookup, insert}

-- The key of occupiedContainers.
unfoldable pub container_key : String → String → String → String
container_key ns pod container =
    str_append ns (str_append "\0" (str_append pod (str_append "\0" container)))

-- The test that injectPod and checkConflicts make of a container.
abbrev pub is_target : ContainerStatus → Bool
is_target cs = cs.running && not (str_eq cs.container_id "")

unfoldable pub occupy :
    Timeshift → List ContainerHandle → List (String × String) → List (String × String)
occupy s [] m = m
occupy s (h ∷ hs) m = occupy s hs (insert (container_key s.namespace h.pod h.container) s.id m)

-- occupiedContainers: the id of the timeshift that tracks a container, by the container's key.
unfoldable pub occupied_from : Timeshifts → List (String × String) → List (String × String)
unfolding occupy
occupied_from [] m = m
occupied_from ((id, s) ∷ rest) m = occupied_from rest (occupy s s.handles m)

unfoldable pub occupied_containers : Timeshifts → List (String × String)
unfolding occupied_from
occupied_containers timeshifts = occupied_from timeshifts []

unfoldable pub pod_conflicts :
    List (String × String)
    → String
    → String
    → List ContainerStatus
    → List (String × String × String)
pod_conflicts occupied ns pod [] = []
pod_conflicts occupied ns pod (cs ∷ css) =
    let rest = pod_conflicts occupied ns pod css in
    if is_target cs
    then elim (lookup (container_key ns pod cs.name) occupied) [
      | none ↦ rest
      | some id ↦ (pod, cs.name, id) ∷ rest
    ]
    else rest

unfoldable pub conflicts :
    List (String × String) → String → List Pod → List (String × String × String)
unfolding pod_conflicts
conflicts occupied ns [] = []
conflicts occupied ns (pod ∷ pods) =
    pod_conflicts occupied ns pod.name pod.statuses ++ conflicts occupied ns pods

-- checkConflicts
unfoldable pub check_conflicts : Timeshifts → String → List Pod → Option Error
unfolding conflicts occupied_containers
check_conflicts timeshifts ns pods = elim (conflicts (occupied_containers timeshifts) ns pods) [
  | [] ↦ none
  | c ∷ cs ↦ some (conflict_error (c ∷ cs))
]

-- What a loop over containers changes besides its handles: the calls made and the metrics.
pub record Progress : Type 0 where
  pub handles : List ContainerHandle
  pub calls : List Call
  pub met : Metrics

-- The new timeshift of createTimeshift, at the reading `now` of the clock.
unfoldable pub new_timeshift :
    String → String → String → Time → Duration → Bool → Time → List ContainerHandle → Timeshift
new_timeshift id ns sel target ttl freeze now handles = record {
  id = id;
  namespace = ns;
  label_selector = sel;
  offset = if freeze then pos 0 else sub target now;
  frozen_at = if freeze then target else zero_time;
  frozen = freeze;
  ttl = ttl;
  expires_at = if ltb_ℤ (pos 0) ttl then add now ttl else zero_time;
  created_at = now;
  handles = handles;
}

-- The end of createTimeshift, after the injections.
unfoldable pub register : Bool → String → Timeshift → Controller → Controller
unfolding persist
register flush_ok id s c = persist flush_ok (record c {
  timeshifts = insert id s c.timeshifts;
  met = record c.met { active = c.met.active +ℤ pos 1 };
})

-- The end of createTimeshift once the injections are made.
unfoldable pub finish_create :
    Bool
    → String
    → Time
    → String
    → String
    → Time
    → Duration
    → Bool
    → Progress
    → Controller
    → Result Timeshift × Controller
unfolding new_timeshift register
finish_create flush_ok id now ns sel target ttl freeze p c =
    let c' = record c { calls = p.calls; met = p.met } in
    elim p.handles [
      | [] ↦ (err no_containers, c')
      | h ∷ hs ↦
          let s = new_timeshift id ns sel target ttl freeze now (h ∷ hs) in
          (ok s, register flush_ok id s c')
    ]

module _ (agents : Agents) where
  -- One container of injectPod.
  unfoldable pub inject_container : Pod → Time → Bool → ContainerStatus → Progress → Progress
  inject_container pod target freeze cs p =
      let calls = p.calls ++ inject_call pod.host_ip cs.container_id target freeze ∷ [] in
      if is_target cs
      then elim (agents.inject p.calls pod.host_ip cs.container_id target freeze) [
        | none ↦ record p {
          calls = calls;
          met = record p.met { inject_error = p.met.inject_error + 1 };
        }
        | some hid ↦ record {
          handles =
              p.handles
              ++ record {
                pod = pod.name;
                container = cs.name;
                node_ip = pod.host_ip;
                container_id = cs.container_id;
                agent_handle = hid;
              }
                ∷ [];
          calls = calls;
          met = record p.met { inject_success = p.met.inject_success + 1 };
        }
      ]
      else p

  unfoldable pub inject_containers : Pod → Time → Bool → List ContainerStatus → Progress → Progress
  inject_containers pod target freeze [] p = p
  inject_containers pod target freeze (cs ∷ css) p =
      inject_containers pod target freeze css (inject_container pod target freeze cs p)

  -- injectPod: appends the handles of the pod's containers.
  unfoldable pub inject_pod : Pod → Time → Bool → Progress → Progress
  unfolding inject_containers
  inject_pod pod target freeze p = inject_containers pod target freeze pod.statuses p

  unfoldable pub inject_pods : List Pod → Time → Bool → Progress → Progress
  unfolding inject_pod
  inject_pods [] target freeze p = p
  inject_pods (pod ∷ pods) target freeze p =
      inject_pods pods target freeze (inject_pod pod target freeze p)

  -- createTimeshift: `listed` is the answer of the Kubernetes API, `id` the new id, `now` the
  -- reading of the clock after the injections.
  unfoldable pub create_timeshift :
      Option (List Pod)
      → Bool
      → String
      → Time
      → String
      → String
      → Time
      → Duration
      → Bool
      → Controller
      → Result Timeshift × Controller
  create_timeshift none flush_ok id now ns sel target ttl freeze c = (err list_failed, c)
  create_timeshift (some []) flush_ok id now ns sel target ttl freeze c = (err not_found_error, c)
  create_timeshift (some (pod ∷ pods)) flush_ok id now ns sel target ttl freeze c =
      elim (check_conflicts c.timeshifts ns (pod ∷ pods)) [
        | some e ↦ (err e, c)
        | none ↦
            finish_create flush_ok id now ns sel target ttl freeze
              (inject_pods (pod ∷ pods) target freeze
                (record { handles = []; calls = c.calls; met = c.met }))
              c
      ]
