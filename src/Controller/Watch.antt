-- ===== src/Controller/Watch.antt =====
-- handlePodEvent and allContainersHandled of cmd/controller/watcher.go. Whether a selector matches
-- a pod's labels is a parameter: the Kubernetes package labels parses and decides it.
use epochd.Base.{
  String, Bool, true, false, not, ◌&&◌, none, some, List, [], ◌∷◌, ◌++◌, if◌then◌else◌, str_eq,
  keep, some_pass,
}
use epochd.Clock.{Time}
use epochd.Controller.{
  ContainerHandle, Timeshift, ContainerStatus, Pod, Agents, Controller, effective_time,
}
use epochd.Controller.Registry.{lookup, insert}
use epochd.Controller.Create.{Progress, inject_pod}

-- known[id], for the map that allContainersHandled builds.
abbrev pub is_known : String → List ContainerHandle → String → Bool
is_known pod handles id = some_pass (λ h. str_eq h.pod pod && str_eq h.container_id id) handles

-- allContainersHandled, for the name and the container statuses of a pod.
unfoldable pub all_containers_handled : List ContainerHandle → String → List ContainerStatus → Bool
all_containers_handled handles pod [] = true
all_containers_handled handles pod (cs ∷ css) =
    let rest = all_containers_handled handles pod css in
    if cs.running && not (is_known pod handles cs.container_id) then false else rest

module _ (matches : String → List (String × String) → Bool) where
  -- The test of the first loop of handlePodEvent; a selector that does not parse matches nothing.
  abbrev pub is_matched : Pod → String × Timeshift → Bool
  is_matched pod (id, s) =
      str_eq s.namespace pod.namespace
      && matches s.label_selector pod.labels
      && not (all_containers_handled s.handles pod.name pod.statuses)

-- The handles of a timeshift whose pod was injected again.
unfoldable pub replace_handles :
    String → List ContainerHandle → List ContainerHandle → List ContainerHandle
replace_handles pod old new = keep (λ h. not (str_eq h.pod pod)) old ++ new

-- What a round of the second loop of handlePodEvent does with the new handles of a pod.
unfoldable pub adopt : String → String → Progress → Controller → Controller
unfolding replace_handles
adopt pod id p c =
    let c' = record c { calls = p.calls; met = p.met } in
    elim p.handles [
      | [] ↦ c'
      | h ∷ hs ↦ elim (lookup id c.timeshifts) [
        | none ↦ c'
        | some s ↦ record c' {
          timeshifts =
              insert id (record s { handles = replace_handles pod s.handles (h ∷ hs) })
                c.timeshifts;
        }
      ]
    ]

module _ (agents : Agents) where
  -- One round, with the clock at `now`.
  unfoldable pub reinject_pod : Time → Pod → String × Timeshift → Controller → Controller
  unfolding adopt inject_pod
  reinject_pod now pod (id, m) c =
      adopt pod.name id
        (inject_pod agents pod (effective_time m now) m.frozen
          (record { handles = []; calls = c.calls; met = c.met }))
        c

  unfoldable pub reinject_pods : Time → Pod → List (String × Timeshift) → Controller → Controller
  unfolding reinject_pod
  reinject_pods now pod [] c = c
  reinject_pods now pod (m ∷ ms) c = reinject_pods now pod ms (reinject_pod now pod m c)

  -- handlePodEvent, its readings of the clock all at `now`.
  unfoldable pub handle_pod_event :
      (String → List (String × String) → Bool) → Time → Pod → Controller → Controller
  unfolding reinject_pods
  handle_pod_event matches now pod c =
      if pod.is_running
      then reinject_pods now pod (keep (is_matched matches pod) c.timeshifts) c
      else c
