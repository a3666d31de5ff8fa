-- ===== src/Controller/Threads/Races.antt =====
-- Interleavings of two creates over the same pods (cmd/controller/controller.go).
use epochd.Base.{
  ◌≡◌, refl, sym, ap, ◌∙◌, String, Bool, false, none, some, List, [], ◌∷◌, ◌++◌, map, if◌then◌else◌,
  append_assoc, append-nil, str_eq, str_eq_iff, arith, Bool-cases, inl, inr,
}
use epochd.Clock.{Time}
use epochd.Controller.{ContainerHandle, ContainerStatus, Timeshift, Pod, Agents, Timeshifts}
use epochd.Controller.Registry.{lookup, insert, lookup-insert}
use epochd.Controller.Create.{
  check_conflicts, is_target, Progress, inject_container, inject_containers, inject_pod,
  inject_pods, new_timeshift,
}
use epochd.Controller.Threads.{
  CreateJob, Thread, idle, injecting, counting, Shared, containers, registered, injected,
  create_checks, create_registers, Steps,
}
use epochd.Controller.Threads.Alone.{Steps_trans, move, inject_pods-Steps}

-- The pod and the name of the container of a handle.
abbrev pub container_of : ContainerHandle → String × String
container_of h = (h.pod, h.container)

-- The containers of a pod that createTimeshift injects.
abbrev pub pod_targets : Pod → List ContainerStatus → List (String × String)
pod_targets pod [] = []
pod_targets pod (cs ∷ css) =
    let rest = pod_targets pod css in if is_target cs then (pod.name, cs.name) ∷ rest else rest

abbrev pub targets : List Pod → List (String × String)
targets [] = []
targets (pod ∷ pods) = pod_targets pod pod.statuses ++ targets pods

-- Every injection succeeds.
abbrev pub DoesAccept : Agents → Type 0
DoesAccept agents =
    (calls : List _) (ip id : String) (target : Time) (freeze : Bool)
    → (hid : String) × (agents.inject calls ip id target freeze ≡ some hid)

map-append : {A B : Type 0} (g : A → B) (xs ys : List A) → map g (xs ++ ys) ≡ map g xs ++ map g ys
map-append g [] ys = refl
map-append g (x ∷ xs) ys = ap (λ zs. g x ∷ zs) (map-append g xs ys)

module _ (agents : Agents) (accept : DoesAccept agents) (target : Time) (freeze : Bool) where
  inject_container-targets :
      (pod : Pod) (cs : ContainerStatus) (p : Progress)
      → map container_of (inject_container agents pod target freeze cs p).handles
        ≡ map container_of p.handles ++ (if is_target cs then (pod.name, cs.name) ∷ [] else [])
  unfolding inject_container
  inject_container-targets pod cs p = elim (Bool-cases (is_target cs)) [
    | inr skipped ↦ rw (skipped, inject_container) (sym (append-nil _))
    | inl taken ↦
        rw (taken, (accept p.calls pod.host_ip cs.container_id target freeze).1, inject_container)
          (map-append container_of p.handles _)
  ]

  inject_containers-targets :
      (pod : Pod) (css : List ContainerStatus) (p : Progress)
      → map container_of (inject_containers agents pod target freeze css p).handles
        ≡ map container_of p.handles ++ pod_targets pod css
  unfolding inject_containers
  inject_containers-targets pod [] p = sym (append-nil _)
  inject_containers-targets pod (cs ∷ css) p =
      inject_containers-targets pod css (inject_container agents pod target freeze cs p)
      ∙ ap (λ xs. xs ++ pod_targets pod css) (inject_container-targets pod cs p)
      ∙ append_assoc (map container_of p.handles) _ (pod_targets pod css)
      ∙ ap (λ xs. map container_of p.handles ++ xs) (ground arith)

  inject_pods-targets :
      (pods : List Pod) (p : Progress)
      → map container_of (inject_pods agents pods target freeze p).handles
        ≡ map container_of p.handles ++ targets pods
  unfolding inject_pods inject_pod
  inject_pods-targets [] p = sym (append-nil _)
  inject_pods-targets (pod ∷ pods) p =
      inject_pods-targets pods (inject_containers agents pod target freeze pod.statuses p)
      ∙ ap (λ xs. xs ++ targets pods) (inject_containers-targets pod pod.statuses p)
      ∙ append_assoc (map container_of p.handles) _ (targets pods)

registers :
    (agents : Agents) (before after : List Thread) (job : CreateJob) (id : String) (now : Time)
    (s : Shared) (hs : List ContainerHandle) (x : String × String) (xs : List (String × String))
    → map container_of hs ≡ x ∷ xs
    → lookup id s.ctl.timeshifts ≡ none
    → Steps agents
        (record { shared = s; threads = before ++ injecting job [] hs ∷ after })
        (record {
          shared =
              registered id
                (new_timeshift id job.namespace job.label_selector job.target job.ttl job.freeze now
                  hs)
                s;
          threads = before ++ counting ∷ after;
        })
registers agents before after job id now s [] x xs e fresh = ground arith
registers agents before after job id now s (h ∷ hs) x xs e fresh =
    move agents before after _ _ _ _ (create_registers job id now h hs fresh)

lookup_two :
    (id id' : String) (t t' : Timeshift) (m : Timeshifts)
    → str_eq id id' ≡ false
    → (lookup id (insert id' t' (insert id t m)) ≡ some t)
      × (lookup id' (insert id' t' (insert id t m)) ≡ some t')
lookup_two id id' t t' m apart = (
  lookup-insert id' id t' (insert id t m)
      ∙ ground
          (arith, str_eq_iff id id', str_eq_iff id' id, str_eq_iff id id, lookup-insert id id t m),
  lookup-insert id' id' t' (insert id t m) ∙ ground (arith, str_eq_iff id' id'),
)

-- Both ids stand in the registry, and the timeshifts there track the same containers of one namespace.
pub record IsTrackedTwice (id id' ns : String) (names : List (String × String)) (m : Timeshifts)
    : Type 0 where
  pub first : Timeshift
  pub second : Timeshift
  pub first_there : lookup id m ≡ some first
  pub second_there : lookup id' m ≡ some second
  pub first_namespace : first.namespace ≡ ns
  pub second_namespace : second.namespace ≡ ns
  pub first_tracks : map container_of first.handles ≡ names
  pub second_tracks : map container_of second.handles ≡ names

-- Two creates over the same pods of one namespace that both check for conflicts before either registers both succeed: from two
-- idle threads there is a run to a state in which both ids stand in the registry with timeshifts that track the
-- same containers of that namespace, namely all that the pods have to inject. This is for pods in which a create finds no
-- conflict at the start and at least one container is to be injected, agents that accept every injection, and two different ids
-- that are not in use.
pub creates-overlap :
    (agents : Agents) (job job' : CreateJob) (pod : Pod) (pods : List Pod) (id id' : String)
    (now now' : Time) (x : String × String) (xs : List (String × String)) (s : Shared)
    → DoesAccept agents
    → check_conflicts s.ctl.timeshifts job.namespace (pod ∷ pods) ≡ none
    → job'.namespace ≡ job.namespace
    → targets (pod ∷ pods) ≡ x ∷ xs
    → lookup id s.ctl.timeshifts ≡ none
    → lookup id' s.ctl.timeshifts ≡ none
    → str_eq id id' ≡ false
    → (s' : Shared) × Steps agents
        (record { shared = s; threads = idle ∷ idle ∷ [] })
        (record { shared = s'; threads = counting ∷ counting ∷ [] })
      × IsTrackedTwice id id' job.namespace (x ∷ xs) s'.ctl.timeshifts
unfolding new_timeshift
creates-overlap agents job job' pod pods id id' now now' x xs s accept clear same some_target fresh
      fresh' apart =
    let clear' : check_conflicts s.ctl.timeshifts job'.namespace (pod ∷ pods) ≡ none =
      rw same clear in
    let p =
      inject_pods agents (pod ∷ pods) job.target job.freeze
        (record { handles = []; calls = s.ctl.calls; met = s.ctl.met }) in
    let p' =
      inject_pods agents (pod ∷ pods) job'.target job'.freeze
        (record { handles = []; calls = p.calls; met = p.met }) in
    let tracked =
      inject_pods-targets agents accept job.target job.freeze (pod ∷ pods) _ ∙ some_target in
    let tracked' =
      inject_pods-targets agents accept job'.target job'.freeze (pod ∷ pods) _ ∙ some_target in
    let later = lookup-insert id id' _ s.ctl.timeshifts ∙ rw apart fresh' in
    (
      _,
      Steps_trans agents _ _ _
          (move agents [] (idle ∷ []) _ _ _ _ (create_checks job pod pods clear))
          (Steps_trans agents _ _ _
            (move agents (injecting job (containers (pod ∷ pods)) [] ∷ []) [] _ _ _ _
              (create_checks job' pod pods clear'))
            (Steps_trans agents _ _ _
              (inject_pods-Steps agents [] (injecting job' (containers (pod ∷ pods)) [] ∷ []) job
                (pod ∷ pods) s _)
              (Steps_trans agents _ _ _
                (inject_pods-Steps agents (injecting job [] p.handles ∷ []) [] job' (pod ∷ pods)
                  (injected s p) _)
                (Steps_trans agents _ _ _
                  (registers agents [] (injecting job' [] p'.handles ∷ []) job id now _ p.handles x
                    xs tracked fresh)
                  (registers agents (counting ∷ []) [] job' id' now' _ p'.handles x xs tracked'
                    later))))),
      record {
        first = _;
        second = _;
        first_there = (lookup_two id id' _ _ s.ctl.timeshifts apart).0;
        second_there = (lookup_two id id' _ _ s.ctl.timeshifts apart).1;
        first_namespace = refl;
        second_namespace = same;
        first_tracks = tracked;
        second_tracks = tracked';
      },
    )
