-- ===== src/Controller/Invariant/Kept.antt =====
-- The invariant of the controller (cmd/controller/controller.go, watcher.go) through each of its steps.
use epochd.Base.{
  Option-cases, Bool-cases, inl, inr, ℕ, ◌+◌, ◌≡◌, refl, sym, ap, ◌∙◌, String, Bool, true, false,
  not, Option, none, some, List, [], ◌∷◌, if◌then◌else◌, arith, length, keep, some_pass, All,
}
use epochd.Base.Int.{ℤ, pos, int_laws}
use epochd.Clock.{Time, Duration}
use epochd.Controller.{
  ContainerHandle, Timeshift, Pod, Agents, Timeshifts, Controller, effective_time, persist,
}
use epochd.Controller.Registry.{lookup, HasUniqueKeys}
use epochd.Controller.Registry.Laws.{
  remove-HasUniqueKeys, keep-HasUniqueKeys, length-remove-none, length-keep, remove-All, keep-All,
  lookup-All,
}
use epochd.Controller.Create.{
  check_conflicts, finish_create, inject_pod, Progress, new_timeshift, register, create_timeshift,
}
use epochd.Controller.Update.{retarget, update_timeshift, advance_timeshift}
use epochd.Controller.Remove.{drop_active, delete_timeshift, is_expired, expire_all, sweep_expired}
use epochd.Controller.Remove.Deleted.{persist_same}
use epochd.Controller.Watch.{adopt, reinject_pod, reinject_pods, is_matched, handle_pod_event}
use epochd.Controller.Invariant.{
  Step, created, updated, advanced, deleted, swept, watched, Steps, done, followed, IsConsistent,
  IsWellFormed,
}
use epochd.Controller.Invariant.Registry.{
  persist-IsWellFormed, insert_new-IsRegistry, insert_old-IsRegistry, remove-IsRegistry,
}
use epochd.Controller.Invariant.Gauge.{
  inject_containers-active, inject_pods-active, send_all-active,
}

pub new_timeshift-IsConsistent :
    (id ns sel : String) (target : Time) (ttl : Duration) (freeze : Bool) (now : Time)
    (hs : List ContainerHandle)
    → IsConsistent (id, new_timeshift id ns sel target ttl freeze now hs)
unfolding new_timeshift
new_timeshift-IsConsistent id ns sel target ttl freeze now hs = record {
  named = refl;
  frozen_offset = λ e. rw e refl;
  advancing_at = λ e. rw e refl;
}

finish_create-IsWellFormed :
    (flush_ok : Bool) (id : String) (now : Time) (ns sel : String) (target : Time) (ttl : Duration)
    (freeze : Bool) (p : Progress) (c : Controller) (hs : List ContainerHandle)
    → p.handles ≡ hs
    → p.met.active ≡ c.met.active
    → lookup id c.timeshifts ≡ none
    → IsWellFormed c
    → IsWellFormed (finish_create flush_ok id now ns sel target ttl freeze p c).1
unfolding finish_create register
finish_create-IsWellFormed flush_ok id now ns sel target ttl freeze p c [] e same fresh w =
    rw (e, finish_create) (rw same w)
finish_create-IsWellFormed flush_ok id now ns sel target ttl freeze p c (h ∷ hs) e same fresh w =
    rw (e, finish_create)
      (persist-IsWellFormed flush_ok _ (
        insert_new-IsRegistry id _ c.timeshifts p.met.active fresh
          (new_timeshift-IsConsistent id ns sel target ttl freeze now (h ∷ hs)) (rw same w)))

module _ (agents : Agents) (flush_ok : Bool) where
  create_timeshift-IsWellFormed :
      (listed : Option (List Pod)) (id : String) (now : Time) (ns sel : String) (target : Time)
      (ttl : Duration) (freeze : Bool) (c : Controller)
      → lookup id c.timeshifts ≡ none
      → IsWellFormed c
      → IsWellFormed (create_timeshift agents listed flush_ok id now ns sel target ttl freeze c).1
  unfolding create_timeshift
  create_timeshift-IsWellFormed none id now ns sel target ttl freeze c fresh w = w
  create_timeshift-IsWellFormed (some []) id now ns sel target ttl freeze c fresh w = w
  create_timeshift-IsWellFormed (some (pod ∷ pods)) id now ns sel target ttl freeze c fresh w =
      elim (Option-cases (check_conflicts c.timeshifts ns (pod ∷ pods))) [
        | inr (e, found) ↦ rw (found, create_timeshift) w
        | inl clear ↦
            rw (clear, create_timeshift)
              (finish_create-IsWellFormed flush_ok id now ns sel target ttl freeze _ c _ refl
                (inject_pods-active agents (pod ∷ pods) target freeze _) fresh w)
      ]

  pub retarget-IsConsistent :
      (hs : List ContainerHandle) (us : List (ℕ × String)) (target : Time) (freeze : Bool)
      (now : Time) (id : String) (s : Timeshift)
      → IsConsistent (id, s)
      → IsConsistent (id, retarget hs us target freeze now s)
  unfolding retarget
  retarget-IsConsistent hs us target freeze now id s good = record {
    named = good.named;
    frozen_offset = λ e. rw e refl;
    advancing_at = λ e. rw e refl;
  }

  update_timeshift-IsWellFormed :
      (now : Time) (id : String) (target : Time) (freeze : Bool) (c : Controller)
      → IsWellFormed c
      → IsWellFormed (update_timeshift agents flush_ok now id target freeze c).1
  unfolding update_timeshift
  update_timeshift-IsWellFormed now id target freeze c w =
      elim (Option-cases (lookup id c.timeshifts)) [
        | inl gone ↦ rw (gone, update_timeshift) w
        | inr (s, there) ↦
            rw (there, update_timeshift)
              (persist-IsWellFormed flush_ok _ (
                rw (send_all-active agents target freeze 0 s.handles _) (
                  insert_old-IsRegistry id _ s c.timeshifts _ there
                    (retarget-IsConsistent _ _ target freeze now id s
                      (lookup-All IsConsistent id s _ there w.consistent))
                    w)))
      ]

  advance_timeshift-IsWellFormed :
      (now later : Time) (id : String) (delta : Duration) (freeze : Bool) (c : Controller)
      → IsWellFormed c
      → IsWellFormed (advance_timeshift agents flush_ok now later id delta freeze c).1
  unfolding advance_timeshift
  advance_timeshift-IsWellFormed now later id delta freeze c w =
      elim (Option-cases (lookup id c.timeshifts)) [
        | inl gone ↦ rw (gone, advance_timeshift) w
        | inr (s, there) ↦
            rw (there, advance_timeshift) (update_timeshift-IsWellFormed later id _ freeze c w)
      ]

delete_timeshift-IsWellFormed :
    (flush_ok : Bool) (id : String) (c : Controller)
    → IsWellFormed c
    → IsWellFormed (delete_timeshift flush_ok id c).1
unfolding delete_timeshift drop_active
delete_timeshift-IsWellFormed flush_ok id c w = elim (Option-cases (lookup id c.timeshifts)) [
  | inl gone ↦
      rw (gone, delete_timeshift)
        (record {
          unique = remove-HasUniqueKeys id c.timeshifts w.unique;
          counted = w.counted ∙ ap pos (sym (length-remove-none id c.timeshifts gone));
          consistent = remove-All IsConsistent id c.timeshifts w.consistent;
        })
  | inr (s, there) ↦
      rw (there, delete_timeshift)
        (persist-IsWellFormed flush_ok _ (remove-IsRegistry id s c.timeshifts _ there w))
]

-- The registry before the last loop of sweepExpired: the gauge still counts what expired.
record IsSweeping (expired m : Timeshifts) (active : ℤ) : Type 0 where
  unique : HasUniqueKeys m
  counted : active ≡ pos (length expired + length m)
  consistent : All IsConsistent m

expire_all-IsWellFormed :
    (expired : Timeshifts) (c : Controller)
    → IsSweeping expired c.timeshifts c.met.active
    → IsWellFormed (expire_all expired c)
unfolding expire_all drop_active
expire_all-IsWellFormed [] c w = record {
  unique = w.unique;
  counted = w.counted ∙ ap pos (omega arith);
  consistent = w.consistent;
}
expire_all-IsWellFormed ((id, s) ∷ rest) c w = expire_all-IsWellFormed rest _ (record {
  unique = w.unique;
  counted = rw w.counted (omega int_laws);
  consistent = w.consistent;
})

persist-IsSweeping :
    (b : Bool) (expired : Timeshifts) (c : Controller)
    → IsSweeping expired c.timeshifts c.met.active
    → IsSweeping expired (persist b c).timeshifts (persist b c).met.active
persist-IsSweeping b expired c w = let (shifts, met, _) = persist_same b c in rw (shifts, met) w

sweep_expired-IsWellFormed :
    (flush_ok : Bool) (now : Time) (c : Controller)
    → IsWellFormed c
    → IsWellFormed (sweep_expired flush_ok now c)
unfolding sweep_expired
sweep_expired-IsWellFormed flush_ok now c w =
    let left = record c { timeshifts = keep (λ e. not (is_expired now e)) c.timeshifts } in
    let ready : IsSweeping (keep (is_expired now) c.timeshifts) left.timeshifts left.met.active =
      record {
        unique = keep-HasUniqueKeys _ c.timeshifts w.unique;
        counted = w.counted ∙ ap pos (sym (length-keep (is_expired now) c.timeshifts));
        consistent = keep-All IsConsistent _ c.timeshifts w.consistent;
      } in
    elim (Bool-cases (some_pass (is_expired now) c.timeshifts)) [
      | inl any ↦ rw any (expire_all-IsWellFormed _ _ (persist-IsSweeping flush_ok _ left ready))
      | inr none_left ↦ rw none_left (expire_all-IsWellFormed _ _ ready)
    ]

adopt-IsWellFormed :
    (pod id : String) (p : Progress) (c : Controller) (hs : List ContainerHandle)
    (o : Option Timeshift)
    → p.handles ≡ hs
    → lookup id c.timeshifts ≡ o
    → p.met.active ≡ c.met.active
    → IsWellFormed c
    → IsWellFormed (adopt pod id p c)
unfolding adopt
adopt-IsWellFormed pod id p c [] o e f same w = rw (e, adopt) (rw same w)
adopt-IsWellFormed pod id p c (h ∷ hs) none e f same w = rw (e, f, adopt) (rw same w)
adopt-IsWellFormed pod id p c (h ∷ hs) (some s) e f same w =
    let good = lookup-All IsConsistent id s c.timeshifts f w.consistent in
    rw (e, f, adopt)
      (insert_old-IsRegistry id _ s c.timeshifts p.met.active f
        (record {
          named = good.named;
          frozen_offset = good.frozen_offset;
          advancing_at = good.advancing_at;
        })
        (rw same w))

module _ (agents : Agents) (now : Time) (pod : Pod) where
  reinject_pod-IsWellFormed :
      (e : String × Timeshift) (c : Controller)
      → IsWellFormed c
      → IsWellFormed (reinject_pod agents now pod e c)
  unfolding reinject_pod inject_pod
  reinject_pod-IsWellFormed (id, m) c w =
      adopt-IsWellFormed pod.name id _ c _ _ refl refl
        (inject_containers-active agents pod (effective_time m now) m.frozen pod.statuses _) w

  reinject_pods-IsWellFormed :
      (es : List (String × Timeshift)) (c : Controller)
      → IsWellFormed c
      → IsWellFormed (reinject_pods agents now pod es c)
  unfolding reinject_pods
  reinject_pods-IsWellFormed [] c w = w
  reinject_pods-IsWellFormed (e ∷ es) c w =
      reinject_pods-IsWellFormed es _ (reinject_pod-IsWellFormed e c w)

  handle_pod_event-IsWellFormed :
      (matches : String → List (String × String) → Bool) (c : Controller)
      → IsWellFormed c
      → IsWellFormed (handle_pod_event agents matches now pod c)
  unfolding handle_pod_event
  handle_pod_event-IsWellFormed matches c w =
      let shown = reinject_pods agents now pod (keep (is_matched matches pod) c.timeshifts) c in
      elim pod.is_running as (λ b. IsWellFormed (if b then shown else c)) [
        | true ↦ reinject_pods-IsWellFormed (keep (is_matched matches pod) c.timeshifts) c w
        | false ↦ w
      ]

Step-IsWellFormed : (c c' : Controller) → Step c c' → IsWellFormed c → IsWellFormed c'
Step-IsWellFormed c _ (created agents listed f id now ns sel target ttl freeze _ fresh) w =
    create_timeshift-IsWellFormed agents f listed id now ns sel target ttl freeze c fresh w
Step-IsWellFormed c _ (updated agents f now id target freeze _) w =
    update_timeshift-IsWellFormed agents f now id target freeze c w
Step-IsWellFormed c _ (advanced agents f now later id delta freeze _) w =
    advance_timeshift-IsWellFormed agents f now later id delta freeze c w
Step-IsWellFormed c _ (deleted f id _) w = delete_timeshift-IsWellFormed f id c w
Step-IsWellFormed c _ (swept f now _) w = sweep_expired-IsWellFormed f now c w
Step-IsWellFormed c _ (watched agents matches now pod _) w =
    handle_pod_event-IsWellFormed agents now pod matches c w

-- Any sequence of creates under unused ids, updates, advances, deletes, sweeps and pod events
-- keeps the invariant: no id stands twice in the registry, the gauge of active timeshifts equals
-- the size of the registry, and every timeshift stands under its own id with the time of the mode
-- it is not in reset.
pub Steps-IsWellFormed : (c c' : Controller) → Steps c c' → IsWellFormed c → IsWellFormed c'
Steps-IsWellFormed c _ (done _) w = w
Steps-IsWellFormed c c'' (followed _ c' _ s ss) w =
    Steps-IsWellFormed c' c'' ss (Step-IsWellFormed c c' s w)
