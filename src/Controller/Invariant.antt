-- ===== src/Controller/Invariant.antt =====
-- The steps of the controller (cmd/controller/controller.go, watcher.go) as a relation, and the
-- invariant of its registry and its gauge.
pub mod Registry
pub mod Gauge
pub mod Kept
use epochd.Base.{
  ℕ, suc, ◌+◌, ◌≡◌, refl, sym, ap, ◌∙◌, String, Bool, true, false, not, Option, none, some, List,
  [], ◌∷◌, if◌then◌else◌, arith, length, keep, some_pass, All,
}
use epochd.Base.Int.{ℤ, pos, ◌+ℤ◌, ◌-ℤ◌, int_laws}
use epochd.Clock.{Time, Duration, zero_time}
use epochd.Controller.{
  ContainerHandle, ContainerStatus, Timeshift, Pod, Agents, Metrics, Timeshifts, Controller, Error,
  Result, ok, err, persist,
}
use epochd.Controller.Registry.{
  lookup, insert, remove, HasUniqueKeys, length-insert_new, length-insert_old,
}
use epochd.Controller.Registry.Laws.{
  insert-HasUniqueKeys, remove-HasUniqueKeys, keep-HasUniqueKeys, length-remove-none,
  length-remove-some, length-keep, insert-All, remove-All, keep-All, lookup-All,
}
use epochd.Controller.Create.{
  check_conflicts, inject_container, inject_containers, inject_pod, inject_pods, Progress,
  new_timeshift, register, create_timeshift,
}
use epochd.Controller.Update.{
  Sent, reinject, send, send_all, retarget, update_timeshift, advance_timeshift, advanced_target,
}
use epochd.Controller.Remove.{drop_active, delete_timeshift, is_expired, expire_all, sweep_expired}
use epochd.Controller.Remove.Deleted.{persist_same}
use epochd.Controller.Watch.{reinject_pod, reinject_pods, is_matched, handle_pod_event}

-- One step: an operation that runs to its end. The id of a new timeshift is not in use.
pub data Step : Controller → Controller → Type 0 where
  created :
      (agents : Agents) (listed : Option (List Pod)) (flush_ok : Bool) (id : String) (now : Time)
      (ns sel : String) (target : Time) (ttl : Duration) (freeze : Bool) (c : Controller)
      → lookup id c.timeshifts ≡ none
      → Step c (create_timeshift agents listed flush_ok id now ns sel target ttl freeze c).1
  updated :
      (agents : Agents) (flush_ok : Bool) (now : Time) (id : String) (target : Time) (freeze : Bool)
      (c : Controller)
      → Step c (update_timeshift agents flush_ok now id target freeze c).1
  advanced :
      (agents : Agents) (flush_ok : Bool) (now later : Time) (id : String) (delta : Duration)
      (freeze : Bool) (c : Controller)
      → Step c (advance_timeshift agents flush_ok now later id delta freeze c).1
  deleted :
      (flush_ok : Bool) (id : String) (c : Controller) → Step c (delete_timeshift flush_ok id c).1
  swept : (flush_ok : Bool) (now : Time) (c : Controller) → Step c (sweep_expired flush_ok now c)
  watched :
      (agents : Agents) (matches : String → List (String × String) → Bool) (now : Time) (pod : Pod)
      (c : Controller)
      → Step c (handle_pod_event agents matches now pod c)

pub data Steps : Controller → Controller → Type 0 where
  done : (c : Controller) → Steps c c
  followed : (c c' c'' : Controller) → Step c c' → Steps c' c'' → Steps c c''

-- A timeshift stands under its own id, and the time of the mode it is not in is reset.
pub record IsConsistent (e : String × Timeshift) : Type 0 where
  pub named : e.1.id ≡ e.0
  pub frozen_offset : e.1.frozen ≡ true → e.1.offset ≡ pos 0
  pub advancing_at : e.1.frozen ≡ false → e.1.frozen_at ≡ zero_time

-- Of a registry and the reading of its gauge.
pub record IsRegistry (m : Timeshifts) (active : ℤ) : Type 0 where
  pub unique : HasUniqueKeys m
  pub counted : active ≡ pos (length m)
  pub consistent : All IsConsistent m

abbrev pub IsWellFormed : Controller → Type 0
IsWellFormed c = IsRegistry c.timeshifts c.met.active
