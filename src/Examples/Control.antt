-- ===== src/Examples/Control.antt =====
-- The theorems on the controller and the agent, at concrete values.
use epochd.Base.{◌≡◌, refl, true, false, none, some, [], ◌∷◌, arith}
use epochd.Base.Int.{pos, ◌+ℤ◌, ◌-ℤ◌}
use epochd.Clock.{add}
use epochd.Controller.{
  ContainerHandle, Timeshift, Pod, not_found, Agents, Controller, effective_time,
}
use epochd.Controller.Registry.{lookup}
use epochd.Controller.Create.{create_timeshift}
use epochd.Controller.Create.Exclusive.{CreateOutcome, create_timeshift_outcome}
use epochd.Controller.Update.{Sent, update_timeshift, advance_timeshift, send_all, apply_updates}
use epochd.Controller.Update.Effective.{
  IsUpdate, update_timeshift-IsUpdate, advance_timeshift-IsUpdate, advance_timeshift-drops_frozen,
}
use epochd.Controller.Update.Reissued.{reissued_all, apply_updates-send_all}
use epochd.Controller.Remove.{delete_timeshift, sweep_expired}
use epochd.Controller.Remove.Deleted.{Lacks, DeleteOutcome, delete_timeshift_outcome}
use epochd.Controller.Remove.Swept.{IsSwept, lookup-sweep_expired}
use epochd.Controller.Invariant.{created, deleted, done, followed, IsWellFormed}
use epochd.Controller.Invariant.Kept.{Steps-IsWellFormed}
use epochd.Agent.{HandleEntry, Server}
use epochd.Examples.{process, handle, target, now}

-- Agents that lost every handle and grant every injection.
abbrev pub agents : Agents
agents = record {
  inject = λ calls ip id t freeze. some "new";
  set_time = λ calls ip hid t freeze. some not_found;
  reset = λ calls ip hid. none;
}

abbrev pub tracked : ContainerHandle
tracked = record {
  pod = "web-0";
  container = "app";
  node_ip = "10.0.0.1";
  container_id = "docker://1";
  agent_handle = "old";
}

abbrev pub shift : Timeshift
shift = record {
  id = "a";
  namespace = "prod";
  label_selector = "app=web";
  offset = pos 0;
  frozen_at = target;
  frozen = true;
  ttl = pos 60;
  expires_at = now +ℤ pos 60;
  created_at = now;
  handles = tracked ∷ [];
}

abbrev pub controller : Controller
controller = record {
  timeshifts = ("a", shift) ∷ [];
  met = record {
    active = pos 1;
    inject_success = 1;
    inject_error = 0;
    set_time_success = 0;
    set_time_error = 0;
    sweep_expired = 0;
  };
  calls = [];
  has_store = true;
  saved = none;
}

-- A second pod, in another namespace than the tracked one.
abbrev pub pod : Pod
pod = record {
  name = "web-0";
  namespace = "test";
  host_ip = "10.0.0.2";
  is_running = true;
  labels = [];
  statuses = record { name = "app"; container_id = "docker://2"; running = true } ∷ [];
}

create_timeshift_outcome_example : CreateOutcome "test" controller (
    create_timeshift agents
      (some (pod ∷ []))
      true
      "b"
      now
      "test"
      "app=web"
      target
      (pos 60)
      false
      controller)
create_timeshift_outcome_example =
    create_timeshift_outcome agents (some (pod ∷ [])) true "b" now "test" "app=web" target (pos 60)
      false controller

update_timeshift-IsUpdate_example :
    IsUpdate controller "a" false now target
      (update_timeshift agents true now "a" target false controller)
unfolding lookup ◌-ℤ◌
update_timeshift-IsUpdate_example =
    update_timeshift-IsUpdate agents true now "a" controller shift refl target false
      (record { low = omega arith; high = omega arith })

advance_timeshift-IsUpdate_example :
    IsUpdate controller "a" true now
      (add (effective_time shift now) (pos 9))
      (advance_timeshift agents true now now "a" (pos 9) true controller)
unfolding lookup ◌-ℤ◌ ◌+ℤ◌ effective_time
advance_timeshift-IsUpdate_example =
    advance_timeshift-IsUpdate agents true now "a" controller shift refl now (pos 9)
      (record { low = omega arith; high = omega arith })
      (record { low = omega arith; high = omega arith })

advance_timeshift-drops_frozen_example :
    IsUpdate controller "a" false now
      (add target (pos 9))
      (advance_timeshift agents true now now "a" (pos 9) false controller)
unfolding lookup ◌-ℤ◌ ◌+ℤ◌
advance_timeshift-drops_frozen_example =
    advance_timeshift-drops_frozen agents true now "a" controller shift refl refl now (pos 9)
      (record { low = omega arith; high = omega arith })

abbrev unsent : Sent
unsent = record { updates = []; calls = []; met = controller.met }

apply_updates-send_all_example :
    apply_updates
      (tracked ∷ [])
      (send_all agents target true 0 (tracked ∷ []) unsent).updates
      (tracked ∷ [])
    ≡ reissued_all agents target true [] (tracked ∷ [])
apply_updates-send_all_example =
    apply_updates-send_all agents target true (tracked ∷ []) unsent refl

delete_timeshift_outcome_example :
    Lacks "a" controller (delete_timeshift true "a" controller).1
    × DeleteOutcome "a" controller (some shift) (delete_timeshift true "a" controller)
unfolding lookup
delete_timeshift_outcome_example = delete_timeshift_outcome true "a" controller

lookup-sweep_expired_example :
    IsSwept
      (now +ℤ pos 61)
      (lookup "a" controller.timeshifts)
      (lookup "a" (sweep_expired true (now +ℤ pos 61) controller).timeshifts)
unfolding lookup
lookup-sweep_expired_example = lookup-sweep_expired true (now +ℤ pos 61) controller "a" (refl, tt)

-- A create of a second timeshift and the delete of the first.
abbrev grown : Controller
grown =
    (create_timeshift agents (some (pod ∷ [])) true "b" now "test" "app=web" target (pos 60) false
      controller).1

abbrev shrunk : Controller
shrunk = (delete_timeshift true "a" grown).1

Steps-IsWellFormed_example : IsWellFormed shrunk
unfolding lookup
Steps-IsWellFormed_example =
    Steps-IsWellFormed controller shrunk
      (followed controller grown shrunk
        (created agents (some (pod ∷ [])) true "b" now "test" "app=web" target (pos 60) false
          controller refl)
        (followed grown shrunk shrunk (deleted true "a" grown) (done shrunk)))
      (record {
        unique = (refl, tt);
        counted = refl;
        consistent = (
          record { named = refl; frozen_offset = λ e. refl; advancing_at = λ e. ground arith },
          tt,
        );
      })

abbrev entry : HandleEntry
entry = record { handle = handle; last_target = now; container_id = "docker://1" }

abbrev server : Server
server = record { handles = ("h", entry) ∷ []; machines = λ pid. process }
