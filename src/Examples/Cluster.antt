-- ===== src/Examples/Cluster.antt =====
-- The theorem on the update of a timeshift at its agents, at concrete values.
use epochd.Base.{refl, true, none, [], ◌∷◌, All}
use epochd.Agent.{HandleEntry, lookup_handle}
use epochd.Controller.Registry.{lookup}
use epochd.Controller.Update.{update_timeshift}
use epochd.Cluster.{Fleet, served, served_from, agents_of}
use epochd.Cluster.Pool.{IsReached}
use epochd.Cluster.Reaches.{update_timeshift-IsReached}
use epochd.Examples.{process, granting, handle, target, now}
use epochd.Examples.Control.{shift, controller}

abbrev entry : HandleEntry
entry = record { handle = handle; last_target = now; container_id = "docker://1" }

-- Every node holds the handle of the tracked container.
abbrev fleet : Fleet
fleet = record {
  env = λ ip pid. granting;
  servers = λ ip. record { handles = ("old", entry) ∷ []; machines = λ pid. process };
  connects = λ ip. true;
  resolve = λ calls ip container. none;
  new_id = λ calls. "new";
  clock = λ calls. now;
  later = λ calls. now;
}

update_timeshift-IsReached_example :
    All
      (IsReached fleet target true (served fleet []) (
        served fleet
          (update_timeshift (agents_of fleet) true now "a" target true controller).1.calls))
      shift.handles
unfolding lookup lookup_handle served served_from
update_timeshift-IsReached_example =
    update_timeshift-IsReached fleet target true true now "a" shift controller refl
      ((entry, refl), tt) (tt, tt)
