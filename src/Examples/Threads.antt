-- ===== src/Examples/Threads.antt =====
-- The theorems on the interleavings of the controller's operations, at concrete values.
use epochd.Base.{◌≡◌, refl, true, some, [], ◌∷◌}
use epochd.Base.Int.{pos, ◌+ℤ◌}
use epochd.Controller.Registry.{lookup, insert}
use epochd.Controller.Create.{
  check_conflicts, conflicts, pod_conflicts, occupied_containers, occupied_from, occupy,
  container_key, new_timeshift,
}
use epochd.Controller.Threads.{
  CreateJob, UpdateJob, finished, flushing, idle, injecting, counting, encoding, uncounting, Shared,
  removed, delete_removes, System, turn, Steps, stay, go,
}
use epochd.Controller.Threads.Counted.{IsCounted, Steps-IsCounted}
use epochd.Controller.Threads.Races.{IsTrackedTwice, creates-overlap}
use epochd.Controller.Threads.Lost.{advancing, flush-forgets}
use epochd.Examples.{target, now}
use epochd.Examples.Control.{agents, tracked, shift, controller, pod}

abbrev shared : Shared
shared = record { ctl = controller; gone = [] }

abbrev job : CreateJob
job = record {
  namespace = "test";
  label_selector = "app=web";
  target = target;
  ttl = pos 60;
  freeze = true;
}

-- A thread that removed the timeshift and has yet to count it.
abbrev deleting : System
deleting = record { shared = removed "a" shift shared; threads = uncounting "a" ∷ [] }

Steps-IsCounted_example : IsCounted deleting.shared 0 1
unfolding lookup ◌+ℤ◌
Steps-IsCounted_example =
    Steps-IsCounted agents (record { shared = shared; threads = idle ∷ [] }) deleting
      (go _ _ _
        (turn [] [] idle (uncounting "a") shared (removed "a" shift shared)
          (delete_removes "a" shift refl))
        (stay _))
      (record {
        unique = (refl, tt);
        gauge = refl;
        consistent =
            (record { named = refl; frozen_offset = λ e. refl; advancing_at = λ e. cc }, tt);
      })

creates-overlap_example :
    (s : Shared) × Steps agents
      (record { shared = shared; threads = idle ∷ idle ∷ [] })
      (record { shared = s; threads = counting ∷ counting ∷ [] })
    × IsTrackedTwice "b" "c" "test" (("web-0", "app") ∷ []) s.ctl.timeshifts
unfolding lookup check_conflicts conflicts pod_conflicts occupied_containers occupied_from occupy
    container_key insert
creates-overlap_example =
    creates-overlap agents job job pod [] "b" "c" now now ("web-0", "app") [] shared
      (λ calls ip id t freeze. ("new", refl)) refl refl refl refl refl refl

-- The two advances of the example.
abbrev five : UpdateJob
five = advancing "a" target (pos 5)

abbrev nine : UpdateJob
nine = advancing "a" target (pos 9)

flush-forgets_example :
    (s1 : Shared) × Steps agents
      (record {
        shared = shared;
        threads = encoding finished ∷ injecting job [] (tracked ∷ []) ∷ [];
      })
      (record { shared = s1; threads = flushing controller.timeshifts finished ∷ idle ∷ [] })
    × (s1.ctl.saved ≡ some s1.ctl.timeshifts)
    × (lookup "b" s1.ctl.timeshifts
        ≡ some (new_timeshift "b" "test" "app=web" target (pos 60) true now (tracked ∷ [])))
    × (s2 : Shared) × Steps agents
        (record { shared = s1; threads = flushing controller.timeshifts finished ∷ idle ∷ [] })
        (record { shared = s2; threads = idle ∷ idle ∷ [] })
    × (s2.ctl.timeshifts ≡ s1.ctl.timeshifts)
    × (s2.ctl.saved ≡ some controller.timeshifts)
unfolding lookup
flush-forgets_example = flush-forgets agents job "b" now tracked [] shared refl refl
