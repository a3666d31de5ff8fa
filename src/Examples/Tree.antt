-- ===== src/Examples/Tree.antt =====
-- The theorem on the child tracker, at concrete values.
use epochd.Base.{true, some, []}
use epochd.Base.Int.{pos}
use epochd.Faketime as Fake
use epochd.Faketime.Heap as Heap
use epochd.Faketime.Heap.{run_all, run_on, remaining}
use epochd.Faketime.Tracker.{State, Reading, stopped, new_child_tracker, handle_event}
use epochd.Faketime.Tracker.Resumed.{IsAnswered, handle_event-IsAnswered}
use epochd.Examples.Process.{unreadable}
use epochd.Examples.{process, granting, handle, target, now}

abbrev fake : Fake.Handle
fake = record { h = handle; offset = pos 0; frozen_at = target; frozen = true }

abbrev pub heap : Heap.Heap
heap = record { handles = λ r. fake; next = 2; machines = λ pid. process }

-- The program of the process after an exec has no vDSO that can be located.
abbrev pub reading : Reading
reading = record { event_msg = some 8; program = unreadable; early = now; late = now }

abbrev pub tracked : State
tracked = record { tracker = new_child_tracker 0 7; heap = heap; requests = [] }

handle_event-IsAnswered_example :
    IsAnswered
      (stopped 5 1)
      7
      tracked
      (handle_event (λ pid. granting) reading 7 (stopped 5 1) tracked)
handle_event-IsAnswered_example =
    handle_event-IsAnswered (λ pid. granting) reading 7 (stopped 5 1) tracked
