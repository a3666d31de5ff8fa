-- ===== src/Faketime/Heap.antt =====
-- The handles of pkg/faketime/faketime.go as the session and the trackers share them, by reference, with the
-- processes of the system by pid; and the calls of a method on each of a list of handles.
pub mod Distinct
pub mod Survivors
use epochd.Base.{ℕ, suc, Bool, true, false, Option, none, some, List, [], ◌∷◌, ◌==◌, if◌then◌else◌}
use epochd.Clock.{Time}
use epochd.Procmem.{Env, Machine, Error, request_failed, Result, ok, err}
use epochd.Faketime.{Handle, Updated, set_time, freeze, reset}

-- The map of the children of a tracker, and the sets of pids.
module _ {ℓ} {V : Type ℓ} where
  unfoldable pub find : ℕ → List (ℕ × V) → Option V
  find k [] = none
  find k ((j, v) ∷ m) = let rest = find k m in if j == k then some v else rest

  unfoldable pub drop_key : ℕ → List (ℕ × V) → List (ℕ × V)
  drop_key k [] = []
  drop_key k ((j, v) ∷ m) = let rest = drop_key k m in if j == k then rest else (j, v) ∷ rest

  unfoldable pub put : ℕ → V → List (ℕ × V) → List (ℕ × V)
  unfolding drop_key
  put k v m = (k, v) ∷ drop_key k m

-- The next free reference is `next`.
pub record Heap : Type 0 where
  pub handles : ℕ → Handle
  pub next : ℕ
  pub machines : ℕ → Machine

abbrev pub store : {A : Type 0} → ℕ → A → (ℕ → A) → ℕ → A
store k a f j = if j == k then a else f j

-- A new handle, by its reference.
abbrev pub allocate : Handle → Heap → ℕ × Heap
allocate h heap =
    (heap.next, record heap { handles = store heap.next h heap.handles; next = suc heap.next })

abbrev pub set_machine : ℕ → Machine → Heap → Heap
set_machine pid s heap = record heap { machines = store pid s heap.machines }

-- A method of a handle, which may read the clock when it comes to the handle of a reference.
abbrev pub Action : Type 0
Action = ℕ → Handle → Machine → Updated

-- h.SetTime(target), h.Freeze(target) and h.Reset().
abbrev pub set_time_action : (ℕ → Env) → (ℕ → Time) → (ℕ → Time) → Time → Action
set_time_action env now later target r h s = set_time (env h.h.pid) h (now r) (later r) target s

abbrev pub freeze_action : (ℕ → Env) → Time → Action
freeze_action env target r h s = freeze (env h.h.pid) h target s

abbrev pub reset_action : (ℕ → Env) → (ℕ → Time) → (ℕ → Time) → (ℕ → Time) → Action
reset_action env early now later r h s = reset (env h.h.pid) h (early r) (now r) (later r) s

-- One call of fn.
unfoldable pub run_on : Action → ℕ → Heap → Result Unit × Heap
run_on act r heap =
    let h = heap.handles r in
    let u = act r h (heap.machines h.h.pid) in
    (
      u.result,
      record heap {
        handles = store r u.handle heap.handles;
        machines = store h.h.pid u.machine heap.machines;
      },
    )

-- The calls of fn on the handles, with the result of each; the goroutines work on different handles
-- of different processes, so that one order stands for all.
unfoldable pub run_all : Action → List ℕ → Heap → List (ℕ × Result Unit) × Heap
unfolding run_on
run_all act [] heap = ([], heap)
run_all act (r ∷ rs) heap =
    let (result, heap') = run_on act r heap in
    let (results, heap'') = run_all act rs heap' in ((r, result) ∷ results, heap'')

-- errors.Is(err, ESRCH), which is 3
unfoldable pub is_gone : Result Unit → Bool
is_gone (err (request_failed e)) = e == 3
is_gone _ = false

-- The errors that errors.Join gets once those of processes that are gone are cleared.
unfoldable pub remaining : List (ℕ × Result Unit) → List Error
unfolding is_gone
remaining [] = []
remaining ((r, ok _) ∷ results) = remaining results
remaining ((r, err e) ∷ results) =
    let rest = remaining results in if is_gone (err e) then rest else e ∷ rest

-- The handles whose process is gone.
unfoldable pub gone : List (ℕ × Result Unit) → List ℕ
unfolding is_gone
gone [] = []
gone ((r, result) ∷ results) = let rest = gone results in if is_gone result then r ∷ rest else rest
