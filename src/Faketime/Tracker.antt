-- ===== src/Faketime/Tracker.antt =====
-- The ChildTracker of pkg/faketime/faketime.go: the events of the traced processes, the handles of their
-- children, and the injection after an exec (pkg/inject/inject.go).
pub mod Update
pub mod Resumed
pub mod Ends
use epochd.Base.{
  ℕ, Bool, true, false, Option, none, some, List, [], ◌∷◌, ◌++◌, map, ◌==◌, ◌&&◌, ◌||◌,
  if◌then◌else◌,
}
use epochd.Base.Int.{ℤ, pos}
use epochd.Clock.{Time, unix, nanosecond}
use epochd.Trampoline.{mask_enabled, mask_frozen}
use epochd.Procmem.{Env, Machine, Error, Errno, Result, ok, err, M}
use epochd.Inject.Handle as Hook
use epochd.Inject.Handle.{child_handle, diff_sec_nsec}
use epochd.Inject.Sequence.{Target, locate_and_inject}
use epochd.Faketime.{Handle, new_advancing_handle, new_frozen_handle, effective_time}
use epochd.Faketime.Heap.{Heap, find, put, drop_key, store, allocate, set_machine}

pub data LoopError : Type 0 where
  parent_exited : ℕ → LoopError
  wait_failed : Errno → LoopError
  reinject_failed : ℕ → Error → LoopError

-- ChildTracker: the parent and the children by the references of their handles; `closed` is whether its
-- channel done is closed.
pub record Tracker : Type 0 where
  pub handle : ℕ
  pub parent_pid : ℕ
  pub parent_gone : Bool
  pub children : List (ℕ × ℕ)
  pub pending_stop : List (ℕ × Bool)
  pub loop_err : Option LoopError
  pub closed : Bool

-- The requests that the loop makes of its Tracer: ContPID with its signal, and the others.
pub data Request : Type 0 where
  cont_pid : ℕ → ℕ → Request
  set_options_pid get_event_msg_pid : ℕ → Request
  detach_all : List ℕ → Request
  interrupt_detach : Request

-- What wait4 says of a process; a stop has its signal and its ptrace event.
pub data Status : Type 0 where
  exited signaled continued : Status
  stopped : ℕ → ℕ → Status

pub record State : Type 0 where
  pub tracker : Tracker
  pub heap : Heap
  pub requests : List Request

-- What the loop reads from the outside at an event: the answer of PTRACE_GETEVENTMSG, the program after
-- an exec, and the clock, in the order of the readings.
pub record Reading : Type 0 where
  pub event_msg : Option ℕ
  pub program : Target
  pub early : Time
  pub late : Time

abbrev pub sigtrap : ℕ
sigtrap = 5

-- PTRACE_EVENT_FORK and PTRACE_EVENT_VFORK
unfoldable pub is_fork : ℕ → ℕ → Bool
is_fork sig event = (sig == sigtrap) && ((event == 1) || (event == 2))

-- PTRACE_EVENT_EXEC
unfoldable pub is_exec : ℕ → ℕ → Bool
is_exec sig event = (sig == sigtrap) && (event == 4)

-- newChildTracker
unfoldable pub new_child_tracker : ℕ → ℕ → Tracker
new_child_tracker handle pid = record {
  handle = handle;
  parent_pid = pid;
  parent_gone = false;
  children = [];
  pending_stop = [];
  loop_err = none;
  closed = false;
}

-- PIDs
unfoldable pub pids : Tracker → List ℕ
pids ct = ct.parent_pid ∷ map (λ c. c.0) ct.children

-- Children
unfoldable pub children : Tracker → List ℕ
children ct = map (λ c. c.1) ct.children

-- trackedPIDs
unfoldable pub tracked_pids : Tracker → List ℕ
tracked_pids ct =
    let rest = map (λ c. c.0) ct.children in if ct.parent_gone then rest else ct.parent_pid ∷ rest

-- if c.loopErr == nil { c.loopErr = ... }
abbrev pub report : LoopError → Tracker → Tracker
report e ct = elim ct.loop_err [ none ↦ record ct { loop_err = some e } | some _ ↦ ct ]

abbrev pub ask : Request → State → State
ask q st = record st { requests = st.requests ++ q ∷ [] }

module _ (env : Env) (t : Target) where
  -- ReInjectAtTimeAfterExec and ReInjectFrozenAfterExec: reInjectAfterExec runs vdso.Locate and
  -- injectWithTracer on the process that called exec.
  unfoldable pub reinject_at_time_after_exec : Time → Time → M Hook.Handle
  reinject_at_time_after_exec now target =
      let (sec, nsec) = diff_sec_nsec target now in locate_and_inject env t sec nsec mask_enabled

  unfoldable pub reinject_frozen_after_exec : Time → M Hook.Handle
  reinject_frozen_after_exec target =
      locate_and_inject env t (unix target) (pos (nanosecond target)) mask_frozen

-- The end of a process in handleEvent.
unfoldable pub handle_exit : ℕ → Tracker → Tracker
handle_exit pid ct =
    let left = record ct {
      children = drop_key pid ct.children;
      pending_stop = drop_key pid ct.pending_stop;
    } in
    if pid == ct.parent_pid
    then report (parent_exited pid) (record left { parent_gone = true })
    else left

-- The handle of the process that forked.
unfoldable pub forking_handle : ℕ → Tracker → ℕ
forking_handle pid ct =
    let known : ℕ = elim (find pid ct.children) [ none ↦ ct.handle | some r ↦ r ] in
    if pid == ct.parent_pid then ct.handle else known

-- The handle of a new child.
unfoldable pub forked_handle : Handle → ℕ → Time → Time → Handle
forked_handle parent child_pid early late =
    let child = child_handle parent.h child_pid in
    if parent.frozen
    then new_frozen_handle child parent.frozen_at
    else new_advancing_handle child late (effective_time parent early)

-- A fork event in handleEvent.
unfoldable pub handle_fork : Reading → ℕ → State → State
unfolding forking_handle forked_handle
handle_fork rd pid st =
    let asked = ask (get_event_msg_pid pid) st in
    elim rd.event_msg [
      | none ↦ ask (cont_pid pid 0) asked
      | some child_pid ↦
          let parent = st.heap.handles (forking_handle pid st.tracker) in
          let (r, heap) = allocate (forked_handle parent child_pid rd.early rd.late) st.heap in
          ask (cont_pid pid 0) (record asked {
            heap = heap;
            tracker = record st.tracker {
              children = put child_pid r st.tracker.children;
              pending_stop = put child_pid true st.tracker.pending_stop;
            };
          })
    ]

-- A stop without an event: the first one of a child, or a signal.
unfoldable pub handle_signal : ℕ → ℕ → State → State
handle_signal pid sig st =
    let first = record st {
      tracker = record st.tracker { pending_stop = drop_key pid st.tracker.pending_stop };
    } in
    elim (find pid st.tracker.pending_stop) [
      | some true ↦ ask (cont_pid pid 0) (ask (set_options_pid pid) first)
      | _ ↦ ask (cont_pid pid (if sig == sigtrap then 0 else sig)) st
    ]

module _ (env : ℕ → Env) (rd : Reading) (pid : ℕ) where
  -- handleExec, for the handle `r` of the process.
  unfoldable pub reinject : ℕ → State → State
  unfolding reinject_at_time_after_exec reinject_frozen_after_exec
  reinject r st =
      let h = st.heap.handles r in
      let target = effective_time h rd.early in
      let s = st.heap.machines pid in
      let fixed = reinject_frozen_after_exec (env pid) rd.program target s in
      let moving = reinject_at_time_after_exec (env pid) rd.program rd.late target s in
      let (result, s') = if h.frozen then fixed else moving in
      let heap = set_machine pid s' st.heap in
      elim result [
        | err e ↦
            ask (cont_pid pid 0)
              (record st { heap = heap; tracker = report (reinject_failed pid e) st.tracker })
        | ok new ↦ ask (cont_pid pid 0) (record st {
          heap = record heap { handles = store r (record h { h = new }) heap.handles };
        })
      ]

  -- handleExec
  unfoldable pub handle_exec : State → State
  unfolding reinject
  handle_exec st =
      let child : State = elim (find pid st.tracker.children) [
        | none ↦ ask (cont_pid pid 0) st
        | some r ↦ reinject r st
      ] in
      let parent = reinject st.tracker.handle st in
      if pid == st.tracker.parent_pid then parent else child

  -- handleEvent
  unfoldable pub handle_event : Status → State → State
  unfolding handle_exit handle_fork handle_exec handle_signal is_fork is_exec
  handle_event exited st = record st { tracker = handle_exit pid st.tracker }
  handle_event signaled st = record st { tracker = handle_exit pid st.tracker }
  handle_event continued st = st
  handle_event (stopped sig event) st =
      if is_fork sig event
      then handle_fork rd pid st
      else if is_exec sig event
      then handle_exec st
      else handle_signal pid sig st
