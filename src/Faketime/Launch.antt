-- ===== src/Faketime/Launch.antt =====
-- The functions of pkg/faketime/faketime.go that put one process under fake time, with and without the tracking
-- of its children, and what a session says of itself.
use epochd.Base.{ℕ, ◌≡◌, refl, ◌∙◌, Bool, true, false, Option, none, some, length}
use epochd.Clock.{Time}
use epochd.Procmem.{Env, Machine, Error, Result, ok, err}
use epochd.Inject.Handle as Hook
use epochd.Inject.Sequence.{
  Target, inject_at_time, inject_frozen, inject_at_time_follow_child, inject_frozen_follow_child,
  inject_at_time_follow_child_keep_tracer, inject_frozen_follow_child_keep_tracer,
  inject_at_time_keep_tracer, inject_frozen_keep_tracer,
}
use epochd.Faketime.{Handle, new_advancing_handle, new_frozen_handle}
use epochd.Faketime.Heap.{Heap, allocate, set_machine}
use epochd.Faketime.Tracker.{Tracker, LoopError, new_child_tracker}
use epochd.Faketime.Session.{Session, effective_target}

-- What a function leaves: its result, the process, and whether it killed it.
pub record Launched (A : Type 0) : Type 0 where
  pub result : Result A
  pub machine : Machine
  pub killed : Bool

-- cmd.Process != nil, after an injection that began in the state `s` with the start of the command.
abbrev pub is_started : Env → Machine → Bool
is_started env s = elim (env.fails s.requests) [ none ↦ true | some _ ↦ false ]

abbrev pub with_handle :
    (Hook.Handle → Handle) → Bool → Result Hook.Handle × Machine → Launched Handle
with_handle wrap kill (ok h, s) = record { result = ok (wrap h); machine = s; killed = false }
with_handle wrap kill (err e, s) = record { result = err e; machine = s; killed = kill }

module _ (env : Env) (t : Target) (now later target : Time) (s : Machine) where
  -- Start: `now` is the reading of the clock in the injection, `later` that of time.Until.
  unfoldable pub start : Launched Handle
  start =
      with_handle (λ h. new_advancing_handle h later target) (is_started env s)
        (inject_at_time_follow_child env t now target s)

  -- StartFrozen
  unfoldable pub start_frozen : Launched Handle
  start_frozen =
      with_handle (λ h. new_frozen_handle h target) (is_started env s)
        (inject_frozen_follow_child env t target s)

  -- Attach
  unfoldable pub attach : Launched Handle
  attach =
      with_handle (λ h. new_advancing_handle h later target) false
        (inject_at_time env t now target s)

  -- AttachFrozen
  unfoldable pub attach_frozen : Launched Handle
  attach_frozen = with_handle (λ h. new_frozen_handle h target) false (inject_frozen env t target s)

-- A tracker on the heap, and whether the process was killed.
pub record Tracked : Type 0 where
  pub result : Result Tracker
  pub heap : Heap
  pub killed : Bool

abbrev pub with_tracker :
    ℕ → (Hook.Handle → Handle) → Bool → Result Hook.Handle × Machine → Heap → Tracked
with_tracker pid wrap kill (err e, s) heap = record {
  result = err e;
  heap = set_machine pid s heap;
  killed = kill;
}
with_tracker pid wrap kill (ok h, s) heap =
    let (r, heap') = allocate (wrap h) (set_machine pid s heap) in
    record { result = ok (new_child_tracker r pid); heap = heap'; killed = false }

module _ (env : Env) (t : Target) (now later target : Time) (heap : Heap) where
  -- AttachWithTracking
  unfoldable pub attach_with_tracking : Tracked
  attach_with_tracking =
      with_tracker t.pid (λ h. new_advancing_handle h later target) false
        (inject_at_time_keep_tracer env t now target (heap.machines t.pid)) heap

  -- AttachFrozenWithTracking
  unfoldable pub attach_frozen_with_tracking : Tracked
  attach_frozen_with_tracking =
      with_tracker t.pid (λ h. new_frozen_handle h target) false
        (inject_frozen_keep_tracer env t target (heap.machines t.pid)) heap

  -- StartWithTracking
  unfoldable pub start_with_tracking : Tracked
  start_with_tracking =
      with_tracker t.pid (λ h. new_advancing_handle h later target)
        (is_started env (heap.machines t.pid))
        (inject_at_time_follow_child_keep_tracer env t now target (heap.machines t.pid)) heap

  -- StartFrozenWithTracking
  unfoldable pub start_frozen_with_tracking : Tracked
  start_frozen_with_tracking =
      with_tracker t.pid (λ h. new_frozen_handle h target) (is_started env (heap.machines t.pid))
        (inject_frozen_follow_child_keep_tracer env t target (heap.machines t.pid)) heap

-- Err of the ChildTracker
unfoldable pub tracker_err : Tracker → Option LoopError
tracker_err ct = ct.loop_err

-- IsFrozen, EffectiveTime and Len of the Session
unfoldable pub is_frozen : Session → Bool
is_frozen s = s.frozen

unfoldable pub session_time : Session → Time → Time
unfolding effective_target
session_time s now = effective_target s now

unfoldable pub len : Session → ℕ
len s = length s.handles

with_handle-killed :
    (wrap : Hook.Handle → Handle) (kill : Bool) (r : Result Hook.Handle × Machine) (e : Error)
    → (with_handle wrap kill r).result ≡ err e
    → (with_handle wrap kill r).killed ≡ kill
with_handle-killed wrap kill (ok h, s) e failed = cc
with_handle-killed wrap kill (err x, s) e failed = refl

-- A Start that fails after the command was started has killed it, in either mode.
start-killed :
    (env : Env) (t : Target) (now later target : Time) (s : Machine) (e e' : Error)
    → env.fails s.requests ≡ none
    → (start env t now later target s).result ≡ err e
    → (start_frozen env t now later target s).result ≡ err e'
    → ((start env t now later target s).killed ≡ true)
      × ((start_frozen env t now later target s).killed ≡ true)
unfolding start start_frozen
start-killed env t now later target s e e' granted failed failed' = (
  with_handle-killed _ _ (inject_at_time_follow_child env t now target s) e failed
      ∙ rw (granted, is_started) refl,
  with_handle-killed _ _ (inject_frozen_follow_child env t target s) e' failed'
      ∙ rw (granted, is_started) refl,
)
