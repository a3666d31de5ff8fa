-- ===== src/Faketime/Session.antt =====
-- The Session of pkg/faketime/faketime.go: a group of processes that share one clock.
pub mod Prune
pub mod Shared
pub mod Owned
pub mod Reached
use epochd.Base.{
  ℕ, suc, ◌+◌, String, Bool, true, false, not, Option, none, some, List, [], ◌∷◌, ◌++◌, map, ◌==◌,
  if◌then◌else◌, length, keep, some_pass,
}
use epochd.Base.Int.{pos}
use epochd.Clock.{Time, Duration, zero_time, add, sub}
use epochd.Procmem.{Env, Error, Result, ok, err, M}
use epochd.Inject.Handle as Hook
use epochd.Inject.Sequence.{
  Target, inject_at_time, inject_frozen, inject_at_time_follow_child, inject_frozen_follow_child,
  inject_at_time_keep_tracer, inject_frozen_keep_tracer, inject_at_time_follow_child_keep_tracer,
  inject_frozen_follow_child_keep_tracer,
}
use epochd.Faketime.{new_advancing_handle, new_frozen_handle}
use epochd.Faketime.Heap.{
  Heap, Action, set_time_action, freeze_action, run_all, is_gone, remaining, gone, allocate,
  set_machine,
}
use epochd.Faketime.Tracker.{Tracker, new_child_tracker, children}
use epochd.Faketime.Tracker.Update.{close}

-- Session; the filters decide by the path of an executable.
pub record Session : Type 0 where
  pub handles : List ℕ
  pub cmds : List String
  pub offset : Duration
  pub frozen_at : Time
  pub frozen : Bool
  pub tracking : Bool
  pub tracking_filter : Option (String → Bool)
  pub fake_time_filter : Option (String → Bool)
  pub trackers : List Tracker

-- NewSession, at the reading `now` of the clock, with what the options set.
unfoldable pub new_session :
    Time → Time → Bool → Option (String → Bool) → Option (String → Bool) → Session
new_session now target tracking tracking_filter fake_time_filter = record {
  handles = [];
  cmds = [];
  offset = sub target now;
  frozen_at = zero_time;
  frozen = false;
  tracking = tracking;
  tracking_filter = tracking_filter;
  fake_time_filter = fake_time_filter;
  trackers = [];
}

-- effectiveTarget, at the reading `now` of the clock
unfoldable pub effective_target : Session → Time → Time
effective_target s now = if s.frozen then s.frozen_at else add now s.offset

unfoldable pub filtered : Option (String → Bool) → Bool → String → Bool
filtered none other path = other
filtered (some f) other path = f path

-- The end of Start and of Attach: the handle, and a tracker where its children are tracked.
unfoldable pub join : Bool → Time → Time → ℕ → Hook.Handle → Session × Heap → Session × Heap
unfolding new_child_tracker
join tracking target later pid h (s, heap) =
    let shown =
      if s.frozen then new_frozen_handle h target else new_advancing_handle h later target in
    let (r, heap') = allocate shown heap in
    (
      record s {
        handles = s.handles ++ r ∷ [];
        trackers = if tracking then s.trackers ++ new_child_tracker r pid ∷ [] else s.trackers;
      },
      heap',
    )

-- What an injection leaves of the session: the error, or the new handle.
unfoldable pub add_process :
    Bool → Time → Time → ℕ → M Hook.Handle → Session × Heap → Result Unit × Session × Heap
unfolding join
add_process tracking target later pid injection (s, heap) =
    let (r, machine) = injection (heap.machines pid) in
    let heap' = set_machine pid machine heap in
    elim r [
      | err e ↦ (err e, s, heap')
      | ok h ↦ let (s', heap'') = join tracking target later pid h (s, heap') in (ok tt, s', heap'')
    ]

module _ (env : ℕ → Env) (early now later : Time) (t : Target) (path : String) where
  -- The injection of Attach: by the mode, and with or without its tracer kept.
  unfoldable pub attach_injection : Bool → Bool → Time → M Hook.Handle
  attach_injection tracking frozen target =
      let e = env t.pid in
      if tracking
      then (if frozen
          then inject_frozen_keep_tracer e t target
          else inject_at_time_keep_tracer e t now target)
      else (if frozen then inject_frozen e t target else inject_at_time e t now target)

  -- The injection of Start.
  unfoldable pub start_injection : Bool → Bool → Time → M Hook.Handle
  start_injection tracking frozen target =
      let e = env t.pid in
      if tracking
      then (if frozen
          then inject_frozen_follow_child_keep_tracer e t target
          else inject_at_time_follow_child_keep_tracer e t now target)
      else (if frozen
          then inject_frozen_follow_child e t target
          else inject_at_time_follow_child e t now target)

  -- Session.Attach: `path` is the executable of the process.
  unfoldable pub attach : Session × Heap → Result Unit × Session × Heap
  unfolding filtered effective_target add_process attach_injection
  attach (s, heap) =
      let target = effective_target s early in
      let tracking = filtered s.tracking_filter s.tracking path in
      let added =
        add_process tracking target later t.pid (attach_injection tracking s.frozen target)
          (s, heap) in
      if filtered s.fake_time_filter true path then added else (ok tt, s, heap)

  -- Session.Start: `plain` is what cmd.Start answers without an injection.
  unfoldable pub start : Result Unit → Session × Heap → Result Unit × Session × Heap
  unfolding filtered effective_target add_process start_injection
  start plain (s, heap) =
      let target = effective_target s early in
      let tracking = filtered s.tracking_filter s.tracking path in
      let started : Session = record s { cmds = s.cmds ++ path ∷ [] } in
      let (r, s', heap') =
        add_process tracking target later t.pid (start_injection tracking s.frozen target)
          (s, heap) in
      let added : Result Unit × Session × Heap = elim r [
        | err e ↦ (err e, s', heap')
        | ok _ ↦ (ok tt, record s' { cmds = s.cmds ++ path ∷ [] }, heap')
      ] in
      let unfaked : Result Unit × Session × Heap = elim plain [
        | err e ↦ (err e, s, heap)
        | ok _ ↦ (ok tt, started, heap)
      ] in
      if filtered s.fake_time_filter true path then added else unfaked

-- The references of the children of all trackers.
unfoldable pub all_children : List Tracker → List ℕ
unfolding children
all_children [] = []
all_children (ct ∷ cts) = children ct ++ all_children cts

-- What applyAll leaves: the results of the session's own handles and of the trackers' children, and the
-- errors that it joins.
pub record Applied : Type 0 where
  pub primary : List (ℕ × Result Unit)
  pub extra : List (ℕ × Result Unit)
  pub errors : List Error
  pub session : Session
  pub heap : Heap

-- applyAll: `commit` is its updateState.
unfoldable pub apply_all : Action → (Session → Session) → Session → Heap → Applied
unfolding all_children
apply_all act commit s heap =
    let (primary, heap') = run_all act s.handles heap in
    let (extra, heap'') = run_all act (all_children s.trackers) heap' in
    let dead = gone primary in
    let live : Session = record s {
      handles = keep (λ r. not (some_pass (λ d. d == r) dead)) s.handles;
    } in
    let errors = remaining primary ++ remaining extra in
    record {
      primary = primary;
      extra = extra;
      errors = errors;
      session = elim errors [ [] ↦ commit live | e ∷ es ↦ live ];
      heap = heap'';
    }

-- The two forms of updateState, that of SetTime at the reading `last` of the clock.
abbrev pub moved : Time → Time → Session → Session
moved last target s = record s { offset = sub target last; frozen_at = zero_time; frozen = false }

abbrev pub stopped_at : Time → Session → Session
stopped_at target s = record s { frozen_at = target; offset = pos 0; frozen = true }

module _ (env : ℕ → Env) (now later : ℕ → Time) where
  -- Session.SetTime: `last` is the reading of the clock in updateState.
  unfoldable pub set_time : Time → Time → Session → Heap → Applied
  unfolding apply_all
  set_time last target = apply_all (set_time_action env now later target) (moved last target)

  -- Session.Freeze
  unfoldable pub freeze : Time → Session → Heap → Applied
  unfolding apply_all
  freeze target = apply_all (freeze_action env target) (stopped_at target)

  -- Session.Advance: `first` is its own reading of the clock.
  unfoldable pub advance : Time → Time → Duration → Session → Heap → Applied
  unfolding set_time freeze effective_target
  advance first last d s heap =
      let target = add (effective_target s first) d in
      let fixed = freeze target s heap in
      let moving = set_time last target s heap in if s.frozen then fixed else moving

  -- Session.Reset
  unfoldable pub reset : Time → Time → Session → Heap → Applied
  unfolding set_time
  reset first last = set_time last first
