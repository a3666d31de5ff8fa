-- ===== src/Faketime/Tracker/Update.antt =====
-- The ChildTracker of pkg/faketime/faketime.go as its caller uses it: an update of the whole tree of
-- processes, and the loop that watches it until it is closed.
use epochd.Base.{
  ℕ, zero, suc, Bool, true, Option, none, some, List, [], ◌∷◌, ◌++◌, map, if◌then◌else◌,
}
use epochd.Clock.{Time, Duration, add}
use epochd.Procmem.{Env, Error, Errno, Result}
use epochd.Faketime.{effective_time}
use epochd.Faketime.Heap.{
  Heap, Action, set_time_action, freeze_action, reset_action, run_all, is_gone, remaining,
}
use epochd.Faketime.Tracker.{
  Tracker, Status, State, Reading, detach_all, interrupt_detach, wait_failed, children,
  tracked_pids, ask, handle_event,
}

-- delete(c.children, pid) for the children whose update found them gone; the results are in the order of
-- the children.
unfoldable pub drop_gone : List (ℕ × ℕ) → List (ℕ × Result Unit) → List (ℕ × ℕ)
unfolding is_gone
drop_gone [] results = []
drop_gone (c ∷ cs) [] = c ∷ cs
drop_gone (c ∷ cs) ((r, result) ∷ results) =
    let rest = drop_gone cs results in if is_gone result then rest else c ∷ rest

-- applyAll: the parent first, then the children; the errors that are left are joined.
unfoldable pub apply_all : Action → Tracker × Heap → List Error × Tracker × Heap
unfolding children drop_gone
apply_all act (ct, heap) =
    let (parent, heap') = run_all act (ct.handle ∷ []) heap in
    let (results, heap'') = run_all act (children ct) heap' in
    (
      remaining parent ++ remaining results,
      record ct { children = drop_gone ct.children results },
      heap'',
    )

module _ (env : ℕ → Env) (early now later : ℕ → Time) where
  -- SetTime
  unfoldable pub set_time : Time → Tracker × Heap → List Error × Tracker × Heap
  unfolding apply_all
  set_time target = apply_all (set_time_action env now later target)

  -- Freeze
  unfoldable pub freeze : Time → Tracker × Heap → List Error × Tracker × Heap
  unfolding apply_all
  freeze target = apply_all (freeze_action env target)

  -- Advance
  unfoldable pub advance : Duration → Tracker × Heap → List Error × Tracker × Heap
  unfolding set_time freeze
  advance d (ct, heap) =
      let h = heap.handles ct.handle in
      let target = add (effective_time h (early ct.handle)) d in
      let fixed = freeze target (ct, heap) in
      let moving = set_time target (ct, heap) in if h.frozen then fixed else moving

  -- Reset
  unfoldable pub reset : Tracker × Heap → List Error × Tracker × Heap
  unfolding apply_all
  reset = apply_all (reset_action env early now later)

  -- cleanup
  unfoldable pub cleanup : State → State
  unfolding children
  cleanup st =
      let (results, heap) =
        run_all (reset_action env early now later) (children st.tracker) st.heap in
      ask interrupt_detach
        (ask (detach_all (map (λ c. c.0) st.tracker.children)) (record st { heap = heap }))

-- Close, up to the wait for the loop, whose error it returns; `none` is the panic of a second close of
-- the channel.
unfoldable pub close : Tracker → Option Tracker
close ct = if ct.closed then none else some (record ct { closed = true })

-- WaitPIDNonBlocking: nothing yet, a status, or an error, of which ECHILD says that the process was reaped.
pub data Wait : Type 0 where
  nothing reaped : Wait
  status : Status → Wait
  refused : Errno → Wait

-- What the outside answers in a round of the loop, for each pid.
pub record Round : Type 0 where
  pub closed : Bool
  pub wait : ℕ → Wait
  pub reading : ℕ → Reading

module _ (env : ℕ → Env) where
  -- One poll of watchLoop.
  unfoldable pub poll : Round → ℕ → State → State
  unfolding handle_event
  poll round pid st = elim (round.wait pid) [
    | nothing ↦ st
    | reaped ↦ st
    | status s ↦ handle_event env (round.reading pid) pid s st
    | refused e ↦ record st { tracker = record st.tracker { loop_err = some (wait_failed e) } }
  ]

  unfoldable pub poll_all : Round → List ℕ → State → State
  unfolding poll
  poll_all round [] st = st
  poll_all round (pid ∷ pids) st = poll_all round pids (poll round pid st)

  -- watchLoop without its cleanup, for the rounds that the outside answers from `k` on; `fuel` bounds them.
  unfoldable pub watch : (ℕ → Round) → ℕ → ℕ → State → Option State
  unfolding poll_all tracked_pids
  watch rounds zero k st = none
  watch rounds (suc fuel) k st =
      let ps = tracked_pids st.tracker in
      let again = watch rounds fuel (suc k) (poll_all (rounds k) ps st) in
      if (rounds k).closed then some st else elim ps [ [] ↦ some st | p ∷ rest ↦ again ]
