-- ===== src/Ctl/Watch.antt =====
-- runWatchLoop of cmd/faketimectl/cmds_run.go: the events of the processes that `faketimectl run --track` follows.
pub mod Execs
pub mod Agrees
pub mod Ends
use epochd.Base.{
  ℕ, zero, suc, Bool, true, false, Option, none, some, List, [], ◌∷◌, ◌++◌, map, ◌==◌,
  if◌then◌else◌,
}
use epochd.Clock.{Time, Duration, add}
use epochd.Procmem.{Env, Machine, Errno, Result, ok, err}
use epochd.Inject.Handle as Hook
use epochd.Inject.Handle.{child_handle}
use epochd.Faketime.Heap.{find, put, drop_key, store}
use epochd.Faketime.Tracker.{
  Request, cont_pid, set_options_pid, get_event_msg_pid, detach_all, interrupt_detach, Status,
  exited, signaled, continued, stopped, Reading, sigtrap, is_fork, is_exec,
  reinject_at_time_after_exec, reinject_frozen_after_exec,
}

-- The arguments of the loop that stay as they are.
pub record Settings : Type 0 where
  pub parent_pid : ℕ
  pub target : Time
  pub inject_offset : Duration
  pub frozen : Bool

-- The handles of the parent and of the children, the children whose first stop is due, the processes by pid, and
-- the requests made.
pub record Loop : Type 0 where
  pub parent : Hook.Handle
  pub child_handles : List (ℕ × Hook.Handle)
  pub pending_stop : List (ℕ × Bool)
  pub machines : ℕ → Machine
  pub requests : List Request

abbrev pub ask : Request → Loop → Loop
ask q lp = record lp { requests = lp.requests ++ q ∷ [] }

-- srcHandle
unfoldable pub source_handle : Settings → ℕ → Loop → Option Hook.Handle
source_handle cfg pid lp =
    if pid == cfg.parent_pid then some lp.parent else find pid lp.child_handles

-- The end of a process.
unfoldable pub end_process : ℕ → Loop → Loop
end_process pid lp = record lp {
  child_handles = drop_key pid lp.child_handles;
  pending_stop = drop_key pid lp.pending_stop;
}

-- A fork.
unfoldable pub follow_fork : Settings → Reading → ℕ → Loop → Loop
unfolding source_handle
follow_fork cfg rd pid lp =
    let asked = ask (get_event_msg_pid pid) lp in
    elim rd.event_msg [
      | none ↦ ask (cont_pid pid 0) asked
      | some child_pid ↦ elim (source_handle cfg pid lp) [
        | none ↦ ask (cont_pid pid 0) asked
        | some source ↦ ask (cont_pid pid 0) (record asked {
          child_handles = put child_pid (child_handle source child_pid) lp.child_handles;
          pending_stop = put child_pid true lp.pending_stop;
        })
      ]
    ]

-- The end of an exec, for the result of the injection.
unfoldable pub end_exec : Settings → ℕ → Result Hook.Handle → Loop → Loop
end_exec cfg pid (err e) lp = ask (cont_pid pid 0) lp
end_exec cfg pid (ok new) lp = ask (cont_pid pid 0) (
    if pid == cfg.parent_pid
    then record lp { parent = new }
    else record lp { child_handles = put pid new lp.child_handles })

-- An exec.
unfoldable pub follow_exec : (ℕ → Env) → Settings → Reading → ℕ → Loop → Loop
unfolding reinject_at_time_after_exec reinject_frozen_after_exec end_exec
follow_exec env cfg rd pid lp =
    let s = lp.machines pid in
    let fixed = reinject_frozen_after_exec (env pid) rd.program cfg.target s in
    let moving =
      reinject_at_time_after_exec (env pid) rd.program rd.late (add rd.early cfg.inject_offset) s in
    let (result, s') = if cfg.frozen then fixed else moving in
    end_exec cfg pid result (record lp { machines = store pid s' lp.machines })

-- A stop without an event.
unfoldable pub follow_signal : ℕ → ℕ → Loop → Loop
follow_signal pid sig lp = elim (find pid lp.pending_stop) [
  | some true ↦
      ask (cont_pid pid 0)
        (ask (set_options_pid pid) (record lp { pending_stop = drop_key pid lp.pending_stop }))
  | _ ↦ ask (cont_pid pid (if sig == sigtrap then 0 else sig)) lp
]

-- The body of the loop, for the status of a process.
unfoldable pub watch_event : (ℕ → Env) → Settings → Reading → ℕ → Status → Loop → Loop
unfolding end_process follow_fork follow_exec follow_signal is_fork is_exec
watch_event env cfg rd pid exited lp = end_process pid lp
watch_event env cfg rd pid signaled lp = end_process pid lp
watch_event env cfg rd pid continued lp = lp
watch_event env cfg rd pid (stopped sig event) lp =
    let forked = follow_fork cfg rd pid lp in
    let execed = follow_exec env cfg rd pid lp in
    if is_fork sig event
    then forked
    else if is_exec sig event
    then execed
    else follow_signal pid sig lp

-- What WaitAnyNonBlocking returns: ECHILD, another error, no event, or the status of a process.
pub data Waited : Type 0 where
  no_children : Waited
  wait_failed : Errno → Waited
  nothing : Waited
  event : ℕ → Status → Reading → Waited

-- A round of the loop: whether `done` is closed, and the wait.
pub record Round : Type 0 where
  pub closed : Bool
  pub waited : Waited

-- The deferred detach of the children and of the parent.
unfoldable pub detach_children : Loop → Loop
detach_children lp = ask interrupt_detach (ask (detach_all (map (λ c. c.0) lp.child_handles)) lp)

-- What one wait makes of the loop: its end with the error returned, or its next round.
pub data Turn : Type 0 where
  ended : Option Errno → Turn
  again : Loop → Turn

unfoldable pub turn : (ℕ → Env) → Settings → Waited → Loop → Turn
unfolding watch_event
turn env cfg no_children lp = ended none
turn env cfg (wait_failed e) lp = ended (some e)
turn env cfg nothing lp = again lp
turn env cfg (event pid status rd) lp = again (watch_event env cfg rd pid status lp)

-- The rounds of runWatchLoop from the round `k` on, with the error that it returns.
unfoldable pub run_watch_loop :
    (ℕ → Env) → Settings → (ℕ → Round) → ℕ → ℕ → Loop → Option (Option Errno × Loop)
unfolding detach_children turn
run_watch_loop env cfg rounds zero k lp = none
run_watch_loop env cfg rounds (suc fuel) k lp = elim (rounds k).closed [
  | true ↦ some (none, detach_children lp)
  | false ↦ elim (turn env cfg (rounds k).waited lp) [
    | ended e ↦ some (e, detach_children lp)
    | again lp' ↦ run_watch_loop env cfg rounds fuel (suc k) lp'
  ]
]
