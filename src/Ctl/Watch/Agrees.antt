-- ===== src/Ctl/Watch/Agrees.antt =====
-- runWatchLoop of cmd/faketimectl/cmds_run.go against the ChildTracker of pkg/faketime.
use epochd.Base.{
  ℕ, ◌≡◌, refl, sym, ap, ◌∙◌, inl, inr, Bool, true, ◌||◌, none, some, List, [], ◌∷◌, ◌++◌, ◌==◌,
  if◌then◌else◌, arith, Bool-cases, Option-cases,
}
use epochd.Clock.{add, Time}
use epochd.Procmem.{Env, Result, ok, err}
use epochd.Faketime.{effective_time}
use epochd.Inject.Handle as Hook
use epochd.Inject.Handle.{child_handle}
use epochd.Faketime.Heap.{find, put, drop_key}
use epochd.Faketime.Tracker.{
  Request, cont_pid, Status, exited, signaled, continued, stopped, Reading, State, is_fork, is_exec,
  handle_exit, handle_fork, reinject, handle_exec, handle_signal, handle_event, forking_handle,
}
use epochd.Ctl.Watch.{
  Settings, Loop, source_handle, end_process, follow_fork, end_exec, follow_exec, follow_signal,
  watch_event,
}
use epochd.Ctl.Watch.Execs.{
  is_some, DoesShow, reinjected, reinject-machines, follow_exec-machines, handle_exec-machines,
  store-same,
}

module _ {V : Type 0} where
  pub find-drop_key :
      (k j : ℕ) (m : List (ℕ × V)) → find j (drop_key k m) ≡ (if k == j then none else find j m)
  unfolding find drop_key
  find-drop_key k j [] = ground arith
  find-drop_key k j ((i, v) ∷ m) = ground (arith, find-drop_key k j m)

  pub find-put :
      (k j : ℕ) (v : V) (m : List (ℕ × V))
      → find j (put k v m) ≡ (if k == j then some v else find j m)
  unfolding find put
  find-put k j v m = ground (arith, find-drop_key k j m)

-- The loop and the tracker have made the same requests, left the processes in the same state, follow the same children
-- and wait for the first stop of the same ones.
pub record DoesAgree (st : State) (lp : Loop) : Type 0 where
  pub same_requests : st.requests ≡ lp.requests
  pub same_machines : (pid : ℕ) → st.heap.machines pid ≡ lp.machines pid
  pub same_children :
      (pid : ℕ) → is_some (find pid st.tracker.children) ≡ is_some (find pid lp.child_handles)
  pub same_pending : (pid : ℕ) → find pid st.tracker.pending_stop ≡ find pid lp.pending_stop

ask-DoesAgree :
    (q : Request) (st : State) (lp : Loop)
    → DoesAgree st lp
    → DoesAgree
        (record st { requests = st.requests ++ q ∷ [] })
        (record lp { requests = lp.requests ++ q ∷ [] })
ask-DoesAgree q st lp a = record {
  same_requests = ap (λ r. r ++ q ∷ []) a.same_requests;
  same_machines = a.same_machines;
  same_children = a.same_children;
  same_pending = a.same_pending;
}

handle_exit-children :
    (pid : ℕ) (st : State)
    → (handle_exit pid st.tracker).children ≡ drop_key pid st.tracker.children
unfolding handle_exit
handle_exit-children pid st = ground arith

handle_exit-pending :
    (pid : ℕ) (st : State)
    → (handle_exit pid st.tracker).pending_stop ≡ drop_key pid st.tracker.pending_stop
unfolding handle_exit
handle_exit-pending pid st = ground arith

exit-DoesAgree :
    (pid : ℕ) (st : State) (lp : Loop)
    → DoesAgree st lp
    → DoesAgree (record st { tracker = handle_exit pid st.tracker }) (end_process pid lp)
unfolding end_process
exit-DoesAgree pid st lp a = record {
  same_requests = a.same_requests;
  same_machines = a.same_machines;
  same_children = λ j.
      rw
        (
          handle_exit-children pid st,
          find-drop_key pid j st.tracker.children,
          find-drop_key pid j lp.child_handles,
        )
        (ground (arith, a.same_children j));
  same_pending = λ j.
      rw
        (
          handle_exit-pending pid st,
          find-drop_key pid j st.tracker.pending_stop,
          find-drop_key pid j lp.pending_stop,
          a.same_pending j,
        )
        refl;
}

reinject-shape :
    (env : ℕ → Env) (rd : Reading) (pid r : ℕ) (st : State)
    → ((reinject env rd pid r st).requests ≡ st.requests ++ cont_pid pid 0 ∷ [])
      × ((reinject env rd pid r st).tracker.children ≡ st.tracker.children)
      × ((reinject env rd pid r st).tracker.pending_stop ≡ st.tracker.pending_stop)
unfolding reinject
reinject-shape env rd pid r st = ground arith

handle_exec-shape :
    (env : ℕ → Env) (rd : Reading) (pid : ℕ) (st : State)
    → ((handle_exec env rd pid st).requests ≡ st.requests ++ cont_pid pid 0 ∷ [])
      × ((handle_exec env rd pid st).tracker.children ≡ st.tracker.children)
      × ((handle_exec env rd pid st).tracker.pending_stop ≡ st.tracker.pending_stop)
unfolding handle_exec
handle_exec-shape env rd pid st = ground (
  arith,
  reinject-shape env rd pid st.tracker.handle st,
  λ (r : ℕ). reinject-shape env rd pid r st,
)

end_exec-shape :
    (cfg : Settings) (pid : ℕ) (r : Result Hook.Handle) (lp : Loop)
    → ((end_exec cfg pid r lp).requests ≡ lp.requests ++ cont_pid pid 0 ∷ [])
      × ((end_exec cfg pid r lp).pending_stop ≡ lp.pending_stop)
unfolding end_exec
end_exec-shape cfg pid r lp = ground arith

end_exec-children :
    (cfg : Settings) (pid : ℕ) (r : Result Hook.Handle) (lp : Loop) (j : ℕ)
    → ((pid == cfg.parent_pid) || is_some (find pid lp.child_handles)) ≡ true
    → is_some (find j (end_exec cfg pid r lp).child_handles) ≡ is_some (find j lp.child_handles)
unfolding end_exec
end_exec-children cfg pid (err e) lp j known = refl
end_exec-children cfg pid (ok new) lp j known =
    ground (arith, known, find-put pid j new lp.child_handles)

exec-machines :
    (env : ℕ → Env) (cfg : Settings) (rd : Reading) (pid : ℕ) (st : State) (lp : Loop)
    → ((pid == st.tracker.parent_pid) || is_some (find pid st.tracker.children)) ≡ true
    → DoesShow cfg rd (st.heap.handles (forking_handle pid st.tracker))
    → DoesAgree st lp
    → (j : ℕ)
    → (handle_exec env rd pid st).heap.machines j ≡ (follow_exec env cfg rd pid lp).machines j
exec-machines env cfg rd pid st lp known shows a j =
    ap (λ m. m j) (handle_exec-machines env rd pid st known)
    ∙ ap (λ m. m j) (reinject-machines env rd pid (forking_handle pid st.tracker) st)
    ∙ store-same pid j _ _ st.heap.machines lp.machines
        (ap
            (λ (b : Bool).
              reinjected (env pid) rd b
                (effective_time (st.heap.handles (forking_handle pid st.tracker)) rd.early)
                (st.heap.machines pid))
            shows.mode
          ∙ ap (λ (t : Time). reinjected (env pid) rd cfg.frozen t (st.heap.machines pid))
              shows.shown
          ∙ ap
              (reinjected (env pid) rd cfg.frozen
                (if cfg.frozen then cfg.target else add rd.early cfg.inject_offset))
              (a.same_machines pid))
        (a.same_machines j)
    ∙ sym (ap (λ m. m j) (follow_exec-machines env cfg rd pid lp))

exec-DoesAgree :
    (env : ℕ → Env) (cfg : Settings) (rd : Reading) (pid : ℕ) (st : State) (lp : Loop)
    → st.tracker.parent_pid ≡ cfg.parent_pid
    → ((pid == cfg.parent_pid) || is_some (find pid lp.child_handles)) ≡ true
    → DoesShow cfg rd (st.heap.handles (forking_handle pid st.tracker))
    → DoesAgree st lp
    → DoesAgree (handle_exec env rd pid st) (follow_exec env cfg rd pid lp)
unfolding follow_exec
exec-DoesAgree env cfg rd pid st lp parent known shows a =
    let known' : ((pid == st.tracker.parent_pid) || is_some (find pid st.tracker.children)) ≡ true =
      rw (parent, a.same_children pid) known in
    let (requests, children, pending) = handle_exec-shape env rd pid st in
    let (requests', pending') = end_exec-shape cfg pid _ _ in
    record {
      same_requests = requests ∙ ap (λ r. r ++ cont_pid pid 0 ∷ []) a.same_requests ∙ sym requests';
      same_machines = exec-machines env cfg rd pid st lp known' shows a;
      same_children = λ j.
          ap (λ m. is_some (find j m)) children
          ∙ a.same_children j
          ∙ sym (end_exec-children cfg pid _ _ j known);
      same_pending = λ j. ap (find j) pending ∙ a.same_pending j ∙ sym (ap (find j) pending');
    }

source_handle_known :
    (cfg : Settings) (pid : ℕ) (lp : Loop)
    → ((pid == cfg.parent_pid) || is_some (find pid lp.child_handles)) ≡ true
    → (source : Hook.Handle) × (source_handle cfg pid lp ≡ some source)
unfolding source_handle
source_handle_known cfg pid lp known = elim (Bool-cases (pid == cfg.parent_pid)) [
  | inl it_is ↦ (lp.parent, rw (it_is, source_handle) refl)
  | inr not_it ↦ elim (Option-cases (find pid lp.child_handles)) [
    | inl missing ↦ ground (arith, known, not_it, missing)
    | inr (source, there) ↦ (source, rw (not_it, there, source_handle) refl)
  ]
]

fork-DoesAgree :
    (cfg : Settings) (rd : Reading) (pid : ℕ) (st : State) (lp : Loop)
    → ((pid == cfg.parent_pid) || is_some (find pid lp.child_handles)) ≡ true
    → DoesAgree st lp
    → DoesAgree (handle_fork rd pid st) (follow_fork cfg rd pid lp)
unfolding handle_fork follow_fork
fork-DoesAgree cfg rd pid st lp known a = elim (Option-cases rd.event_msg) [
  | inl no_msg ↦
      rw (no_msg, handle_fork, follow_fork) (ask-DoesAgree _ _ _ (ask-DoesAgree _ st lp a))
  | inr (child, msg) ↦
      let (source, found) = source_handle_known cfg pid lp known in
      rw (msg, found, handle_fork, follow_fork)
        (ask-DoesAgree _ _ _ (record {
          same_requests = (ask-DoesAgree _ st lp a).same_requests;
          same_machines = a.same_machines;
          same_children = λ j.
              rw
                (
                  find-put child j st.heap.next st.tracker.children,
                  find-put child j (child_handle source child) lp.child_handles,
                )
                (ground (arith, a.same_children j));
          same_pending = λ j.
              rw
                (
                  find-put child j true st.tracker.pending_stop,
                  find-put child j true lp.pending_stop,
                  a.same_pending j,
                )
                refl;
        }))
]

signal-DoesAgree :
    (pid sig : ℕ) (st : State) (lp : Loop)
    → DoesAgree st lp
    → DoesAgree (handle_signal pid sig st) (follow_signal pid sig lp)
unfolding handle_signal follow_signal
signal-DoesAgree pid sig st lp a = elim (Option-cases (find pid lp.pending_stop)) [
  | inl absent ↦
      rw (a.same_pending pid, absent, handle_signal, follow_signal) (ask-DoesAgree _ st lp a)
  | inr (due, found) ↦ elim (Bool-cases due) [
    | inr past ↦
        rw (a.same_pending pid, found, past, handle_signal, follow_signal) (ask-DoesAgree _ st lp a)
    | inl first ↦
        rw (a.same_pending pid, found, first, handle_signal, follow_signal)
          (ask-DoesAgree _ _ _ (
            ask-DoesAgree _ _ _ (record {
              same_requests = a.same_requests;
              same_machines = a.same_machines;
              same_children = a.same_children;
              same_pending = λ j.
                  rw
                    (
                      find-drop_key pid j st.tracker.pending_stop,
                      find-drop_key pid j lp.pending_stop,
                      a.same_pending j,
                    )
                    refl;
            })))
  ]
]

-- On an event of a process that is followed, the parent or a child, runWatchLoop does what the ChildTracker
-- does: where the two have made the same requests, left every process in the same state, follow the same
-- children and wait for the first stop of the same ones, they still do and have after the event, the
-- injection after an exec included, whatever the kernel answers. This is for a process whose handle in the
-- tracker has the mode of the loop, and shows at the first reading of the clock the target of a frozen loop,
-- or that reading plus the offset of an advancing one.
pub watch_event-DoesAgree :
    (env : ℕ → Env) (cfg : Settings) (rd : Reading) (pid : ℕ) (status : Status) (st : State)
    (lp : Loop)
    → st.tracker.parent_pid ≡ cfg.parent_pid
    → ((pid == cfg.parent_pid) || is_some (find pid lp.child_handles)) ≡ true
    → DoesShow cfg rd (st.heap.handles (forking_handle pid st.tracker))
    → DoesAgree st lp
    → DoesAgree (handle_event env rd pid status st) (watch_event env cfg rd pid status lp)
unfolding handle_event watch_event
watch_event-DoesAgree env cfg rd pid exited st lp parent known shows a = exit-DoesAgree pid st lp a
watch_event-DoesAgree env cfg rd pid signaled st lp parent known shows a =
    exit-DoesAgree pid st lp a
watch_event-DoesAgree env cfg rd pid continued st lp parent known shows a = a
watch_event-DoesAgree env cfg rd pid (stopped sig event) st lp parent known shows a =
    elim (Bool-cases (is_fork sig event)) [
      | inl forks ↦ rw (forks, handle_event, watch_event) (fork-DoesAgree cfg rd pid st lp known a)
      | inr stays ↦ elim (Bool-cases (is_exec sig event)) [
        | inl execs ↦
            rw (stays, execs, handle_event, watch_event)
              (exec-DoesAgree env cfg rd pid st lp parent known shows a)
        | inr stops ↦
            rw (stays, stops, handle_event, watch_event) (signal-DoesAgree pid sig st lp a)
      ]
    ]
