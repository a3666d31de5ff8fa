-- ===== src/Ctl/Watch/Execs.antt =====
-- What an exec leaves of the processes: in runWatchLoop of cmd/faketimectl/cmds_run.go, and in the ChildTracker of
-- pkg/faketime/faketime.go.
use epochd.Base.{
  ℕ, ◌≡◌, refl, inl, inr, Bool, true, false, ◌||◌, Option, none, some, ◌==◌, if◌then◌else◌, arith,
  Bool-cases, Option-cases,
}
use epochd.Clock.{add, Time}
use epochd.Procmem.{Env, Machine, Result}
use epochd.Faketime.{Handle, effective_time}
use epochd.Inject.Handle as Hook
use epochd.Inject.Handle.{child_handle}
use epochd.Faketime.Heap.{find, store}
use epochd.Faketime.Tracker.{
  Reading, State, reinject, handle_exec, reinject_at_time_after_exec, reinject_frozen_after_exec,
  forking_handle,
}
use epochd.Ctl.Watch.{Settings, Loop, end_exec, follow_exec}

abbrev pub is_some : {A : Type 0} → Option A → Bool
is_some none = false
is_some (some _) = true

-- The handle that the tracker keeps for the process has the mode of the loop, and shows at the first reading of the
-- clock what the loop is to show.
pub record DoesShow (cfg : Settings) (rd : Reading) (h : Handle) : Type 0 where
  pub mode : h.frozen ≡ cfg.frozen
  pub shown :
      effective_time h rd.early
      ≡ (if cfg.frozen then cfg.target else add rd.early cfg.inject_offset)

-- The process behind an injection after an exec.
unfoldable pub reinjected : Env → Reading → Bool → Time → Machine → Machine
reinjected env rd frozen target s =
    (if frozen
      then reinject_frozen_after_exec env rd.program target s
      else reinject_at_time_after_exec env rd.program rd.late target s).1

pub reinject-machines :
    (env : ℕ → Env) (rd : Reading) (pid r : ℕ) (st : State)
    → (reinject env rd pid r st).heap.machines
      ≡ store pid
          (reinjected
            (env pid)
            rd
            (st.heap.handles r).frozen
            (effective_time (st.heap.handles r) rd.early)
            (st.heap.machines pid))
          st.heap.machines
unfolding reinject reinjected
reinject-machines env rd pid r st = ground arith

end_exec-machines :
    (cfg : Settings) (pid : ℕ) (r : Result Hook.Handle) (lp : Loop)
    → (end_exec cfg pid r lp).machines ≡ lp.machines
unfolding end_exec
end_exec-machines cfg pid r lp = ground arith

pub follow_exec-machines :
    (env : ℕ → Env) (cfg : Settings) (rd : Reading) (pid : ℕ) (lp : Loop)
    → (follow_exec env cfg rd pid lp).machines
      ≡ store pid
          (reinjected
            (env pid)
            rd
            cfg.frozen
            (if cfg.frozen then cfg.target else add rd.early cfg.inject_offset)
            (lp.machines pid))
          lp.machines
unfolding follow_exec reinjected
follow_exec-machines env cfg rd pid lp = elim (Bool-cases cfg.frozen) [
  | inl fixed ↦ rw (fixed, follow_exec) (end_exec-machines cfg pid _ _)
  | inr moving ↦ rw (moving, follow_exec) (end_exec-machines cfg pid _ _)
]

-- The tracker injects into the process that called exec through the handle that it keeps for it.
pub handle_exec-machines :
    (env : ℕ → Env) (rd : Reading) (pid : ℕ) (st : State)
    → ((pid == st.tracker.parent_pid) || is_some (find pid st.tracker.children)) ≡ true
    → (handle_exec env rd pid st).heap.machines
      ≡ (reinject env rd pid (forking_handle pid st.tracker) st).heap.machines
unfolding handle_exec forking_handle
handle_exec-machines env rd pid st known = elim (Bool-cases (pid == st.tracker.parent_pid)) [
  | inl it_is ↦ rw (it_is, handle_exec, forking_handle) refl
  | inr not_it ↦ elim (Option-cases (find pid st.tracker.children)) [
    | inl missing ↦ absurd (ground (arith, known, not_it, missing))
    | inr (r, there) ↦ rw (not_it, there, handle_exec, forking_handle) refl
  ]
]

pub store-same :
    (pid j : ℕ) (s s' : Machine) (f g : ℕ → Machine)
    → s ≡ s'
    → f j ≡ g j
    → store pid s f j ≡ store pid s' g j
store-same pid j s s' f g e same = ground (arith, e, same)
