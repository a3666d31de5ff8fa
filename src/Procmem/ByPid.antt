-- ===== src/Procmem/ByPid.antt =====
-- The requests of the Tracer of pkg/procmem/procmem.go that name a process, and its detaches. The kernel
-- answers each system call, given those made before.
use epochd.Base.{
  ℕ, ◌+◌, ◌≡◌, Bool, Option, none, some, List, [], ◌∷◌, ◌++◌, if◌then◌else◌, ◌==◌, arith, inl, inr,
  Option-cases,
}
use epochd.Procmem.{Errno, WaitStatus}

-- The system calls, by the process that they name.
pub data SysCall : Type 0 where
  ptrace_attach ptrace_interrupt ptrace_detach ptrace_singlestep get_event_msg : ℕ → SysCall
  ptrace_cont set_options : ℕ → ℕ → SysCall
  kill_stop : ℕ → SysCall
  wait_for wait_nonblocking : ℕ → SysCall
  wait_any : SysCall

-- What the kernel answers: an error, and what a call returns besides.
pub record Kernel : Type 0 where
  pub fails : List SysCall → SysCall → Option Errno
  pub event_msg : List SysCall → ℕ → ℕ
  pub waited : List SysCall → SysCall → Option (ℕ × WaitStatus)

-- A Tracer: its tracee (t.pid), and the calls made.
pub record Tracer : Type 0 where
  pub pid : ℕ
  pub made : List SysCall

pub data Answer (A : Type 0) : Type 0 where
  answer : A → Answer A
  refused : Errno → Answer A

-- isNoProcess, ESRCH being 3
unfoldable pub is_no_process : Errno → Bool
is_no_process e = e == 3

abbrev pub made_call : SysCall → Tracer → Tracer
made_call q t = record t { made = t.made ++ q ∷ [] }

module _ (kernel : Kernel) where
  -- One system call, whose error is returned.
  abbrev pub call : SysCall → Tracer → Answer Unit × Tracer
  call q t = elim (kernel.fails t.made q) [
    | none ↦ (answer tt, made_call q t)
    | some e ↦ (refused e, made_call q t)
  ]

  -- SingleStep
  unfoldable pub single_step : Tracer → Answer Unit × Tracer
  single_step t = call (ptrace_singlestep t.pid) t

  -- SetTracee
  unfoldable pub set_tracee : ℕ → Tracer → Tracer
  set_tracee pid t = record t { pid = pid }

  -- SetOptionsPID
  unfoldable pub set_options_pid : ℕ → ℕ → Tracer → Answer Unit × Tracer
  set_options_pid pid opts t = call (set_options pid opts) t

  -- ContPID
  unfoldable pub cont_pid : ℕ → ℕ → Tracer → Answer Unit × Tracer
  cont_pid pid sig t = call (ptrace_cont pid sig) t

  -- GetEventMsgPID
  unfoldable pub get_event_msg_pid : ℕ → Tracer → Answer ℕ × Tracer
  get_event_msg_pid pid t = elim (kernel.fails t.made (get_event_msg pid)) [
    | none ↦ (answer (kernel.event_msg t.made pid), made_call (get_event_msg pid) t)
    | some e ↦ (refused e, made_call (get_event_msg pid) t)
  ]

  -- WaitAnyNonBlocking: `none` is the pid 0, that no event is pending.
  unfoldable pub wait_any_non_blocking : Tracer → Answer (Option (ℕ × WaitStatus)) × Tracer
  wait_any_non_blocking t = elim (kernel.fails t.made wait_any) [
    | none ↦ (answer (kernel.waited t.made wait_any), made_call wait_any t)
    | some e ↦ (refused e, made_call wait_any t)
  ]

  -- WaitPIDNonBlocking: an event counts where wait4 returns the pid itself.
  unfoldable pub wait_pid_non_blocking : ℕ → Tracer → Answer (Option WaitStatus) × Tracer
  wait_pid_non_blocking pid t =
      let seen : Option WaitStatus = elim (kernel.waited t.made (wait_nonblocking pid)) [
        | none ↦ none
        | some (p, ws) ↦ if p == pid then some ws else none
      ] in
      elim (kernel.fails t.made (wait_nonblocking pid)) [
        | none ↦ (answer seen, made_call (wait_nonblocking pid) t)
        | some e ↦ (refused e, made_call (wait_nonblocking pid) t)
      ]

  -- Attach
  unfoldable pub attach : ℕ → Tracer → Answer Unit × Tracer
  attach pid t = elim (kernel.fails t.made (ptrace_attach pid)) [
    | some e ↦ (refused e, made_call (ptrace_attach pid) t)
    | none ↦
        let t' = made_call (ptrace_attach pid) t in
        elim (kernel.fails t'.made (wait_for pid)) [
          | some e ↦ (refused e, made_call (wait_for pid) t')
          | none ↦ (answer tt, record (made_call (wait_for pid) t') { pid = pid })
        ]
  ]

  -- The interrupt of a process, by SIGSTOP where PTRACE_INTERRUPT fails, and the wait for its stop.
  unfoldable pub interrupt : ℕ → Tracer → Tracer
  interrupt pid t =
      let asked = made_call (ptrace_interrupt pid) t in
      let signalled : Tracer = elim (kernel.fails t.made (ptrace_interrupt pid)) [
        | none ↦ asked
        | some _ ↦ made_call (kill_stop pid) asked
      ] in
      made_call (wait_for pid) signalled

  -- The detach of a process that may be gone.
  unfoldable pub detach_pid : ℕ → Tracer → Option Errno × Tracer
  unfolding interrupt is_no_process
  detach_pid pid t =
      let t' = interrupt pid t in
      let error : Option Errno = elim (kernel.fails t'.made (ptrace_detach pid)) [
        | none ↦ none
        | some e ↦ if is_no_process e then none else some e
      ] in
      (error, made_call (ptrace_detach pid) t')

  -- InterruptDetach
  unfoldable pub interrupt_detach : Tracer → Option Errno × Tracer
  unfolding detach_pid
  interrupt_detach t = let (e, t') = detach_pid t.pid t in (e, record t' { pid = 0 })

  -- DetachAll, with the errors that are joined.
  unfoldable pub detach_all : List ℕ → Tracer → List Errno × Tracer
  unfolding detach_pid
  detach_all [] t = ([], t)
  detach_all (pid ∷ pids) t =
      let (error, t') = detach_pid pid t in
      let (errors, t'') = detach_all pids t' in
      (elim error [ none ↦ errors | some e ↦ e ∷ errors ], t'')

-- How often a list of calls detaches a process, and how often a list of processes names it.
abbrev pub detaches : ℕ → List SysCall → ℕ
detaches pid [] = 0
detaches pid (ptrace_detach p ∷ qs) = (if p == pid then 1 else 0) + detaches pid qs
detaches pid (_ ∷ qs) = detaches pid qs

abbrev pub occurs : ℕ → List ℕ → ℕ
occurs pid [] = 0
occurs pid (p ∷ ps) = (if p == pid then 1 else 0) + occurs pid ps

detaches-append :
    (pid : ℕ) (qs rs : List SysCall) → detaches pid (qs ++ rs) ≡ detaches pid qs + detaches pid rs
detaches-append pid [] rs = omega arith
detaches-append pid (ptrace_attach _ ∷ qs) rs = detaches-append pid qs rs
detaches-append pid (ptrace_interrupt _ ∷ qs) rs = detaches-append pid qs rs
detaches-append pid (ptrace_detach p ∷ qs) rs = omega (arith, detaches-append pid qs rs)
detaches-append pid (ptrace_singlestep _ ∷ qs) rs = detaches-append pid qs rs
detaches-append pid (get_event_msg _ ∷ qs) rs = detaches-append pid qs rs
detaches-append pid (ptrace_cont _ _ ∷ qs) rs = detaches-append pid qs rs
detaches-append pid (set_options _ _ ∷ qs) rs = detaches-append pid qs rs
detaches-append pid (kill_stop _ ∷ qs) rs = detaches-append pid qs rs
detaches-append pid (wait_for _ ∷ qs) rs = detaches-append pid qs rs
detaches-append pid (wait_nonblocking _ ∷ qs) rs = detaches-append pid qs rs
detaches-append pid (wait_any ∷ qs) rs = detaches-append pid qs rs

module _ (kernel : Kernel) where
  interrupt-detaches :
      (p pid : ℕ) (t : Tracer) → detaches pid (interrupt kernel p t).made ≡ detaches pid t.made
  unfolding interrupt
  interrupt-detaches p pid t = elim (Option-cases (kernel.fails t.made (ptrace_interrupt p))) [
    | inl granted ↦
        rw (granted, interrupt)
          (omega (
            arith,
            detaches-append pid (t.made ++ ptrace_interrupt p ∷ []) (wait_for p ∷ []),
            detaches-append pid t.made (ptrace_interrupt p ∷ []),
          ))
    | inr (e, failed) ↦
        rw (failed, interrupt)
          (omega (
            arith,
            detaches-append pid ((t.made ++ ptrace_interrupt p ∷ []) ++ kill_stop p ∷ [])
                (wait_for p ∷ []),
            detaches-append pid (t.made ++ ptrace_interrupt p ∷ []) (kill_stop p ∷ []),
            detaches-append pid t.made (ptrace_interrupt p ∷ []),
          ))
  ]

  -- DetachAll detaches every process as often as its list names it and no other, whatever errors the kernel
  -- answers with on the way.
  pub detach_all-detaches :
      (pids : List ℕ) (pid : ℕ) (t : Tracer)
      → detaches pid (detach_all kernel pids t).1.made ≡ detaches pid t.made + occurs pid pids
  unfolding detach_all detach_pid
  detach_all-detaches [] pid t = omega arith
  detach_all-detaches (p ∷ pids) pid t = omega (
    arith,
    detach_all-detaches pids pid (detach_pid kernel p t).1,
    detaches-append pid (interrupt kernel p t).made (ptrace_detach p ∷ []),
    interrupt-detaches p pid t,
  )
