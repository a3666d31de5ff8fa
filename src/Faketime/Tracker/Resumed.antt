-- ===== src/Faketime/Tracker/Resumed.antt =====
-- How handleEvent of pkg/faketime/faketime.go resumes a stopped process.
use epochd.Base.{
  ℕ, suc, ◌+◌, ◌≡◌, refl, List, [], ◌∷◌, ◌++◌, arith, ◌==◌, if◌then◌else◌, Option-cases, inl, inr,
}
use epochd.Procmem.{Env}
use epochd.Faketime.Tracker.{
  Request, cont_pid, set_options_pid, get_event_msg_pid, detach_all, interrupt_detach, State,
  Reading, Status, exited, signaled, continued, stopped, handle_fork, reinject, handle_exec,
  handle_signal, handle_event,
}

-- How many of the requests resume the process.
unfoldable pub resumes : ℕ → List Request → ℕ
resumes pid [] = 0
resumes pid (cont_pid p sig ∷ qs) = let rest = resumes pid qs in if p == pid then suc rest else rest
resumes pid (set_options_pid p ∷ qs) = resumes pid qs
resumes pid (get_event_msg_pid p ∷ qs) = resumes pid qs
resumes pid (detach_all ps ∷ qs) = resumes pid qs
resumes pid (interrupt_detach ∷ qs) = resumes pid qs

resumes-append : (j : ℕ) (qs rs : List Request) → resumes j (qs ++ rs) ≡ resumes j qs + resumes j rs
unfolding resumes
resumes-append j [] rs = omega arith
resumes-append j (cont_pid p sig ∷ qs) rs = ground (arith, resumes-append j qs rs)
resumes-append j (set_options_pid p ∷ qs) rs = resumes-append j qs rs
resumes-append j (get_event_msg_pid p ∷ qs) rs = resumes-append j qs rs
resumes-append j (detach_all ps ∷ qs) rs = resumes-append j qs rs
resumes-append j (interrupt_detach ∷ qs) rs = resumes-append j qs rs

-- `st'` is `st` but for one resume of `pid` and requests that resume nothing.
abbrev pub IsResumed : ℕ → State → State → Type 0
IsResumed pid st st' =
    (j : ℕ) → resumes j st'.requests ≡ resumes j st.requests + (if pid == j then 1 else 0)

-- An event is answered with a resume exactly where it is a stop.
abbrev pub IsAnswered : Status → ℕ → State → State → Type 0
IsAnswered (stopped sig event) pid st st' = IsResumed pid st st'
IsAnswered _ pid st st' = st'.requests ≡ st.requests

ask-cont_pid :
    (pid sig j : ℕ) (qs : List Request)
    → resumes j (qs ++ cont_pid pid sig ∷ []) ≡ resumes j qs + (if pid == j then 1 else 0)
unfolding resumes
ask-cont_pid pid sig j qs = ground (arith, resumes-append j qs (cont_pid pid sig ∷ []))

ask_first-cont_pid :
    (q : Request) (pid sig j : ℕ) (qs : List Request)
    → resumes j (q ∷ []) ≡ 0
    → resumes j ((qs ++ q ∷ []) ++ cont_pid pid sig ∷ [])
      ≡ resumes j qs + (if pid == j then 1 else 0)
ask_first-cont_pid q pid sig j qs e =
    ground (arith, e, resumes-append j qs (q ∷ []), ask-cont_pid pid sig j (qs ++ q ∷ []))

module _ (env : ℕ → Env) (rd : Reading) (pid : ℕ) where
  handle_fork-IsResumed : (st : State) → IsResumed pid st (handle_fork rd pid st)
  unfolding handle_fork resumes
  handle_fork-IsResumed st j = elim (Option-cases rd.event_msg) [
    | inl e ↦
        rw (e, handle_fork) (ask_first-cont_pid (get_event_msg_pid pid) pid 0 j st.requests refl)
    | inr (c, e) ↦
        rw (e, handle_fork) (ask_first-cont_pid (get_event_msg_pid pid) pid 0 j st.requests refl)
  ]

  reinject-IsResumed : (r : ℕ) (st : State) → IsResumed pid st (reinject env rd pid r st)
  unfolding reinject
  reinject-IsResumed r st j = ground (arith, ask-cont_pid pid 0 j st.requests)

  handle_exec-IsResumed : (st : State) → IsResumed pid st (handle_exec env rd pid st)
  unfolding handle_exec
  handle_exec-IsResumed st j =
      ground (arith, ask-cont_pid pid 0 j st.requests, reinject-IsResumed st.tracker.handle st j)

  handle_signal-IsResumed : (sig : ℕ) (st : State) → IsResumed pid st (handle_signal pid sig st)
  unfolding handle_signal resumes
  handle_signal-IsResumed sig st j = ground (
    arith,
    ask-cont_pid pid 0 j st.requests,
    ask-cont_pid pid sig j st.requests,
    ask_first-cont_pid (set_options_pid pid) pid 0 j st.requests refl,
  )

  -- handleEvent answers every stop of a process with exactly one resume of that process, and of no
  -- other, whatever the stop is for and whether its requests fail; other events with none.
  pub handle_event-IsAnswered :
      (status : Status) (st : State) → IsAnswered status pid st (handle_event env rd pid status st)
  unfolding handle_event
  handle_event-IsAnswered exited st = refl
  handle_event-IsAnswered signaled st = refl
  handle_event-IsAnswered continued st = refl
  handle_event-IsAnswered (stopped sig event) st = λ j. ground (
    arith,
    handle_fork-IsResumed st j,
    handle_exec-IsResumed st j,
    handle_signal-IsResumed sig st j,
  )
