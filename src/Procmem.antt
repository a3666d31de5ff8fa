-- ===== src/Procmem.antt =====
-- pkg/procmem/procmem.go: the requests of a Tracer on its tracee, and the memory of a process. The
-- kernel may refuse any request; between a resume and the next stop the tracee runs on its own.
pub mod Faultless
pub mod ByPid
use epochd.Base.{
  ℕ, suc, ◌+◌, ◌≡◌, refl, ap, Bool, true, false, Option, none, some, List, [], ◌∷◌, arith,
}
use epochd.Memory.{Memory, write, read}

abbrev pub Errno : Type 0
Errno = ℕ

-- The general-purpose registers that the program sets, and the others.
pub record Regs : Type 0 where
  pub rip : ℕ
  pub rax : ℕ
  pub rdi : ℕ
  pub rsi : ℕ
  pub rdx : ℕ
  pub r10 : ℕ
  pub r8 : ℕ
  pub r9 : ℕ
  pub others : ℕ

pub data WaitStatus : Type 0 where
  stopped : ℕ → WaitStatus
  exited : ℕ → WaitStatus
  signaled : ℕ → WaitStatus

-- A tracee and its Tracer: `attached` is whether the tracee is under ptrace, `requests` counts the
-- requests made.
pub record Machine : Type 0 where
  pub mem : Memory
  pub regs : Regs
  pub attached : Bool
  pub requests : ℕ
  pub detaches : List ℕ  -- which of the requests were detaches, the last first

-- The kernel and the tracee: which requests fail, how a wait ends, what the tracee's memory and
-- registers are when it stops again after a resume.
pub record Env : Type 0 where
  pub fails : ℕ → Option Errno
  pub status : ℕ → WaitStatus
  pub run : Machine → Memory × Regs

-- The errors of the injection.
pub data Error : Type 0 where
  request_failed : Errno → Error
  no_free_page : Error
  not_located : Error
  bad_stop : WaitStatus → Error
  mmap_failed : Errno → Error
  attempts_exhausted : Error
  displacement_overflow : ℕ → Error

pub data Result (A : Type 0) : Type 0 where
  ok : A → Result A
  err : Error → Result A

-- What was done before an error stays done, so the machine comes back beside the error too.
abbrev pub M : Type 0 → Type 0
M A = Machine → Result A × Machine

abbrev pub pure : {A : Type 0} → A → M A
pure a s = (ok a, s)

abbrev pub fail : {A : Type 0} → Error → M A
fail e s = (err e, s)

abbrev pub continue : {A B : Type 0} → (A → M B) → Result A → M B
continue f (ok a) s = f a s
continue f (err e) s = (err e, s)

infixl 10 ◌>>=◌ ◌>>◌
abbrev pub ◌>>=◌ : {A B : Type 0} → M A → (A → M B) → M B
◌>>=◌ m f s = continue f (m s).0 (m s).1

abbrev pub ◌>>◌ : {B : Type 0} → M Unit → M B → M B
m >> n = m >>= λ _. n

err≢ok : {B : Type 0} {x : Error} {b : B} → err x ≡ ok b → ⊥
err≢ok e = cc

continue_ok :
    {A B : Type 0} (f : A → M B) (r : Result A) (s s' : Machine) (b : B)
    → continue f r s ≡ (ok b, s')
    → (a : A) × (r ≡ ok a) × (f a s ≡ (ok b, s'))
continue_ok f (ok a) s s' b e = (a, refl, e)
continue_ok f (err x) s s' b e = absurd (err≢ok (ap (λ p. p.0) e))

-- Inversion of a bind that succeeds.
pub bind_ok :
    {A B : Type 0} (m : M A) (f : A → M B) (s s' : Machine) (b : B)
    → (m >>= f) s ≡ (ok b, s')
    → (a : A) × ((m s).0 ≡ ok a) × (f a (m s).1 ≡ (ok b, s'))
bind_ok m f s s' b e = continue_ok f (m s).0 (m s).1 s' b e

-- What holds after both parts of a bind holds after the bind.
pub continue_elim :
    {A B : Type 0} (P : Result B × Machine → Type 0) (f : A → M B) (r : Result A) (s : Machine)
    → ((e : Error) → r ≡ err e → P (err e, s))
    → ((a : A) → P (f a s))
    → P (continue f r s)
continue_elim P f (ok a) s failed went = went a
continue_elim P f (err e) s failed went = failed e refl

module _ (env : Env) where
  -- The error of the next request, if it has one.
  abbrev pub request : M Unit
  request s = elim (env.fails s.requests) [
    | none ↦ (ok tt, record s { requests = suc s.requests })
    | some e ↦ (err (request_failed e), record s { requests = suc s.requests })
  ]

  unfoldable pub detach : M Unit
  detach s =
      (request >>= λ _ s'. (ok tt, record s' { attached = false }))
        (record s { detaches = s.requests ∷ s.detaches })

  -- An error, after a detach whose own error is dropped.
  unfoldable pub give_up : Error → M Unit
  unfolding detach
  give_up e s = (err e, (detach s).1)

  abbrev pub or_give_up : (Error → M Unit) → Result Unit × Machine → Result Unit × Machine
  or_give_up recover (ok _, s) = (ok tt, s)
  or_give_up recover (err e, s) = recover e s

  -- PTRACE_SEIZE, PTRACE_INTERRUPT and the wait for the stop.
  unfoldable pub seize : M Unit
  unfolding give_up
  seize = do request; λ s. or_give_up give_up ((request >> request) (record s { attached = true }))

  abbrev follow_status : WaitStatus → M Unit
  follow_status (stopped _) s = (ok tt, s)
  follow_status status s = (err (bad_stop status), record s { attached = false })

  -- cmd.Start with PTRACE_TRACEME, and the wait for the first stop.
  unfoldable pub start_and_follow_child : M Unit
  start_and_follow_child = do
    request
    λ s.
        (request >>= λ _ s'. follow_status (env.status s'.requests) s')
          (record s { attached = true })

  unfoldable pub get_regs : M Regs
  get_regs = do request; λ s. (ok s.regs, s)

  unfoldable pub set_regs : Regs → M Unit
  set_regs r = do request; λ s. (ok tt, record s { regs = r })

  -- The tracee runs until it stops again; the stop is reported by `wait`.
  unfoldable pub cont : M Unit
  cont = do
    request
    λ s. let (mem, regs) = env.run s in (ok tt, record s { mem = mem; regs = regs })

  unfoldable pub wait : M WaitStatus
  wait = do request; λ s. (ok (env.status s.requests), s)

  unfoldable pub poke_text : ℕ → List ℕ → M Unit
  poke_text addr bytes = do request; λ s. (ok tt, record s { mem = write s.mem addr bytes })

  unfoldable pub set_options : M Unit
  set_options = request

  unfoldable pub read_mem : ℕ → ℕ → M (List ℕ)
  read_mem addr n = do request; λ s. (ok (read n s.mem addr), s)

  unfoldable pub write_mem : ℕ → List ℕ → M Unit
  write_mem addr bytes = do request; λ s. (ok tt, record s { mem = write s.mem addr bytes })
