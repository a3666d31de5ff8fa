-- ===== src/Inject/Sequence/Detached.antt =====
-- Whether a process is still traced after an injection (pkg/inject/inject.go).
use epochd.Base.{ℕ, suc, List, ◌∷◌, ◌≡◌, ◌≢◌, ◌⊎◌, inl, inr, Option-cases, false, none, arith}
use epochd.Base.Int.{ℤ}
use epochd.Procmem.{
  Env, Machine, Result, ok, err, Error, request, seize, detach, give_up, or_give_up, continue_elim,
}
use epochd.Inject.Sequence.{
  Target, detach_on_error, locate_and_inject, inject_and_resume, inject_core,
  inject_core_keep_tracer,
}

-- The tracee is free, or the kernel refused the last request, which was to let it go.
abbrev pub IsReleased : Env → Machine → Type 0
IsReleased env s =
    (s.attached ≡ false)
    ⊎ ((n : ℕ) × (earlier : List ℕ) × (s.requests ≡ suc n)
        × (s.detaches ≡ n ∷ earlier)
        × (env.fails n ≢ none))

module _ (env : Env) where
  detach-IsReleased : (s : Machine) → IsReleased env (detach env s).1
  unfolding detach
  detach-IsReleased s = elim (Option-cases (env.fails s.requests)) [
    | inl fine ↦ inl (ground arith)
    | inr (e, refused) ↦ inr (s.requests, s.detaches, ground arith, ground arith, ground arith)
  ]

  -- What a failure leaves behind.
  abbrev Clean : {A : Type 0} → Result A × Machine → Type 0
  Clean p = (e : Error) → p.0 ≡ err e → IsReleased env p.1

  request_free : (s : Machine) → s.attached ≡ false → (request env s).1.attached ≡ false
  request_free s free = ground arith

  or_give_up-Clean : (r : Result Unit × Machine) → Clean (or_give_up env (give_up env) r)
  unfolding give_up
  or_give_up-Clean (ok _, s) e h = cc
  or_give_up-Clean (err x, s) e h = detach-IsReleased s

  -- A failed seize lets go of what it had taken.
  seize-Clean : (s : Machine) → s.attached ≡ false → Clean (seize env s)
  unfolding seize
  seize-Clean s free =
      continue_elim Clean _ (request env s).0 (request env s).1
        (λ e _ x _. inl (request_free s free)) (λ _. or_give_up-Clean _)

  -- After injectCore of a process that was not traced, the process is not traced, whatever the
  -- outcome, unless the kernel refused the last request, the detach itself.
  pub inject_core-IsReleased :
      (t : Target) (sec nsec : ℤ) (mask : ℕ) (s : Machine)
      → s.attached ≡ false
      → IsReleased env (inject_core env t sec nsec mask s).1
  unfolding inject_core
  inject_core-IsReleased t sec nsec mask s free =
      continue_elim (λ p. IsReleased env p.1) _ (seize env s).0 (seize env s).1
        (λ e failed. seize-Clean s free e failed)
        (λ _. detach-IsReleased (locate_and_inject env t sec nsec mask (seize env s).1).1)

  detach_on_error-Clean :
      {A : Type 0} (t : Target) (r : Result A × Machine) → Clean (detach_on_error env t r)
  detach_on_error-Clean t (ok a, s) e h = cc
  detach_on_error-Clean t (err x, s) e h = detach-IsReleased s

  -- Where injectCoreKeepTracer fails for a process that was not traced, the process is not
  -- traced, unless the kernel refused the last request, the detach itself.
  pub inject_core_keep_tracer-IsReleased :
      (t : Target) (sec nsec : ℤ) (mask : ℕ) (s : Machine) (e : Error)
      → s.attached ≡ false
      → (inject_core_keep_tracer env t sec nsec mask s).0 ≡ err e
      → IsReleased env (inject_core_keep_tracer env t sec nsec mask s).1
  unfolding inject_core_keep_tracer
  inject_core_keep_tracer-IsReleased t sec nsec mask s e free =
      continue_elim Clean _ (seize env s).0 (seize env s).1
        (λ e' failed x _. seize-Clean s free e' failed)
        (λ _. detach_on_error-Clean t (inject_and_resume env t sec nsec mask (seize env s).1)) e
