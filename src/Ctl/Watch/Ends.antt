-- ===== src/Ctl/Watch/Ends.antt =====
-- The end of runWatchLoop of cmd/faketimectl/cmds_run.go.
use epochd.Base.{
  ℕ, zero, suc, ◌+◌, ◌<◌, ◌≡◌, refl, ap, ◌∙◌, ◌⊎◌, inl, inr, true, Option, none, some, [], ◌∷◌,
  ◌++◌, map, arith, Bool-cases,
}
use epochd.Procmem.{Env, Errno}
use epochd.Faketime.Tracker.{detach_all, interrupt_detach}
use epochd.Ctl.Watch.{
  Settings, Loop, Round, detach_children, Turn, ended, again, turn, run_watch_loop,
}

Turn-cases : (t : Turn) → ((e : Option Errno) × (t ≡ ended e)) ⊎ ((lp : Loop) × (t ≡ again lp))
Turn-cases (ended e) = inl (e, refl)
Turn-cases (again lp) = inr (lp, refl)

-- runWatchLoop returns: where `done` is closed by the round `k + n`, `n + 1` rounds from `k` on are enough, and the
-- last requests that it makes are the detach of all children that it follows then and the detach of the parent.
pub run_watch_loop-returns :
    (env : ℕ → Env) (cfg : Settings) (rounds : ℕ → Round) (fuel n k : ℕ) (lp : Loop)
    → (rounds (k + n)).closed ≡ true
    → n < fuel
    → (e : Option Errno) × (last : Loop) × (run_watch_loop env cfg rounds fuel k lp
        ≡ some (
          e,
          record last {
            requests =
                (last.requests ++ detach_all (map (λ c. c.0) last.child_handles) ∷ [])
                ++ interrupt_detach ∷ [];
          },
        ))
unfolding run_watch_loop detach_children
run_watch_loop-returns env cfg rounds zero n k lp closed enough = ground arith
run_watch_loop-returns env cfg rounds (suc fuel) zero k lp closed enough =
    let over : (rounds k).closed ≡ true =
      ap (λ (i : ℕ). (rounds i).closed) (omega arith) ∙ closed in
    rw (over, run_watch_loop) (none, lp, refl)
run_watch_loop-returns env cfg rounds (suc fuel) (suc n) k lp closed enough =
    let later : (rounds (suc k + n)).closed ≡ true =
      ap (λ (i : ℕ). (rounds i).closed) (omega arith) ∙ closed in
    elim (Bool-cases (rounds k).closed) [
      | inl over ↦ rw (over, run_watch_loop) (none, lp, refl)
      | inr going ↦
          rw (going, run_watch_loop)
            (elim (Turn-cases (turn env cfg (rounds k).waited lp)) [
              | inl (e, over) ↦ rw over (e, lp, refl)
              | inr (lp', on) ↦ rw on (
                  run_watch_loop-returns env cfg rounds fuel n (suc k) lp' later
                    (omega (arith, enough)))
            ])
    ]
