-- ===== src/Faketime/Tracker/Ends.antt =====
-- The end of watchLoop of pkg/faketime/faketime.go.
use epochd.Base.{
  ℕ, zero, suc, ◌+◌, ◌<◌, ◌≡◌, refl, ap, ◌∙◌, ◌⊎◌, inl, inr, true, some, List, [], ◌∷◌, arith,
  Bool-cases,
}
use epochd.Procmem.{Env}
use epochd.Faketime.Tracker.{State, tracked_pids}
use epochd.Faketime.Tracker.Update.{Round, poll_all, watch}

List-cases : (xs : List ℕ) → (xs ≡ []) ⊎ ((x : ℕ) × (rest : List ℕ) × (xs ≡ x ∷ rest))
List-cases [] = inl refl
List-cases (x ∷ rest) = inr (x, rest, refl)

-- Where the tracker is closed by the round `k + n`, `n + 1` rounds from `k` on are enough.
pub watch-returns :
    (env : ℕ → Env) (rounds : ℕ → Round) (fuel n k : ℕ) (st : State)
    → (rounds (k + n)).closed ≡ true
    → n < fuel
    → (st' : State) × (watch env rounds fuel k st ≡ some st')
unfolding watch
watch-returns env rounds zero n k st closed enough = ground arith
watch-returns env rounds (suc fuel) zero k st closed enough =
    let over : (rounds k).closed ≡ true =
      ap (λ (i : ℕ). (rounds i).closed) (omega arith) ∙ closed in
    rw (over, watch) (_, refl)
watch-returns env rounds (suc fuel) (suc n) k st closed enough =
    let ps = tracked_pids st.tracker in
    let later : (rounds (suc k + n)).closed ≡ true =
      ap (λ (i : ℕ). (rounds i).closed) (omega arith) ∙ closed in
    let (st', again) =
      watch-returns env rounds fuel n (suc k) (poll_all env (rounds k) ps st) later
        (omega (arith, enough)) in
    elim (Bool-cases (rounds k).closed) [
      | inl over ↦ rw (over, watch) (_, refl)
      | inr going ↦ elim (List-cases ps) [
        | inl none_left ↦ rw (going, none_left, watch) (_, refl)
        | inr (p, rest, some_left) ↦ rw (going, some_left, watch) (st', again)
      ]
    ]
