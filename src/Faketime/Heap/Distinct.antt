-- ===== src/Faketime/Heap/Distinct.antt =====
-- Calls on a list of different handles (pkg/faketime/faketime.go).
use epochd.Base.{ℕ, ◌≡◌, ◌≢◌, refl, ◌∙◌, ◌⊎◌, inl, inr, List, [], ◌∷◌, arith, All, true, Bool-cases}
use epochd.Procmem.{Machine, Result, ok, err}
use epochd.Faketime.{Handle}
use epochd.Faketime.Heap.{Heap, Action, run_on, run_all, is_gone, remaining, store}

-- No reference stands twice in the list.
abbrev pub IsDistinct : List ℕ → Type 0
IsDistinct [] = Unit
IsDistinct (r ∷ rs) = All (λ j. j ≢ r) rs × IsDistinct rs

store_same : {A : Type 0} (k : ℕ) (a : A) (f : ℕ → A) → store k a f k ≡ a
store_same k a f = ground arith

remaining-nil :
    (r : ℕ) (result : Result Unit) (results : List (ℕ × Result Unit))
    → remaining ((r, result) ∷ results) ≡ []
    → ((is_gone result ≡ true) ⊎ (result ≡ ok tt)) × (remaining results ≡ [])
unfolding remaining
remaining-nil r (ok tt) results e = (inr refl, e)
remaining-nil r (err x) results e = elim (Bool-cases (is_gone (err x))) [
  | inl lost ↦ (inl lost, ground (arith, lost, e))
  | inr live ↦ ground (arith, live, e)
]

module _ (act : Action) where
  pub run_all-others :
      (rs : List ℕ) (heap : Heap) (r : ℕ)
      → All (λ j. j ≢ r) rs
      → (run_all act rs heap).1.handles r ≡ heap.handles r
  unfolding run_all run_on
  run_all-others [] heap r others = refl
  run_all-others (j ∷ rs) heap r (ne, others) =
      run_all-others rs (run_on act j heap).1 r others ∙ ground (arith, ne)

  module _ (P : ℕ → Handle → Type 0)
      (lands : (r : ℕ) (h : Handle) (s : Machine)
        → (act r h s).result ≡ ok tt
        → P r (act r h s).handle) where
    -- What the call of the handle left, for a call that succeeded.
    abbrev pub IsSettled : Heap → ℕ × Result Unit → Type 0
    IsSettled heap (r, result) = (is_gone result ≡ true) ⊎ P r (heap.handles r)

    pub run_all-IsSettled :
        (rs : List ℕ) (heap : Heap)
        → IsDistinct rs
        → remaining (run_all act rs heap).0 ≡ []
        → All (IsSettled (run_all act rs heap).1) (run_all act rs heap).0
    unfolding run_all run_on
    run_all-IsSettled [] heap d e = tt
    run_all-IsSettled (r ∷ rs) heap (fresh, d) e =
        let (result, heap') = run_on act r heap in
        let (first, rest) = remaining-nil r result _ e in
        let later = run_all-IsSettled rs heap' d rest in
        let kept = run_all-others rs heap' r fresh in
        elim first [
          | inl lost ↦ (inl lost, later)
          | inr done ↦ (
            inr (rw (kept, store_same r _ heap.handles) (lands r (heap.handles r) _ done)),
            later,
          )
        ]
