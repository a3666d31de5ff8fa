-- ===== src/Faketime/Heap/Survivors.antt =====
-- The results of the calls on a list of handles: appending lists, and the handles that stay.
use epochd.Base.{
  ℕ, ◌≡◌, refl, ap, ◌⊎◌, inl, inr, Bool, true, false, not, List, [], ◌∷◌, ◌++◌, map, arith, All,
  Bool-cases, keep, some_pass, ◌==◌,
}
use epochd.Procmem.{Result, ok, err}
use epochd.Faketime.Heap.{Heap, Action, run_on, run_all, is_gone, remaining, gone}

-- The reference is in the list.
abbrev pub listed : List ℕ → ℕ → Bool
listed dead r = some_pass (λ d. d == r) dead

listed_cons :
    (d : ℕ) (dead rs : List ℕ)
    → All (λ r. listed dead r ≡ true) rs
    → All (λ r. listed (d ∷ dead) r ≡ true) rs
listed_cons d dead [] a = tt
listed_cons d dead (r ∷ rs) (e, a) = (ground (arith, e), listed_cons d dead rs a)

pub listed_self : (dead : List ℕ) → All (λ r. listed dead r ≡ true) dead
listed_self [] = tt
listed_self (d ∷ dead) = (ground arith, listed_cons d dead dead (listed_self dead))

found_right : {A : Type 0} (b : Bool) → (b ≡ true) ⊎ A → b ≡ false → A
found_right b (inr a) e = a
found_right b (inl t) e = absurd (ground (arith, t, e))

-- The handles that stay: none of their calls found its process gone.
pub live_All :
    (P : ℕ → Type 0) (dead : List ℕ) (results : List (ℕ × Result Unit))
    → All (λ p. (is_gone p.1 ≡ true) ⊎ P p.0) results
    → All (λ r. listed dead r ≡ true) (gone results)
    → All P (keep (λ r. not (listed dead r)) (map (λ p. p.0) results))
unfolding gone
live_All P dead [] a g = tt
live_All P dead ((r, result) ∷ results) (first, a) g = elim (Bool-cases (is_gone result)) [
  | inl lost ↦
      let (here, rest) : (listed dead r ≡ true) × All (λ r. listed dead r ≡ true) (gone results) =
        rw lost at g in
      rw here (live_All P dead results a rest)
  | inr found ↦
      let rest : All (λ r. listed dead r ≡ true) (gone results) = rw found at g in
      let later = live_All P dead results a rest in
      elim (Bool-cases (listed dead r)) [
        | inl here ↦ rw here later
        | inr absent ↦ rw absent (found_right (is_gone result) first found, later)
      ]
]

pub map-run_all :
    (act : Action) (rs : List ℕ) (heap : Heap) → map (λ p. p.0) (run_all act rs heap).0 ≡ rs
unfolding run_all
map-run_all act [] heap = refl
map-run_all act (r ∷ rs) heap = ap (λ l. r ∷ l) (map-run_all act rs _)

pub run_all-append :
    (act : Action) (rs js : List ℕ) (heap : Heap)
    → run_all act (rs ++ js) heap ≡ (
      (run_all act rs heap).0 ++ (run_all act js (run_all act rs heap).1).0,
      (run_all act js (run_all act rs heap).1).1,
    )
unfolding run_all
run_all-append act [] js heap = refl
run_all-append act (r ∷ rs) js heap =
    ap (λ p. ((r, (run_on act r heap).0) ∷ p.0, p.1))
      (run_all-append act rs js (run_on act r heap).1)

pub remaining-append :
    (xs ys : List (ℕ × Result Unit)) → remaining (xs ++ ys) ≡ remaining xs ++ remaining ys
unfolding remaining
remaining-append [] ys = refl
remaining-append ((r, ok u) ∷ xs) ys = remaining-append xs ys
remaining-append ((r, err e) ∷ xs) ys = elim (Bool-cases (is_gone (err e))) [
  | inl lost ↦ rw (lost, remaining) (remaining-append xs ys)
  | inr left ↦ rw (left, remaining) (ap (λ l. e ∷ l) (remaining-append xs ys))
]

pub All-split :
    {A : Type 0} (P : A → Type 0) (xs ys : List A) → All P (xs ++ ys) → All P xs × All P ys
All-split P [] ys a = (tt, a)
All-split P (x ∷ xs) ys (first, a) = let (l, r) = All-split P xs ys a in ((first, l), r)
