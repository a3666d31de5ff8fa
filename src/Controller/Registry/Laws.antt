-- ===== src/Controller/Registry/Laws.antt =====
-- The map of timeshifts (cmd/controller/controller.go): unique keys, sizes and predicates on the
-- entries, through insertion, removal and a filter.
use epochd.Base.{
  Bool-cases, inl, inr, ◌+◌, ◌≡◌, refl, String, Bool, not, none, some, List, [], ◌∷◌, str_eq,
  str_eq_iff, arith, length, keep, All,
}
use epochd.Controller.Registry.{lookup, insert, remove, lookup-insert, lookup-remove, HasUniqueKeys}

module _ {ℓ} {V : Type ℓ} where
  pub insert-HasUniqueKeys :
      (k : String) (v : V) (m : List (String × V)) → HasUniqueKeys m → HasUniqueKeys (insert k v m)
  unfolding insert lookup
  insert-HasUniqueKeys k v [] u = (refl, tt)
  insert-HasUniqueKeys k v ((j, w) ∷ m) (fresh, u) = elim (Bool-cases (str_eq j k)) [
    | inl e ↦ rw e (ground (arith, str_eq_iff j k, e, fresh), u)
    | inr ne ↦ rw ne (
      ground (arith, str_eq_iff j k, str_eq_iff k j, lookup-insert k j v m, ne, fresh),
      insert-HasUniqueKeys k v m u,
    )
  ]

  pub remove-HasUniqueKeys :
      (k : String) (m : List (String × V)) → HasUniqueKeys m → HasUniqueKeys (remove k m)
  unfolding remove
  remove-HasUniqueKeys k [] u = tt
  remove-HasUniqueKeys k ((j, w) ∷ m) (fresh, u) = elim (Bool-cases (str_eq j k)) [
    | inl e ↦ rw e (remove-HasUniqueKeys k m u)
    | inr ne ↦ rw ne (ground (arith, lookup-remove k j m, fresh), remove-HasUniqueKeys k m u)
  ]

  lookup-keep :
      (p : String × V → Bool) (k : String) (m : List (String × V))
      → lookup k m ≡ none
      → lookup k (keep p m) ≡ none
  unfolding lookup
  lookup-keep p k [] e = refl
  lookup-keep p k ((j, w) ∷ m) e = ground (arith, lookup-keep p k m)

  pub keep-HasUniqueKeys :
      (p : String × V → Bool) (m : List (String × V)) → HasUniqueKeys m → HasUniqueKeys (keep p m)
  keep-HasUniqueKeys p [] u = tt
  keep-HasUniqueKeys p ((j, w) ∷ m) (fresh, u) = elim (Bool-cases (p (j, w))) [
    | inl e ↦ rw e (lookup-keep p j m fresh, keep-HasUniqueKeys p m u)
    | inr ne ↦ rw ne (keep-HasUniqueKeys p m u)
  ]

  pub length-remove-none :
      (k : String) (m : List (String × V)) → lookup k m ≡ none → length (remove k m) ≡ length m
  unfolding lookup remove
  length-remove-none k [] e = refl
  length-remove-none k ((j, w) ∷ m) e = ground (arith, length-remove-none k m)

  pub length-remove-some :
      (k : String) (v : V) (m : List (String × V))
      → HasUniqueKeys m
      → lookup k m ≡ some v
      → length (remove k m) + 1 ≡ length m
  unfolding lookup remove
  length-remove-some k v [] u e = ground arith
  length-remove-some k v ((j, w) ∷ m) (fresh, u) e =
      ground (arith, str_eq_iff j k, length-remove-none k m, length-remove-some k v m u, fresh)

  pub length-keep :
      (p : String × V → Bool) (m : List (String × V))
      → length (keep p m) + length (keep (λ e. not (p e)) m) ≡ length m
  length-keep p [] = refl
  length-keep p (e ∷ m) = ground (arith, length-keep p m)

  module _ {κ} (P : String × V → Type κ) where
    pub insert-All :
        (k : String) (v : V) (m : List (String × V)) → P (k, v) → All P m → All P (insert k v m)
    unfolding insert
    insert-All k v [] h a = (h, tt)
    insert-All k v ((j, w) ∷ m) h (x, a) = elim (Bool-cases (str_eq j k)) [
      | inl e ↦ rw e (h, a)
      | inr ne ↦ rw ne (x, insert-All k v m h a)
    ]

    pub remove-All : (k : String) (m : List (String × V)) → All P m → All P (remove k m)
    unfolding remove
    remove-All k [] a = tt
    remove-All k ((j, w) ∷ m) (x, a) = elim (Bool-cases (str_eq j k)) [
      | inl e ↦ rw e (remove-All k m a)
      | inr ne ↦ rw ne (x, remove-All k m a)
    ]

    pub keep-All : (p : String × V → Bool) (m : List (String × V)) → All P m → All P (keep p m)
    keep-All p [] a = tt
    keep-All p (e ∷ m) (x, a) = elim (Bool-cases (p e)) [
      | inl y ↦ rw y (x, keep-All p m a)
      | inr n ↦ rw n (keep-All p m a)
    ]

    -- What every entry satisfies, the entry that a lookup finds does.
    pub lookup-All :
        (k : String) (v : V) (m : List (String × V)) → lookup k m ≡ some v → All P m → P (k, v)
    unfolding lookup
    lookup-All k v [] e a = ground arith
    lookup-All k v ((j, w) ∷ m) e (x, a) = ground (arith, str_eq_iff j k, lookup-All k v m, e, x, a)
