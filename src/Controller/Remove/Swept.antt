-- ===== src/Controller/Remove/Swept.antt =====
-- Which timeshifts sweepExpired of cmd/controller/controller.go leaves in the registry.
use epochd.Base.{
  ◌≡◌, ◌≢◌, ◌⊎◌, refl, ap, ◌∙◌, String, Bool, true, false, not, Option, none, some, [], ◌∷◌,
  if◌then◌else◌, str_eq_iff, arith, keep, some_pass, Bool-cases, inl, inr,
}
use epochd.Base.Int.{ltb_ℤ, eqb_ℤ, eq_of_parts}
use epochd.Clock.{Time, zero_time}
use epochd.Controller.{Timeshift, Timeshifts, Controller, persist}
use epochd.Controller.Registry.{lookup, HasUniqueKeys}
use epochd.Controller.Remove.{is_expired, expire_all, sweep_expired}
use epochd.Controller.Remove.Deleted.{persist_same}

-- The time to live is over: it has an end, and the clock reads a later time.
abbrev pub IsOver : Time → Timeshift → Type 0
IsOver now s = (s.expires_at ≢ zero_time) × (ltb_ℤ s.expires_at now ≡ true)

-- The time to live has no end, or the clock does not read a later time.
abbrev pub IsCurrent : Time → Timeshift → Type 0
IsCurrent now s = (s.expires_at ≡ zero_time) ⊎ (ltb_ℤ s.expires_at now ≡ false)

-- What a lookup gives once the timeshifts whose time is over are gone.
abbrev pub IsSwept : Time → Option Timeshift → Option Timeshift → Type 0
IsSwept now none o = o ≡ none
IsSwept now (some s) o = (IsOver now s × (o ≡ none)) ⊎ (IsCurrent now s × (o ≡ some s))

-- The same by the test of the code.
abbrev unexpired : Time → String → Option Timeshift → Option Timeshift
unexpired now id none = none
unexpired now id (some s) = if is_expired now (id, s) then none else some s

lookup-keep :
    (now : Time) (id : String) (m : Timeshifts)
    → HasUniqueKeys m
    → lookup id (keep (λ e. not (is_expired now e)) m) ≡ unexpired now id (lookup id m)
unfolding lookup
lookup-keep now id [] u = refl
lookup-keep now id ((j, s) ∷ m) (fresh, u) =
    ground (arith, str_eq_iff j id, fresh, lookup-keep now id m u)

expire_all-timeshifts :
    (expired : Timeshifts) (c : Controller) → (expire_all expired c).timeshifts ≡ c.timeshifts
unfolding expire_all
expire_all-timeshifts [] c = refl
expire_all-timeshifts (e ∷ es) c = expire_all-timeshifts es _

sweep_expired-unexpired :
    (flush_ok : Bool) (now : Time) (c : Controller) (id : String)
    → HasUniqueKeys c.timeshifts
    → lookup id (sweep_expired flush_ok now c).timeshifts
      ≡ unexpired now id (lookup id c.timeshifts)
unfolding sweep_expired
sweep_expired-unexpired flush_ok now c id u =
    let left = record c { timeshifts = keep (λ e. not (is_expired now e)) c.timeshifts } in
    let (shifts, _, _) = persist_same flush_ok left in
    let kept = lookup-keep now id c.timeshifts u in
    elim (Bool-cases (some_pass (is_expired now) c.timeshifts)) [
      | inl any ↦ rw any (
          ap (lookup id) (
            expire_all-timeshifts (keep (is_expired now) c.timeshifts) (persist flush_ok left)
            ∙ shifts)
          ∙ kept)
      | inr none_left ↦
          rw none_left (
            ap (lookup id) (expire_all-timeshifts (keep (is_expired now) c.timeshifts) left) ∙ kept)
    ]

unexpired-IsSwept :
    (now : Time) (id : String) (o : Option Timeshift) → IsSwept now o (unexpired now id o)
unexpired-IsSwept now id none = refl
unexpired-IsSwept now id (some s) = elim (Bool-cases (eqb_ℤ s.expires_at zero_time)) [
  | inl never ↦ inr (inl (eq_of_parts _ _ (ground (arith, never))), ground (arith, never))
  | inr ends ↦ elim (Bool-cases (ltb_ℤ s.expires_at now)) [
    | inl over ↦ inl (((λ e. ground (arith, ends, e)), over), ground (arith, ends, over))
    | inr early ↦ inr (inr early, ground (arith, ends, early))
  ]
]

-- In a registry without a repeated id, a lookup after sweepExpired gives nothing where it gave a timeshift
-- whose expiry is not the zero time and lies before `now`, and what it gave otherwise.
pub lookup-sweep_expired :
    (flush_ok : Bool) (now : Time) (c : Controller) (id : String)
    → HasUniqueKeys c.timeshifts
    → IsSwept now (lookup id c.timeshifts) (lookup id (sweep_expired flush_ok now c).timeshifts)
lookup-sweep_expired flush_ok now c id u =
    rw (sweep_expired-unexpired flush_ok now c id u)
      (unexpired-IsSwept now id (lookup id c.timeshifts))
