-- ===== src/Examples/Stored.antt =====
-- The theorem on the store, at a marshaller that knows one list.
use epochd.Base.{
  ℕ, ◌≡◌, ◌≢◌, refl, sym, ap, Bool, true, false, ◌&&◌, Option, none, some, List, [], ◌∷◌, arith,
  str_eq, str_eq_iff, if◌then◌else◌,
}
use epochd.Base.Int.{ℤ, pos, eqb_ℤ}
use epochd.Controller.{Timeshift, Controller}
use epochd.Controller.Registry.{lookup}
use epochd.Controller.Store.{StoredTimeshift, Json, Api, store_timeshift, encode, flush, restore}
use epochd.Controller.Store.Restart.{IsFaithful, restore-flush}
use epochd.Controller.Invariant.{IsWellFormed}
use epochd.Examples.{target, now}
use epochd.Examples.Control.{controller, shift}

abbrev plain : StoredTimeshift
plain = record {
  id = "a";
  namespace = "prod";
  label_selector = "app=web";
  offset = pos 0;
  frozen_at = target;
  frozen = true;
  ttl = pos 60;
  expires_at = now;
  created_at = now;
  handles = [];
}

-- A marshaller that knows one list: that of the timeshift `plain`.
unfoldable is_plain : StoredTimeshift → Bool
is_plain s =
    elim s.handles [ [] ↦ true | _ ↦ false ]
    && (str_eq s.id "a"
        && (str_eq s.namespace "prod"
            && (str_eq s.label_selector "app=web"
                && (eqb_ℤ s.offset (pos 0)
                    && (eqb_ℤ s.frozen_at target
                        && (s.frozen
                            && (eqb_ℤ s.ttl (pos 60)
                                && (eqb_ℤ s.expires_at now && eqb_ℤ s.created_at now))))))))

eqb_ℤ-sound : (a b : ℤ) → eqb_ℤ a b ≡ true → a ≡ b
eqb_ℤ-sound a b e = ground (arith, e)

both : (a b : Bool) → a && b ≡ true → (a ≡ true) × (b ≡ true)
both a b e = ground (arith, e)

is_plain_sound : (s : StoredTimeshift) → is_plain s ≡ true → s ≡ plain
unfolding is_plain
is_plain_sound s e = ground (
  arith,
  e,
  str_eq_iff s.id "a",
  str_eq_iff s.namespace "prod",
  str_eq_iff s.label_selector "app=web",
  eqb_ℤ-sound s.offset (pos 0),
  eqb_ℤ-sound s.frozen_at target,
  eqb_ℤ-sound s.ttl (pos 60),
  eqb_ℤ-sound s.expires_at now,
  eqb_ℤ-sound s.created_at now,
)

unfoldable marshal : List StoredTimeshift → Option (List ℕ)
unfolding is_plain
marshal [] = none
marshal (s ∷ []) = if is_plain s then some (1 ∷ []) else none
marshal (s ∷ s' ∷ rest) = none

abbrev json : Json
json = record { marshal = marshal; unmarshal = λ bytes. some (plain ∷ []) }

reads_back :
    (sts : List StoredTimeshift) (bytes : List ℕ)
    → marshal sts ≡ some bytes
    → some (plain ∷ []) ≡ some sts
unfolding marshal
reads_back [] bytes e = ground (arith, e)
reads_back (s ∷ []) bytes e = ap (λ s'. some (s' ∷ [])) (sym (is_plain_sound s (ground (arith, e))))
reads_back (s ∷ s' ∷ rest) bytes e = ground (arith, e)

nonempty : (sts : List StoredTimeshift) → marshal sts ≢ some []
unfolding marshal
nonempty [] e = ground (arith, e)
nonempty (s ∷ []) e = ground (arith, e)
nonempty (s ∷ s' ∷ rest) e = ground (arith, e)

abbrev faithful : IsFaithful json
faithful = record { reads_back = reads_back; nonempty = nonempty }

abbrev sound : Api
sound = record { get_fails = false; create_fails = false; update_fails = false }

abbrev unhandled : Timeshift
unhandled = record shift { handles = []; expires_at = now }

abbrev restarted : Controller
restarted = record controller { timeshifts = []; met = record controller.met { active = pos 0 } }

restore-flush_example :
    ((restore json sound (some (("state", 1 ∷ []) ∷ [])) restarted).timeshifts
      ≡ ("a", unhandled) ∷ [])
    × IsWellFormed (restore json sound (some (("state", 1 ∷ []) ∷ [])) restarted)
unfolding lookup encode marshal is_plain store_timeshift flush
restore-flush_example =
    restore-flush json faithful sound sound (("a", unhandled) ∷ []) (1 ∷ []) none
      (some (("state", 1 ∷ []) ∷ [])) restarted (refl, tt)
      (
        record { named = refl; frozen_offset = λ e. refl; advancing_at = λ e. ground (arith, e) },
        tt,
      )
      refl refl refl refl refl refl
