-- ===== src/Controller/Update/Effective.antt =====
-- What a timeshift shows after updateTimeshift and advanceTimeshift of
-- cmd/controller/controller.go, through effectiveTime.
use epochd.Base.{
  Bool-cases, inl, inr, ℕ, List, ◌≡◌, ◌≢◌, refl, ap, String, Bool, true, false, some, str_eq_iff,
  arith,
}
use epochd.Base.Int.{pos_part, neg_part, ◌+ℤ◌, ◌-ℤ◌, int_laws, +ℤ_parts}
use epochd.Base.Word.{IsInt64, signed64-word_of}
use epochd.Clock.{Time, Duration, add, sub, add-sub}
use epochd.Controller.{
  ContainerHandle, Timeshift, Agents, Controller, Result, ok, persist, effective_time,
}
use epochd.Controller.Registry.{lookup, insert, lookup-insert}
use epochd.Controller.Update.{retarget, advanced_target, update_timeshift, advance_timeshift}

-- `c'` holds `s'` under `id`, and every other timeshift as `c` holds it.
pub record IsStored (c : Controller) (id : String) (s' : Timeshift) (c' : Controller) : Type 0 where
  pub here : lookup id c'.timeshifts ≡ some s'
  pub others : (j : String) → id ≢ j → lookup j c'.timeshifts ≡ lookup j c.timeshifts

-- The timeshift shows `target` at the instant `now`, in the mode `freeze`, and then stands still or
-- goes with the clock.
pub record IsShowing (s : Timeshift) (freeze : Bool) (now target : Time) : Type 0 where
  pub mode : s.frozen ≡ freeze
  pub still : s.frozen ≡ true → (d : Duration) → effective_time s (now +ℤ d) ≡ target
  pub moving : s.frozen ≡ false → (d : Duration) → effective_time s (now +ℤ d) ≡ target +ℤ d

pub persist-timeshifts : (b : Bool) (c : Controller) → (persist b c).timeshifts ≡ c.timeshifts
unfolding persist
persist-timeshifts b c = ground arith

-- A successful answer `shift`, which the registry holds and which shows `target`.
pub record IsUpdate (c : Controller) (id : String) (freeze : Bool) (now target : Time)
    (r : Result Timeshift × Controller) : Type 0 where
  pub shift : Timeshift
  pub answer : r.0 ≡ ok shift
  pub stored : IsStored c id shift r.1
  pub showing : IsShowing shift freeze now target

moves :
    (now target : Time) (d : Duration)
    → IsInt64 (target -ℤ now)
    → add (now +ℤ d) (sub target now) ≡ target +ℤ d
moves now target d h = omega (
  int_laws,
  ap pos_part (add-sub target now h),
  ap neg_part (add-sub target now h),
  +ℤ_parts (now +ℤ d) (sub target now),
  +ℤ_parts now (sub target now),
  +ℤ_parts now d,
  +ℤ_parts target d,
)

module _ (agents : Agents) (flush_ok : Bool) (now : Time) (id : String) (c : Controller) where
  retarget-IsShowing :
      (hs : List ContainerHandle) (us : List (ℕ × String)) (target : Time) (freeze : Bool)
      (s : Timeshift)
      → IsInt64 (target -ℤ now)
      → IsShowing (retarget hs us target freeze now s) freeze now target
  unfolding retarget effective_time
  retarget-IsShowing hs us target true s h = record {
    mode = refl;
    still = λ _ d. refl;
    moving = λ e d. ground arith;
  }
  retarget-IsShowing hs us target false s h = record {
    mode = refl;
    still = λ e d. ground arith;
    moving = λ _ d. moves now target d h;
  }

  advanced_target_eq :
      (s : Timeshift) (earlier : Time) (delta : Duration)
      → IsInt64 (s.offset +ℤ delta)
      → advanced_target earlier delta s ≡ add (effective_time s earlier) delta
  unfolding advanced_target effective_time
  advanced_target_eq s earlier delta h = elim (Bool-cases s.frozen) [
    | inl frozen ↦ rw frozen refl
    | inr moving ↦ rw moving (rw (signed64-word_of _ h) (omega int_laws))
  ]

  insert-IsStored :
      (s' : Timeshift) (c' : Controller)
      → c'.timeshifts ≡ insert id s' c.timeshifts
      → IsStored c id s' c'
  insert-IsStored s' c' e = record {
    here = rw e (ground (arith, lookup-insert id id s' c.timeshifts, str_eq_iff id id));
    others = λ j ne. rw e (ground (arith, lookup-insert id j s' c.timeshifts, str_eq_iff id j));
  }

  -- updateTimeshift of an id that the registry holds succeeds, and stores under that id, and no
  -- other, a timeshift in the mode `freeze` that shows `target` at `now`, the reading of the clock
  -- after the calls: for a target within the range of a Duration from now.
  pub update_timeshift-IsUpdate :
      (s : Timeshift)
      → lookup id c.timeshifts ≡ some s
      → (target : Time) (freeze : Bool) → IsInt64 (target -ℤ now)
      → IsUpdate c id freeze now target (update_timeshift agents flush_ok now id target freeze c)
  unfolding update_timeshift
  update_timeshift-IsUpdate s there target freeze h =
      rw (there, update_timeshift)
        (record {
          shift = _;
          answer = refl;
          stored = insert-IsStored _ _ (persist-timeshifts flush_ok _);
          showing = retarget-IsShowing _ _ target freeze s h;
        })

  -- advanceTimeshift of a frozen timeshift with `freeze` false succeeds and turns it into an
  -- advancing one, which shows the frozen time plus `delta` at `now` and goes on from there: for
  -- a target within the range of a Duration from now.
  pub advance_timeshift-drops_frozen :
      (s : Timeshift)
      → lookup id c.timeshifts ≡ some s
      → s.frozen ≡ true
      → (earlier : Time) (delta : Duration) → IsInt64 (add s.frozen_at delta -ℤ now)
      → IsUpdate c id false now
          (add s.frozen_at delta)
          (advance_timeshift agents flush_ok earlier now id delta false c)
  unfolding advance_timeshift advanced_target
  advance_timeshift-drops_frozen s there frozen earlier delta h =
      rw (there, advance_timeshift) (rw frozen (update_timeshift-IsUpdate s there _ false h))

  -- advanceTimeshift of an id that the registry holds, asked to keep the mode, succeeds and
  -- stores a timeshift in that mode that shows, at the last reading of the clock, what it showed
  -- at the first reading plus `delta`: for a sum of offset and `delta` in int64 and a target
  -- within the range of a Duration from now.
  pub advance_timeshift-IsUpdate :
      (s : Timeshift)
      → lookup id c.timeshifts ≡ some s
      → (earlier : Time) (delta : Duration) → IsInt64 (s.offset +ℤ delta)
      → IsInt64 (add (effective_time s earlier) delta -ℤ now)
      → IsUpdate c id s.frozen now
          (add (effective_time s earlier) delta)
          (advance_timeshift agents flush_ok earlier now id delta s.frozen c)
  unfolding advance_timeshift
  advance_timeshift-IsUpdate s there earlier delta ho h =
      rw (there, advance_timeshift)
        (rw (advanced_target_eq s earlier delta ho)
          (update_timeshift-IsUpdate s there _ s.frozen h))
