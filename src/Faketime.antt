-- ===== src/Faketime.antt =====
-- The Handle of pkg/faketime/faketime.go: a process's injection together with the time that it
-- is meant to show. Each reading of the clock is an argument.
pub mod Shown
pub mod Heap
pub mod Tracker
pub mod Session
pub mod Launch
use epochd.Base.{ℕ, Bool, true, false, if◌then◌else◌}
use epochd.Base.Int.{ℤ, pos}
use epochd.Clock.{Time, Duration, zero_time, add, sub}
use epochd.Procmem.{Env, Machine, Result, ok, err}
use epochd.Inject.Handle as Hook

pub record Handle : Type 0 where
  pub h : Hook.Handle
  pub offset : Duration
  pub frozen_at : Time
  pub frozen : Bool

-- newAdvancingHandle, at the reading `now` of the clock
unfoldable pub new_advancing_handle : Hook.Handle → Time → Time → Handle
new_advancing_handle h now target = record {
  h = h;
  offset = sub target now;
  frozen_at = zero_time;
  frozen = false;
}

-- newFrozenHandle
unfoldable pub new_frozen_handle : Hook.Handle → Time → Handle
new_frozen_handle h target = record { h = h; offset = pos 0; frozen_at = target; frozen = true }

-- effectiveTime, at the reading `now` of the clock
unfoldable pub effective_time : Handle → Time → Time
effective_time h now = if h.frozen then h.frozen_at else add now h.offset

-- What a method leaves behind: the handle, its error and the machine.
pub record Updated : Type 0 where
  pub handle : Handle
  pub result : Result Unit
  pub machine : Machine

abbrev settle : Handle → Handle → Hook.Updated → Updated
settle h moved u = record {
  handle = elim u.result [
    | ok _ ↦ record moved { h = u.handle }
    | err _ ↦ record h { h = u.handle }
  ];
  result = u.result;
  machine = u.machine;
}

-- SetTime: `now` is the reading of the clock in the update of the process, `later` that of
-- time.Until.
unfoldable pub set_time : Env → Handle → Time → Time → Time → Machine → Updated
set_time env h now later target s =
    settle h (record h { offset = sub target later; frozen_at = zero_time; frozen = false })
      (Hook.set_time env h.h now target s)

-- Freeze
unfoldable pub freeze : Env → Handle → Time → Machine → Updated
freeze env h target s =
    settle h (record h { frozen_at = target; offset = pos 0; frozen = true })
      (Hook.freeze env h.h target s)

-- Advance: `early` is its own reading of the clock.
unfoldable pub advance : Env → Handle → Time → Time → Time → Duration → Machine → Updated
unfolding effective_time set_time freeze
advance env h early now later d s =
    let target = add (effective_time h early) d in
    let fake = freeze env h target s in
    let moving = set_time env h now later target s in if h.frozen then fake else moving

-- Reset
unfoldable pub reset : Env → Handle → Time → Time → Time → Machine → Updated
unfolding set_time
reset env h early now later s = set_time env h now later early s
