-- ===== src/Trampoline/Reads.antt =====
-- What a process reads through the hooks, in each mode of the state struct.
use epochd.Base.{
  ℕ, ◌+◌, ◌-◌, ◌%◌, ◌/◌, ◌^◌, ◌<◌, ◌≤◌, ◌≡◌, ◌≢◌, refl, ◌∙◌, Bool, true, Option, none, some, arith,
  ◌==◌, ◌||◌,
}
use epochd.Base.Int.{ℤ, pos, negsuc, ◌+ℤ◌, ◌*ℤ◌, ◌≤ℤ◌}
use epochd.Base.Word.{IsInt64, word_of, word_of-lt, signed64, signed64-word_of}
use epochd.Clock.{Time, unix, nanosecond, nanosecond-lt, second}
use epochd.Memory.{Memory}
use epochd.Trampoline.{mask_enabled, mask_frozen}
use epochd.Trampoline.Installed.{Holds}
use epochd.Trampoline.Hooks.{
  Timespec, Kernel, add_normalised, normalise, idiv_1000, clock_gettime_entry, gettimeofday_entry,
  time_entry,
}
use epochd.Trampoline.Advancing.{
  instant, IsReading, IsOffset, HasRoom, add_normalised-lt, instant-add_normalised,
}

-- The clocks that the hooks intercept: CLOCK_REALTIME and CLOCK_REALTIME_COARSE.
abbrev pub is_wall_clock : ℕ → Bool
is_wall_clock clk_id = clk_id == 0 || clk_id == 5

-- An offset as the injector computes it: int64 seconds and less than a second beside them.
pub record IsSplit (sec nsec : ℤ) : Type 0 where
  pub sec_int64 : IsInt64 sec
  pub low : negsuc (second - 2) ≤ℤ nsec
  pub high : nsec ≤ℤ pos (second - 1)

module _ (kernel : Kernel) (m : Memory) (state : ℕ) (sec nsec : ℤ) (gen : ℕ)
    (split : IsSplit sec nsec) where
  nsec_signed : signed64 (word_of nsec) ≡ nsec
  nsec_signed =
      signed64-word_of nsec
        (record { low = omega (arith, split.low); high = omega (arith, split.high) })

  offset : IsOffset second (word_of sec) (word_of nsec)
  offset = record {
    sec_word = word_of-lt sec;
    sub_word = word_of-lt nsec;
    low = rw nsec_signed split.low;
    high = rw nsec_signed split.high;
  }

  clock_gettime_hook :
      (clk_id : ℕ) (tp : Timespec)
      → Holds m state sec nsec mask_enabled gen
      → is_wall_clock clk_id ≡ true
      → clock_gettime_entry kernel m state clk_id tp ≡ (
        0,
        add_normalised second (kernel.sys_clock_gettime clk_id tp).1 (word_of sec) (word_of nsec),
      )
  unfolding clock_gettime_entry
  clock_gettime_hook clk_id tp h wall = rw (wall, h.at_mask, h.at_sec, h.at_nsec)

  -- In advancing mode clock_gettime succeeds with the real instant moved by the offset, and
  -- normalised nanoseconds.
  pub clock_gettime-advancing :
      (clk_id : ℕ) (tp : Timespec)
      → Holds m state sec nsec mask_enabled gen
      → is_wall_clock clk_id ≡ true
      → IsReading second (kernel.sys_clock_gettime clk_id tp).1
      → HasRoom (kernel.sys_clock_gettime clk_id tp).1.sec (word_of sec)
      → ((clock_gettime_entry kernel m state clk_id tp).0 ≡ 0)
        × (instant second (clock_gettime_entry kernel m state clk_id tp).1
            ≡ instant second (kernel.sys_clock_gettime clk_id tp).1 +ℤ (sec *ℤ second +ℤ nsec))
        × ((clock_gettime_entry kernel m state clk_id tp).1.sub_sec < second)
  clock_gettime-advancing clk_id tp h wall r room = rw (clock_gettime_hook clk_id tp h wall) (
    refl,
    instant-add_normalised second _ (word_of sec) (word_of nsec) (omega arith) (omega arith) r
          offset room
        ∙ rw (signed64-word_of sec split.sec_int64, nsec_signed),
    add_normalised-lt second _ (word_of sec) (word_of nsec) (omega arith) (omega arith) r offset
        room,
  )

-- A clock that is frozen at an instant: every hook reports that instant and makes no system call,
-- gettimeofday rounded down to microseconds and time to seconds.
pub frozen_reads :
    (kernel : Kernel) (m : Memory) (state : ℕ) (target : Time) (gen clk_id : ℕ)
    (tp tv scratch : Timespec)
    → Holds m state (unix target) (pos (nanosecond target)) mask_frozen gen
    → is_wall_clock clk_id ≡ true
    → (clock_gettime_entry kernel m state clk_id tp
        ≡ (0, record { sec = word_of (unix target); sub_sec = nanosecond target }))
      × (gettimeofday_entry kernel m state (some tv)
          ≡ (0, some (record { sec = word_of (unix target); sub_sec = nanosecond target / 1000 })))
      × (time_entry kernel m state scratch none ≡ (word_of (unix target), none))
unfolding clock_gettime_entry gettimeofday_entry time_entry idiv_1000
frozen_reads kernel m state target gen clk_id tp tv scratch h wall =
    let n : word_of (pos (nanosecond target)) ≡ nanosecond target =
      omega (arith, nanosecond-lt target) in
    let small = nanosecond-lt target in
    rw (wall, h.at_mask, h.at_sec, h.at_nsec, n) (refl, ground arith, refl)

-- `time` reports the very second that clock_gettime reports, in any mode that intercepts, where
-- the kernel's clock gives both hooks the same reading.
pub time-eq-clock_gettime :
    (kernel : Kernel) (m : Memory) (state : ℕ) (tp scratch : Timespec) (tloc : Option ℕ)
    → m (state + 16) % 2 ≡ 1
    → (kernel.sys_clock_gettime 0 scratch).1 ≡ (kernel.sys_clock_gettime 0 tp).1
    → (time_entry kernel m state scratch tloc).0 ≡ (clock_gettime_entry kernel m state 0 tp).1.sec
unfolding clock_gettime_entry time_entry add_normalised normalise
time-eq-clock_gettime kernel m state tp scratch tloc on same = rw same (ground arith)

-- For an offset of whole seconds, not negative, and 1 to 999 ns, and a real fraction that the
-- offset carries past the second, gettimeofday reports the second before the one that
-- clock_gettime reports at the same instant.
pub gettimeofday_lags :
    (kernel : Kernel) (m : Memory) (state : ℕ) (tp tv : Timespec) (s n k o gen : ℕ)
    → Holds m state (pos k) (pos o) mask_enabled gen
    → 0 < o
    → o < 1000
    → second ≤ n + o
    → n < second
    → s + k < 2 ^ 62
    → (kernel.sys_clock_gettime 0 tp).1 ≡ record { sec = s; sub_sec = n }
    → (kernel.sys_gettimeofday tv).1 ≡ record { sec = s; sub_sec = n / 1000 }
    → ((clock_gettime_entry kernel m state 0 tp).1.sec ≡ s + k + 1)
      × ((gettimeofday_entry kernel m state (some tv)).1
          ≡ some (record { sec = s + k; sub_sec = 999_999 }))
unfolding clock_gettime_entry gettimeofday_entry add_normalised normalise idiv_1000
gettimeofday_lags kernel m state tp tv s n k o gen h o0 o1 late frac room ct gt =
    rw (ct, gt, h.at_mask, h.at_sec, h.at_nsec) (ground arith, ground arith)

-- An error of the system call does not reach the caller of clock_gettime: where the kernel returns
-- something else than 0 in rax, the hook returns 0, for any clock and in any mode.
pub clock_gettime-drops_error :
    (kernel : Kernel) (m : Memory) (state clk_id : ℕ) (tp : Timespec)
    → (kernel.sys_clock_gettime clk_id tp).0 ≢ 0
    → (clock_gettime_entry kernel m state clk_id tp).0 ≡ 0
unfolding clock_gettime_entry
clock_gettime-drops_error kernel m state clk_id tp fails = ground arith
