-- ===== src/Inject/Handle/Update.antt =====
-- What an update of the state struct brings about: the time that the target process reads next.
use epochd.Base.{ℕ, ◌-◌, ◌/◌, ◌<◌, ◌≡◌, ◌≢◌, ◌⊎◌, ◌∙◌, true, none, some, arith}
use epochd.Base.Int.{ℤ, pos, negsuc, ◌+ℤ◌, ◌-ℤ◌, ◌*ℤ◌, ◌≤ℤ◌, int_laws, eq_of_parts}
use epochd.Base.Word.{IsInt64, word_of}
use epochd.Clock.{
  Time, Duration, second, sub, sub-eq, sub-IsInt64, quot_second, rem_second, quot_second-rem, unix,
  nanosecond,
}
use epochd.Memory.{write}
use epochd.Procmem.{Env, Machine, ok, write_mem}
use epochd.Trampoline.{encode_state, mask_enabled, mask_frozen}
use epochd.Trampoline.Hooks.{Timespec, Kernel, clock_gettime_entry, gettimeofday_entry, time_entry}
use epochd.Trampoline.Advancing.{instant, IsReading, HasRoom}
use epochd.Trampoline.Installed.{Holds, write-Holds}
use epochd.Trampoline.Reads.{is_wall_clock, IsSplit, clock_gettime-advancing, frozen_reads}
use epochd.Inject.Handle.{Handle, next_gen, diff_sec_nsec, write_state, set_time, freeze}

quot_second-IsInt64 : (d : Duration) → IsInt64 d → IsInt64 (quot_second d)
unfolding quot_second
quot_second-IsInt64 (pos n) h = ground arith
quot_second-IsInt64 (negsuc n) h = ground arith

rem_second_bounds :
    (d : Duration) → (negsuc (second - 2) ≤ℤ rem_second d) × (rem_second d ≤ℤ pos (second - 1))
unfolding rem_second
rem_second_bounds (pos n) = ground arith
rem_second_bounds (negsuc n) = ground arith

-- The offset that diffSecNsec computes has int64 seconds and less than a second beside them, of
-- either sign, and adds up to the saturated span.
pub diff_sec_nsec-IsSplit :
    (target base : Time)
    → IsSplit (diff_sec_nsec target base).0 (diff_sec_nsec target base).1
      × ((diff_sec_nsec target base).0 *ℤ second +ℤ (diff_sec_nsec target base).1 ≡ sub target base)
unfolding diff_sec_nsec
diff_sec_nsec-IsSplit target base = (
  record {
    sec_int64 = quot_second-IsInt64 _ (sub-IsInt64 target base);
    low = (rem_second_bounds (sub target base)).0;
    high = (rem_second_bounds (sub target base)).1;
  },
  quot_second-rem (sub target base),
)

written :
    (env : Env) (h : Handle) (sec nsec : ℤ) (mask : ℕ) (s : Machine)
    → (write_state env h sec nsec mask s).result ≡ ok tt
    → (write_state env h sec nsec mask s).machine.mem
      ≡ write s.mem h.state_addr (encode_state sec nsec mask (next_gen h.gen))
unfolding write_state write_mem
written env h sec nsec mask s e = ground arith

write_state-Holds :
    (env : Env) (h : Handle) (sec nsec : ℤ) (mask : ℕ) (s : Machine)
    → mask < 256
    → (write_state env h sec nsec mask s).result ≡ ok tt
    → Holds
        (write_state env h sec nsec mask s).machine.mem
        h.state_addr
        sec
        nsec
        mask
        (next_gen h.gen)
write_state-Holds env h sec nsec mask s hm e =
    rw (written env h sec nsec mask s e)
      (write-Holds s.mem h.state_addr sec nsec mask (next_gen h.gen) hm (omega arith))

-- A successful update counts the generation up by one, modulo 2 ^ 32; a failed one leaves the
-- handle, its generation included, and the memory of the process as they were.
pub write_state_outcome :
    (env : Env) (h : Handle) (sec nsec : ℤ) (mask : ℕ) (s : Machine)
    → (((write_state env h sec nsec mask s).result ≡ ok tt)
        × ((write_state env h sec nsec mask s).handle ≡ record h { gen = next_gen h.gen }))
      ⊎ (((write_state env h sec nsec mask s).result ≢ ok tt)
          × ((write_state env h sec nsec mask s).handle ≡ h)
          × ((write_state env h sec nsec mask s).machine.mem ≡ s.mem))
unfolding write_state write_mem
write_state_outcome env h sec nsec mask s = ground arith

-- After a successful SetTime the hooked clock_gettime of the process succeeds and reports the
-- target plus the real time that has passed since `now`, the reading of the clock in SetTime, with
-- normalised nanoseconds: for a target within the range of a Duration from now, a wall clock, a
-- well-formed kernel reading, and seconds that stay in int64.
pub set_time-clock_gettime :
    (env : Env) (h : Handle) (now target : Time) (s : Machine) (kernel : Kernel) (clk_id : ℕ)
    (tp : Timespec)
    → (set_time env h now target s).result ≡ ok tt
    → IsInt64 (target -ℤ now)
    → is_wall_clock clk_id ≡ true
    → IsReading second (kernel.sys_clock_gettime clk_id tp).1
    → HasRoom (kernel.sys_clock_gettime clk_id tp).1.sec (word_of (diff_sec_nsec target now).0)
    → let read =
        clock_gettime_entry kernel
          (set_time env h now target s).machine.mem
          h.state_addr
          clk_id
          tp in
      (read.0 ≡ 0)
      × (instant second read.1
          ≡ target +ℤ (instant second (kernel.sys_clock_gettime clk_id tp).1 -ℤ now))
      × (read.1.sub_sec < second)
unfolding set_time
set_time-clock_gettime env h now target s kernel clk_id tp e span wall reading room =
    let d = diff_sec_nsec target now in
    let (split, total) = diff_sec_nsec-IsSplit target now in
    let (zero_rax, moved, normalised) =
      clock_gettime-advancing kernel (write_state env h d.0 d.1 mask_enabled s).machine.mem
        h.state_addr d.0 d.1 (next_gen h.gen) split clk_id tp
        (write_state-Holds env h d.0 d.1 mask_enabled s (omega arith) e) wall reading room in
    let exact = total ∙ sub-eq target now span in
    (zero_rax, moved ∙ rw exact (eq_of_parts _ _ (omega int_laws)), normalised)

-- After a successful Freeze the hooks report the target, whatever the real time: clock_gettime of
-- a wall clock to the nanosecond, gettimeofday to the microsecond below and time to the second.
pub freeze-reads :
    (env : Env) (h : Handle) (target : Time) (s : Machine) (kernel : Kernel) (clk_id : ℕ)
    (tp tv scratch : Timespec)
    → (freeze env h target s).result ≡ ok tt
    → is_wall_clock clk_id ≡ true
    → let m = (freeze env h target s).machine.mem in
      (clock_gettime_entry kernel m h.state_addr clk_id tp
        ≡ (0, record { sec = word_of (unix target); sub_sec = nanosecond target }))
      × (gettimeofday_entry kernel m h.state_addr (some tv)
          ≡ (0, some (record { sec = word_of (unix target); sub_sec = nanosecond target / 1000 })))
      × (time_entry kernel m h.state_addr scratch none ≡ (word_of (unix target), none))
unfolding freeze
freeze-reads env h target s kernel clk_id tp tv scratch e wall =
    frozen_reads kernel _ h.state_addr target (next_gen h.gen) clk_id tp tv scratch
      (write_state-Holds env h (unix target) (pos (nanosecond target)) mask_frozen s (omega arith)
        e)
      wall
