-- ===== src/Examples/Clocks.antt =====
-- The theorems on the clock of a process, at concrete values.
use epochd.Base.{◌-◌, ◌/◌, ◌^◌, ◌<◌, ◌≡◌, refl, true, none, some, arith}
use epochd.Base.Int.{pos, negsuc, ◌+ℤ◌, ◌-ℤ◌}
use epochd.Base.Word.{word_of}
use epochd.Clock.{second, unix, nanosecond, sub, quot_second}
use epochd.Memory.{Memory, write}
use epochd.Procmem.{write_mem}
use epochd.Trampoline.{encode_state, decode_state}
use epochd.Trampoline.RoundTrip.{decode_state-encode_state}
use epochd.Trampoline.Hooks.{Kernel, clock_gettime_entry, gettimeofday_entry, time_entry}
use epochd.Trampoline.Advancing.{instant}
use epochd.Inject.Handle as Hook
use epochd.Inject.Handle.Update.{set_time-clock_gettime, freeze-reads}
use epochd.Faketime as Fake
use epochd.Faketime.Shown.{set_time-reads_effective}
use epochd.Examples.{blank, process, granting, handle, kernel, unset, target, now}

decode_state-encode_state_example :
    decode_state (encode_state (pos 5) (negsuc 2) 1 9)
    ≡ some (record { offset_sec = pos 5; offset_nsec = negsuc 2; mask = 1; generation = 9 })
decode_state-encode_state_example =
    decode_state-encode_state (pos 5) (negsuc 2) 1 9
      (record { low = omega arith; high = omega arith })
      (record { low = omega arith; high = omega arith }) (omega arith) (omega arith)

set_time-clock_gettime_example :
    let read =
      clock_gettime_entry kernel
        (Hook.set_time granting handle now target process).machine.mem
        4096
        0
        unset in
    (read.0 ≡ 0)
    × (instant second read.1
        ≡ target +ℤ (instant second (record { sec = 100; sub_sec = 500 }) -ℤ now))
    × (read.1.sub_sec < second)
unfolding Hook.set_time write_mem ◌-ℤ◌ ◌+ℤ◌ quot_second sub
set_time-clock_gettime_example =
    set_time-clock_gettime granting handle now target process kernel 0 unset refl
      (record { low = omega arith; high = omega arith }) refl
      (record { sec_word = omega arith; sub_sec_range = omega arith })
      (record { low = omega arith; high = omega arith })

freeze-reads_example :
    let m = (Hook.freeze granting handle target process).machine.mem in
    (clock_gettime_entry kernel m 4096 0 unset
      ≡ (0, record { sec = word_of (unix target); sub_sec = nanosecond target }))
    × (gettimeofday_entry kernel m 4096 (some unset)
        ≡ (0, some (record { sec = word_of (unix target); sub_sec = nanosecond target / 1000 })))
    × (time_entry kernel m 4096 unset none ≡ (word_of (unix target), none))
unfolding Hook.freeze write_mem
freeze-reads_example =
    freeze-reads granting handle target process kernel 0 unset unset unset refl refl

-- The state struct of an advancing clock at address 64.
abbrev advancing : Memory
advancing = write blank 64 (encode_state (pos 3) (pos 999) 1 0)

-- A kernel whose clock stands just before a second.
abbrev late_kernel : Kernel
late_kernel = record {
  sys_clock_gettime = λ clk_id tp. (0, record { sec = 100; sub_sec = 999_999_500 });
  sys_gettimeofday = λ tv. (0, record { sec = 100; sub_sec = 999_999 });
  sys_time = λ tloc. (100, none);
}

-- A kernel that refuses every reading with EINVAL.
abbrev refusing : Kernel
refusing = record {
  sys_clock_gettime = λ clk_id tp. (2 ^ 64 - 22, tp);
  sys_gettimeofday = λ tv. (2 ^ 64 - 22, tv);
  sys_time = λ tloc. (2 ^ 64 - 22, none);
}

-- A frozen handle of the Go library on the same process.
abbrev frozen_handle : Fake.Handle
frozen_handle = record { h = handle; offset = pos 0; frozen_at = target; frozen = true }

set_time-reads_effective_example :
    instant second
      (clock_gettime_entry kernel
        (Fake.set_time granting frozen_handle now (now +ℤ pos 9) target process).machine.mem
        4096
        0
        unset).1
    ≡ Fake.effective_time
        (Fake.set_time granting frozen_handle now (now +ℤ pos 9) target process).handle
        (instant second (record { sec = 100; sub_sec = 500 }))
      +ℤ (now +ℤ pos 9 -ℤ now)
unfolding Fake.set_time Hook.set_time write_mem ◌-ℤ◌ ◌+ℤ◌ quot_second sub
set_time-reads_effective_example =
    set_time-reads_effective granting frozen_handle now (now +ℤ pos 9) target process kernel 0 unset
      refl (record { low = omega arith; high = omega arith })
      (record { low = omega arith; high = omega arith }) refl
      (record { sec_word = omega arith; sub_sec_range = omega arith })
      (record { low = omega arith; high = omega arith })
