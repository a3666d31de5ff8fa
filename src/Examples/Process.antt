-- ===== src/Examples/Process.antt =====
-- The theorems on the injection into a process, at concrete values.
use epochd.Base.{
  ℕ, zero, suc, ◌+◌, ◌-◌, ◌^◌, ◌<◌, ◌≤◌, ◌≡◌, inl, inr, refl, true, none, some, List, [], ◌∷◌,
  arith, if◌then◌else◌, ◌==◌,
}
use epochd.Base.Int.{pos}
use epochd.Base.Word.{le_bytes}
use epochd.Memory.{write, read}
use epochd.Procmem.{
  Machine, Env, ok, stopped, get_regs, set_regs, cont, wait, poke_text, read_mem, write_mem,
}
use epochd.Vdso.{VdsoInfo, ProcFs, Symbol}
use epochd.Inject.Gap.{
  Span, find_nearby_gap, find_in_spans, window_low, window_high, scan, last_gap,
}
use epochd.Inject.Gap.Free.{IsSorted, IsFreePage, find_in_spans-IsFreePage, find_in_spans-lowest}
use epochd.Inject.Jump.{
  displacement, sign_extend_32, fits_rel32, jmp_bytes, jump_target, jump_lands_near,
}
use epochd.Inject.Mmap.{
  map_base, map_fixed_noreplace, eexist, remote_mmap, with_undo, try_attempts, attempts_for, call,
  judge, finish, attempt_regs,
}
use epochd.Inject.Mmap.Restored.{remote_mmap-IsRestored}
use epochd.Inject.Mmap.Occupied.{remote_mmap-takes_occupied}
use epochd.Inject.Sequence.{
  Target, hooks_of, inject_core, install, inject_with_tracer, patch_hooks, patch_hook,
  build_payload,
}
use epochd.Inject.Sequence.Installed.{AreHooked, install-IsHooked}
use epochd.Inject.Sequence.Partial.{IsErr, inject_with_tracer-partial}
use epochd.Inject.Handle.{Handle}
use epochd.Trampoline.{encode_state}
use epochd.Trampoline.Installed.{Holds}
use epochd.Inject.Sequence.Detached.{IsReleased, inject_core-IsReleased}
use epochd.Examples.{blank, regs, process, granting}

-- Two mappings of the user, and [vsyscall].
abbrev spans : List Span
spans =
    record { start = 2 ^ 31; end = 2 ^ 31 + 8192 }
    ∷ record { start = 2 ^ 33; end = 2 ^ 33 + 4096 }
    ∷ record { start = 2 ^ 64 - 10485760; end = 2 ^ 64 - 10481664 }
    ∷ []

spans-IsSorted : IsSorted 0 spans
spans-IsSorted = (
  omega arith,
  omega arith,
  inl (omega arith),
  (omega arith, omega arith, inl (omega arith), (omega arith, omega arith, inr (omega arith), tt)),
)

find_in_spans-IsFreePage_example : IsFreePage (2 ^ 32) spans (2 ^ 31 + 8192)
unfolding find_in_spans scan window_low window_high
find_in_spans-IsFreePage_example =
    find_in_spans-IsFreePage (2 ^ 32) spans (omega arith) (omega arith) spans-IsSorted
      (2 ^ 31 + 8192) refl

find_in_spans-lowest_example : (g : ℕ) × (find_in_spans (2 ^ 32) spans ≡ some g) × (g ≤ 2 ^ 32)
find_in_spans-lowest_example =
    find_in_spans-lowest (2 ^ 32) spans (omega arith) (omega arith) spans-IsSorted (2 ^ 32)
      (record {
        aligned = refl;
        above = omega arith;
        below = omega arith;
        free = (inr (omega arith), (inl (omega arith), (inl (omega arith), tt)));
      })

-- The process behind a remote mmap of the page at 4096.
abbrev mapped : Machine
mapped = (remote_mmap granting 64 4096 process).1

remote_mmap-IsRestored_example :
    (read 8 mapped.mem 64 ≡ read 8 blank 64) × (mapped.regs ≡ regs) × (4096 < 2 ^ 63)
unfolding remote_mmap with_undo try_attempts attempts_for call judge finish attempt_regs get_regs
    set_regs cont wait poke_text read_mem
remote_mmap-IsRestored_example = remote_mmap-IsRestored granting 64 4096 4096 process mapped refl

-- A kernel that finds the page taken.
abbrev occupied : Env
occupied = record {
  fails = λ n. none;
  status = λ n. stopped 5;
  run = λ s. (
    s.mem,
    record s.regs {
      rax = if s.regs.r10 == map_base + map_fixed_noreplace then 2 ^ 64 - eexist else s.regs.rdi;
    },
  );
}

remote_mmap-takes_occupied_example : (remote_mmap occupied 64 4096 process).0 ≡ ok 4096
remote_mmap-takes_occupied_example =
    remote_mmap-takes_occupied occupied 64 4096 process
      (record { no_fault = λ n. refl; traps = λ n. refl; answers = λ s. refl }) (omega arith)
      (omega arith)

-- A process without a readable maps file, and a kernel that refuses its third request.
abbrev pub unreadable : Target
unreadable = record {
  pid = 7;
  maps = [];
  proc = record { maps = none; read_mem = λ a n. none; dynamic_symbols = λ b. none };
  payload = [];
}

inject_core-IsReleased_example :
    IsReleased granting (inject_core granting unreadable (pos 1) (pos 0) 1 process).1
inject_core-IsReleased_example =
    inject_core-IsReleased granting unreadable (pos 1) (pos 0) 1 process refl

-- A vDSO with its three entries under their usual names.
abbrev symbols : List Symbol
symbols =
    record { name = "__vdso_clock_gettime"; value = 16 }
    ∷ record { name = "__vdso_gettimeofday"; value = 32 }
    ∷ record { name = "__vdso_time"; value = 48 }
    ∷ []

-- "1000-3000 0 0 0 0 [vdso]"
abbrev maps : List (List ℕ)
maps =
    (b'1' ∷ b'0' ∷ b'0' ∷ b'0' ∷ b'-' ∷ b'3' ∷ b'0' ∷ b'0' ∷ b'0' ∷ b' ' ∷ b'0' ∷ b' ' ∷ b'0' ∷ b' '
      ∷ b'0' ∷ b' ' ∷ b'0' ∷ b' ' ∷ b'[' ∷ b'v' ∷ b'd' ∷ b's' ∷ b'o' ∷ b']' ∷ [])
    ∷ []

abbrev proc : ProcFs
proc = record {
  maps = some maps;
  read_mem = λ a n. some [];
  dynamic_symbols = λ bytes. some symbols;
}

abbrev info : VdsoInfo
info = record {
  start = 4096;
  end = 12288;
  clock_gettime_addr = 4112;
  gettimeofday_addr = 4128;
  time_addr = 4144;
}

abbrev zeros : ℕ → List ℕ
zeros zero = []
zeros (suc n) = 0 ∷ zeros n

abbrev pub located : Target
located = record { pid = 7; maps = maps; proc = proc; payload = zeros 468 }

-- The process with the hooks installed from a page at 65536.
abbrev hooked : Machine
hooked = (install granting located info (pos 5) (pos 6) 1 65536 process).1

abbrev installed : Handle
installed = record {
  pid = 7;
  state_addr = 65972;
  patched =
      record { addr = 4112; orig = zeros 5 }
      ∷ record { addr = 4128; orig = zeros 5 }
      ∷ record { addr = 4144; orig = zeros 5 }
      ∷ [];
  gen = 0;
}

install-IsHooked_example :
    AreHooked hooked.mem info 65536
    × (65972 ≡ 65536 + 436)
    × Holds hooked.mem 65972 (pos 5) (pos 6) 1 0
unfolding install patch_hooks patch_hook hooks_of read_mem write_mem poke_text fits_rel32
    displacement sign_extend_32 read write build_payload jmp_bytes encode_state le_bytes
install-IsHooked_example =
    install-IsHooked granting located info (pos 5) (pos 6) 1 65536
      (record {
        page_small = omega arith;
        entries = (
          omega arith,
          (inl (omega arith), (inl (omega arith), tt)),
          (omega arith, (inl (omega arith), tt), (omega arith, tt, tt)),
        );
        clear = (inr (omega arith), (inr (omega arith), (inr (omega arith), tt)));
        has_code = refl;
      })
      (omega arith) installed process hooked refl

-- Two entries more than 2 GB apart.
abbrev scattered : VdsoInfo
scattered = record info {
  clock_gettime_addr = 2 ^ 32 + 16;
  gettimeofday_addr = 2 ^ 34;
  time_addr = 2 ^ 34 + 64;
}

abbrev empty_maps : Target
empty_maps = record located { maps = [] }

inject_with_tracer-partial_example :
    let (result, s') = inject_with_tracer granting empty_maps scattered (pos 5) (pos 6) 1 process in
    (IsErr result) × (jump_target s'.mem (2 ^ 32 + 16) ≡ some (2 ^ 31 + 4096))
unfolding find_nearby_gap find_in_spans scan last_gap window_low window_high remote_mmap with_undo
    try_attempts attempts_for call judge finish attempt_regs get_regs set_regs cont wait poke_text
    read_mem
inject_with_tracer-partial_example =
    inject_with_tracer-partial granting (λ n. refl) empty_maps scattered (pos 5) (pos 6) 1
      (2 ^ 31 + 4096) (2 ^ 31 + 4096) process
      (remote_mmap granting (2 ^ 32 + 16) (2 ^ 31 + 4096) process).1 refl refl (omega arith)
      (omega arith) (omega arith) (omega arith) (omega arith) (omega arith)

jump_lands_near_example :
    (fits_rel32 (displacement 4096 8192) ≡ true)
    × (jump_target (write blank 8192 (jmp_bytes (displacement 4096 8192))) 8192 ≡ some 4096)
jump_lands_near_example =
    jump_lands_near blank 4096 8192 (omega arith) (omega arith) (omega arith) (omega arith)
