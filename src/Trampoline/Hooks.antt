-- ===== src/Trampoline/Hooks.antt =====
-- pkg/trampoline/trampoline.asm: the three hooks that a patched vDSO entry jumps to. A register or
-- a quadword of memory is a word below 2 ^ 64; `jl` and `jge` compare words as signed. The system
-- calls are parameters: each is given what memory holds before and returns rax and what it holds
-- after.
use epochd.Base.{
  ℕ, ◌+◌, ◌-◌, ◌/◌, ◌%◌, ◌^◌, Bool, Option, none, some, ◌||◌, ltb, ◌==◌, if◌then◌else◌,
}
use epochd.Base.Word.{word}
use epochd.Memory.{Memory, load}

-- struct timespec and struct timeval: two quadwords, the second one nanoseconds or microseconds.
pub record Timespec : Type 0 where
  pub sec : ℕ
  pub sub_sec : ℕ

-- The kernel's own system calls. With a null `tv`, SYS_gettimeofday writes nothing that is modelled.
pub record Kernel : Type 0 where
  pub sys_clock_gettime : ℕ → Timespec → ℕ × Timespec
  pub sys_gettimeofday : Timespec → ℕ × Timespec
  pub sys_time : Option ℕ → ℕ × Option ℕ

-- The signed comparison of two words.
abbrev pub lt_signed : ℕ → ℕ → Bool
lt_signed a b = ltb (word (a + 2 ^ 63)) (word (b + 2 ^ 63))

-- cqo; idiv rcx with rcx = 1000: the quotient of a signed word, rounded towards zero.
unfoldable pub idiv_1000 : ℕ → ℕ
idiv_1000 w = if ltb w (2 ^ 63) then w / 1000 else word (2 ^ 64 - (2 ^ 64 - w) / 1000)

-- The state struct at `state`.
abbrev pub offset_sec : Memory → ℕ → ℕ
offset_sec m state = load 8 m state

abbrev pub offset_nsec : Memory → ℕ → ℕ
offset_nsec m state = load 8 m (state + 8)

-- test byte [r11 + 16], 1
abbrev pub is_enabled : Memory → ℕ → Bool
is_enabled m state = m (state + 16) % 2 == 1

-- test byte [r11 + 16], 2
abbrev pub is_frozen : Memory → ℕ → Bool
is_frozen m state = m (state + 16) / 2 % 2 == 1

-- The one correction step, which brings the second quadword into [0, limit).
unfoldable pub normalise : ℕ → ℕ → ℕ → Timespec
normalise limit s n =
    if lt_signed n limit
    then (if lt_signed n 0
        then record { sec = word (s + (2 ^ 64 - 1)); sub_sec = word (n + limit) }
        else record { sec = s; sub_sec = n })
    else record { sec = word (s + 1); sub_sec = word (n + (2 ^ 64 - limit)) }

-- The two additions that follow the system call, and the correction.
unfoldable pub add_normalised : ℕ → Timespec → ℕ → ℕ → Timespec
add_normalised limit ts off_sec off_sub =
    normalise limit (word (ts.sec + off_sec)) (word (ts.sub_sec + off_sub))

-- mov [rdi], rax unless rdi is null.
abbrev store : ℕ → Option ℕ → Option ℕ
store rax none = none
store rax (some _) = some rax

module _ (kernel : Kernel) (m : Memory) (state : ℕ) where
  -- clock_gettime(edi, rsi) with `tp` in memory at rsi: rax, and what memory holds at rsi after.
  unfoldable pub clock_gettime_entry : ℕ → Timespec → ℕ × Timespec
  clock_gettime_entry edi tp =
      let real = kernel.sys_clock_gettime edi tp in
      if (edi == 0 || edi == 5)
      then (if is_enabled m state
          then (if is_frozen m state
              then (0, record { sec = offset_sec m state; sub_sec = offset_nsec m state })
              else (
                0,
                add_normalised 1_000_000_000 real.1 (offset_sec m state) (offset_nsec m state),
              ))
          else (0, real.1))
      else (0, real.1)

  -- gettimeofday(rdi, rsi); `none` is a null `tv`.
  unfoldable pub gettimeofday_entry : Option Timespec → ℕ × Option Timespec
  gettimeofday_entry none = (0, none)
  gettimeofday_entry (some tv) =
      let real = kernel.sys_gettimeofday tv in
      let off_usec = idiv_1000 (offset_nsec m state) in
      if is_enabled m state
      then (if is_frozen m state
          then (0, some (record { sec = offset_sec m state; sub_sec = off_usec }))
          else (0, some (add_normalised 1_000_000 real.1 (offset_sec m state) off_usec)))
      else (0, some real.1)

  -- The two quadwords that `time` reserves on its own stack before its system call.
  module _ (scratch : Timespec) where
    -- time(rdi): rax, and what memory holds at rdi after; `none` is a null `tloc`.
    unfoldable pub time_entry : Option ℕ → ℕ × Option ℕ
    time_entry tloc =
        let real = kernel.sys_clock_gettime 0 scratch in
        let s = word (real.1.sec + offset_sec m state) in
        let n = word (real.1.sub_sec + offset_nsec m state) in
        if is_enabled m state
        then (if is_frozen m state
            then (offset_sec m state, store (offset_sec m state) tloc)
            else (let rax =
                  if lt_signed n 1_000_000_000
                  then (if lt_signed n 0 then word (s + (2 ^ 64 - 1)) else s)
                  else word (s + 1) in
                (rax, store rax tloc)))
        else kernel.sys_time tloc
