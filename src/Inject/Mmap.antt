-- ===== src/Inject/Mmap.antt =====
-- remoteMmap of pkg/inject/inject.go: the tracee is made to call mmap itself, through a syscall
-- instruction that is written over a vDSO entry for the time of the call.
pub mod Restored
pub mod Occupied
use epochd.Base.{
  ℕ, ◌+◌, ◌-◌, ◌^◌, Bool, true, false, ◌&&◌, ◌||◌, List, [], ◌∷◌, ltb, ◌==◌, if◌then◌else◌,
}
use epochd.Procmem.{
  Env, Machine, Regs, WaitStatus, stopped, exited, signaled, Result, ok, err, M, pure, fail, ◌>>=◌,
  ◌>>◌, bad_stop, mmap_failed, attempts_exhausted, get_regs, set_regs, cont, wait, poke_text,
  read_mem,
}

-- mmapAttempt
pub record MmapAttempt : Type 0 where
  pub flags : ℕ
  pub addr : ℕ

-- MAP_PRIVATE | MAP_ANONYMOUS
abbrev pub map_base : ℕ
map_base = 0x22

abbrev pub map_fixed : ℕ
map_fixed = 0x10

abbrev pub map_fixed_noreplace : ℕ
map_fixed_noreplace = 0x100000

abbrev pub ebadf : ℕ
ebadf = 9

abbrev pub eexist : ℕ
eexist = 17

abbrev pub sigtrap : ℕ
sigtrap = 5

-- syscall; int3
abbrev pub syscall_int3 : List ℕ
syscall_int3 = 0x0f ∷ 0x05 ∷ 0xcc ∷ []

-- The flags are disjoint bits, so `|` is a sum.
unfoldable pub attempts_for : ℕ → List MmapAttempt
attempts_for fixed_addr =
    if fixed_addr == 0
    then record { flags = map_base; addr = 0 } ∷ []
    else record { flags = map_base + map_fixed_noreplace; addr = fixed_addr }
      ∷ record { flags = map_base + map_fixed; addr = fixed_addr }
      ∷ []

-- The registers of an attempt: rip at the patched entry, and the arguments of mmap.
unfoldable pub attempt_regs : Regs → ℕ → MmapAttempt → Regs
attempt_regs orig patch_addr att = record orig {
  rip = patch_addr;
  rax = 9;
  rdi = att.addr;
  rsi = 4096;
  rdx = 7;
  r10 = att.flags;
  r8 = 2 ^ 64 - 1;
  r9 = 0;
}

abbrev pub is_trap : WaitStatus → Bool
is_trap (stopped sig) = sig == sigtrap
is_trap (exited _) = false
is_trap (signaled _) = false

abbrev pub not_last : List MmapAttempt → Bool
not_last [] = false
not_last (_ ∷ _) = true

module _ (env : Env) (patch_addr : ℕ) (orig_bytes : List ℕ) (orig_regs : Regs) where
  -- Puts the entry and the registers back.
  unfoldable pub finish : ℕ → M ℕ
  finish result = do poke_text env patch_addr orig_bytes; set_regs env orig_regs; pure result

  -- What follows an attempt's system call: `result` is rax, and `again` makes the other attempts.
  unfoldable pub judge : List MmapAttempt → M ℕ → ℕ → M ℕ
  judge rest again result =
      if ltb result (2 ^ 63)
      then finish result
      else (let errno = 2 ^ 64 - result in
          if (not_last rest && (errno == ebadf || errno == eexist))
          then again
          else fail (mmap_failed errno))

  unfoldable pub call : MmapAttempt → M ℕ
  call att = do
    set_regs env (attempt_regs orig_regs patch_addr att)
    cont env
    ws ← wait env
    if is_trap ws then pure tt else fail (bad_stop ws)
    post ← get_regs env
    pure post.rax

  -- The loop over the attempts.
  unfoldable pub try_attempts : List MmapAttempt → M ℕ
  try_attempts [] = fail attempts_exhausted
  try_attempts (att ∷ rest) = call att >>= judge rest (try_attempts rest)

-- The deferred function: after an error, the entry and the registers are put back as far as the
-- two requests succeed.
unfoldable pub undo : Env → ℕ → List ℕ → Regs → Machine → Machine
undo env patch_addr orig_bytes orig_regs s =
    (set_regs env orig_regs (poke_text env patch_addr orig_bytes s).1).1

abbrev pub on_error : {A : Type 0} → (Machine → Machine) → Result A × Machine → Result A × Machine
on_error cleanup (ok a, s) = (ok a, s)
on_error cleanup (err e, s) = (err e, cleanup s)

-- What follows the two saves: the patch and the attempts, with the deferred function behind them.
unfoldable pub with_undo : Env → ℕ → ℕ → Regs → List ℕ → M ℕ
with_undo env patch_addr fixed_addr orig_regs orig_bytes s =
    on_error (undo env patch_addr orig_bytes orig_regs) (
      (poke_text env patch_addr syscall_int3
          >> try_attempts env patch_addr orig_bytes orig_regs (attempts_for fixed_addr))
        s)

-- remoteMmap
unfoldable pub remote_mmap : Env → ℕ → ℕ → M ℕ
remote_mmap env patch_addr fixed_addr = do
  orig_regs ← get_regs env
  orig_bytes ← read_mem env patch_addr 8
  with_undo env patch_addr fixed_addr orig_regs orig_bytes
