-- ===== src/Inject/Handle.antt =====
-- The handle of pkg/inject/inject.go: an active injection, and the update of its state struct by
-- process_vm_writev. The readings of time.Now are parameters.
pub mod Update
use epochd.Base.{ℕ, ◌+◌, ◌%◌, ◌^◌, Option, none, some, List}
use epochd.Base.Int.{ℤ, pos}
use epochd.Clock.{Time, sub, quot_second, rem_second, unix, nanosecond}
use epochd.Memory.{write}
use epochd.Procmem.{Env, Machine, Result, ok, err, Error, write_mem}
use epochd.Trampoline.{encode_state, mask_enabled, mask_frozen}

-- patchedHook: a vDSO entry that was overwritten, with its original five bytes.
pub record PatchedHook : Type 0 where
  pub addr : ℕ
  pub orig : List ℕ

pub record Handle : Type 0 where
  pub pid : ℕ
  pub state_addr : ℕ
  pub patched : List PatchedHook
  pub gen : ℕ

-- diffSecNsec
unfoldable pub diff_sec_nsec : Time → Time → ℤ × ℤ
diff_sec_nsec target base = let d = sub target base in (quot_second d, rem_second d)

-- ChildHandle: the same addresses in another process, with a counter of its own.
unfoldable pub child_handle : Handle → ℕ → Handle
child_handle parent child_pid = record {
  pid = child_pid;
  state_addr = parent.state_addr;
  patched = parent.patched;
  gen = 0;
}

-- What a method leaves behind: the handle, its error and the machine.
pub record Updated : Type 0 where
  pub handle : Handle
  pub result : Result Unit
  pub machine : Machine

abbrev settle : Handle → Handle → Result Unit × Machine → Updated
settle h bumped (ok _, s) = record { handle = bumped; result = ok tt; machine = s }
settle h bumped (err e, s) = record { handle = h; result = err e; machine = s }

-- h.gen++ on a uint32
abbrev pub next_gen : ℕ → ℕ
next_gen gen = (gen + 1) % 2 ^ 32

-- writeState: after a failed write the counter is taken back.
unfoldable pub write_state : Env → Handle → ℤ → ℤ → ℕ → Machine → Updated
write_state env h sec nsec mask s =
    let bumped = record h { gen = next_gen h.gen } in
    settle h bumped (write_mem env h.state_addr (encode_state sec nsec mask bumped.gen) s)

-- SetTime
unfoldable pub set_time : Env → Handle → Time → Time → Machine → Updated
unfolding diff_sec_nsec write_state
set_time env h now target s =
    let (sec, nsec) = diff_sec_nsec target now in write_state env h sec nsec mask_enabled s

-- Freeze
unfoldable pub freeze : Env → Handle → Time → Machine → Updated
unfolding write_state
freeze env h target s = write_state env h (unix target) (pos (nanosecond target)) mask_frozen s
