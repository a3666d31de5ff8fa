-- ===== src/Inject/Sequence.antt =====
-- injectWithTracer of pkg/inject/inject.go and the functions that lead to it: the page, the
-- payload, the three patches, and attaching and detaching around them.
pub mod Installed
pub mod Partial
pub mod Detached
use epochd.Base.{
  ℕ, ◌+◌, ◌%◌, ◌^◌, Bool, true, false, Option, none, some, List, [], ◌∷◌, ◌++◌, take, drop,
  if◌then◌else◌,
}
use epochd.Base.Int.{ℤ, pos}
use epochd.Base.Word.{word}
use epochd.Clock.{Time, unix, nanosecond}
use epochd.Vdso.{VdsoInfo, ProcFs, locate}
use epochd.Procmem.{
  Env, Machine, Result, ok, err, M, pure, fail, ◌>>=◌, ◌>>◌, no_free_page, not_located,
  displacement_overflow, seize, detach, set_options, cont, poke_text, read_mem, write_mem,
  start_and_follow_child,
}
use epochd.Trampoline.{
  state_offset, state_size, clock_gettime_entry_offset, gettimeofday_entry_offset,
  time_entry_offset, encode_state, mask_enabled, mask_frozen,
}
use epochd.Inject.Gap.{find_nearby_gap}
use epochd.Inject.Jump.{displacement, fits_rel32, jmp_bytes}
use epochd.Inject.Mmap.{remote_mmap}
use epochd.Inject.Handle.{PatchedHook, Handle, diff_sec_nsec}

-- A vDSO entry and the offset of its stub in the payload.
pub record Hook : Type 0 where
  pub vdso_addr : ℕ
  pub entry_offset : ℕ

unfoldable pub hooks_of : VdsoInfo → List Hook
hooks_of info =
    record { vdso_addr = info.clock_gettime_addr; entry_offset = clock_gettime_entry_offset }
    ∷ record { vdso_addr = info.gettimeofday_addr; entry_offset = gettimeofday_entry_offset }
    ∷ record { vdso_addr = info.time_addr; entry_offset = time_entry_offset }
    ∷ []

-- A copy of the embedded payload with the state struct overwritten.
unfoldable pub build_payload : List ℕ → ℤ → ℤ → ℕ → List ℕ
build_payload payload sec nsec mask =
    take state_offset payload
    ++ (encode_state sec nsec mask 0 ++ drop (state_offset + state_size) payload)

-- What the injection reads from the outside: the text of /proc/<pid>/maps at the search, what
-- vdso.Locate reads, and the embedded file trampoline.bin.
pub record Target : Type 0 where
  pub pid : ℕ
  pub maps : List (List ℕ)
  pub proc : ProcFs
  pub payload : List ℕ

abbrev pub or_fail : {A : Type 0} → M A → Option A → M A
or_fail missing none = missing
or_fail missing (some a) = pure a

module _ (env : Env) where
  -- One round of the loop over the hooks.
  unfoldable pub patch_hook : ℕ → Hook → M PatchedHook
  patch_hook new_page hook =
      let target = word (new_page + hook.entry_offset) in
      let disp = displacement target hook.vdso_addr in
      if fits_rel32 disp
      then (do
        orig ← read_mem env hook.vdso_addr 5
        poke_text env hook.vdso_addr (jmp_bytes disp)
        pure (record { addr = hook.vdso_addr; orig = orig }))
      else fail (displacement_overflow disp)

  unfoldable pub patch_hooks : ℕ → List Hook → M (List PatchedHook)
  patch_hooks new_page [] = pure []
  patch_hooks new_page (hook ∷ hooks) = do
    p ← patch_hook new_page hook
    ps ← patch_hooks new_page hooks
    pure (p ∷ ps)

  module _ (t : Target) where
    -- What follows the remote mmap: the payload, the patches, the handle.
    unfoldable pub install : VdsoInfo → ℤ → ℤ → ℕ → ℕ → M Handle
    install info sec nsec mask new_page = do
      write_mem env new_page (build_payload t.payload sec nsec mask)
      patched ← patch_hooks new_page (hooks_of info)
      pure (record {
        pid = t.pid;
        state_addr = word (new_page + state_offset);
        patched = patched;
        gen = 0;
      })

    -- injectWithTracer
    unfoldable pub inject_with_tracer : VdsoInfo → ℤ → ℤ → ℕ → M Handle
    inject_with_tracer info sec nsec mask = do
      fixed_addr ← or_fail (fail no_free_page) (find_nearby_gap info.clock_gettime_addr t.maps)
      new_page ← remote_mmap env info.clock_gettime_addr fixed_addr
      install info sec nsec mask new_page

    -- vdso.Locate, then injectWithTracer.
    unfoldable pub locate_and_inject : ℤ → ℤ → ℕ → M Handle
    locate_and_inject sec nsec mask = do
      info ← or_fail (fail not_located) (locate t.proc)
      inject_with_tracer info sec nsec mask

    -- A detach whose own error is dropped.
    abbrev pub detached : Machine → Machine
    detached s = (detach env s).1

    abbrev pub always_detach : {A : Type 0} → Result A × Machine → Result A × Machine
    always_detach (r, s) = (r, detached s)

    abbrev pub detach_on_error : {A : Type 0} → Result A × Machine → Result A × Machine
    detach_on_error (ok a, s) = (ok a, s)
    detach_on_error (err e, s) = (err e, detached s)

    -- injectCore
    unfoldable pub inject_core : ℤ → ℤ → ℕ → M Handle
    inject_core sec nsec mask = do seize env; λ s. always_detach (locate_and_inject sec nsec mask s)

    -- injectFollowChild
    unfoldable pub inject_follow_child : ℤ → ℤ → ℕ → M Handle
    inject_follow_child sec nsec mask = do
      start_and_follow_child env
      λ s. always_detach (locate_and_inject sec nsec mask s)

    -- The injection, the tracing options and the resume of the KeepTracer variants.
    unfoldable pub inject_and_resume : ℤ → ℤ → ℕ → M Handle
    inject_and_resume sec nsec mask = do
      h ← locate_and_inject sec nsec mask
      set_options env
      cont env
      pure h

    -- injectCoreKeepTracer
    unfoldable pub inject_core_keep_tracer : ℤ → ℤ → ℕ → M Handle
    inject_core_keep_tracer sec nsec mask = do
      seize env
      λ s. detach_on_error (inject_and_resume sec nsec mask s)

    -- injectFollowChildKeepTracer
    unfoldable pub inject_follow_child_keep_tracer : ℤ → ℤ → ℕ → M Handle
    inject_follow_child_keep_tracer sec nsec mask = do
      start_and_follow_child env
      λ s. detach_on_error (inject_and_resume sec nsec mask s)

    -- InjectAtTime: `now` is its reading of the clock.
    unfoldable pub inject_at_time : Time → Time → M Handle
    inject_at_time now target =
        let (sec, nsec) = diff_sec_nsec target now in inject_core sec nsec mask_enabled

    -- InjectFrozen
    unfoldable pub inject_frozen : Time → M Handle
    inject_frozen target = inject_core (unix target) (pos (nanosecond target)) mask_frozen

    -- InjectAtTimeFollowChild, InjectFrozenFollowChild
    unfoldable pub inject_at_time_follow_child : Time → Time → M Handle
    inject_at_time_follow_child now target =
        let (sec, nsec) = diff_sec_nsec target now in inject_follow_child sec nsec mask_enabled

    unfoldable pub inject_frozen_follow_child : Time → M Handle
    inject_frozen_follow_child target =
        inject_follow_child (unix target) (pos (nanosecond target)) mask_frozen

    -- InjectAtTimeFollowChildKeepTracer, InjectFrozenFollowChildKeepTracer
    unfoldable pub inject_at_time_follow_child_keep_tracer : Time → Time → M Handle
    inject_at_time_follow_child_keep_tracer now target =
        let (sec, nsec) = diff_sec_nsec target now in
        inject_follow_child_keep_tracer sec nsec mask_enabled

    unfoldable pub inject_frozen_follow_child_keep_tracer : Time → M Handle
    inject_frozen_follow_child_keep_tracer target =
        inject_follow_child_keep_tracer (unix target) (pos (nanosecond target)) mask_frozen

    -- InjectAtTimeKeepTracer, InjectFrozenKeepTracer
    unfoldable pub inject_at_time_keep_tracer : Time → Time → M Handle
    inject_at_time_keep_tracer now target =
        let (sec, nsec) = diff_sec_nsec target now in inject_core_keep_tracer sec nsec mask_enabled

    unfoldable pub inject_frozen_keep_tracer : Time → M Handle
    inject_frozen_keep_tracer target =
        inject_core_keep_tracer (unix target) (pos (nanosecond target)) mask_frozen
