-- ===== src/Inject/Sequence/Partial.antt =====
-- An injection of pkg/inject/inject.go that fails at a later entry.
use epochd.Base.{ℕ, ◌+◌, ◌≡◌, ◌^◌, ◌<◌, ◌≤◌, ap, ◌∙◌, true, false, none, some, arith}
use epochd.Base.Int.{ℤ}
use epochd.Base.Word.{word}
use epochd.Memory.{write}
use epochd.Procmem.{Env, Machine, Result, ok, err}
use epochd.Procmem.Faultless.{read_mem_eq, poke_text_eq, write_mem_eq}
use epochd.Inject.Jump.{displacement, fits_rel32, jump_target, jump_lands, fits_rel32-near}
use epochd.Inject.Sequence.{
  Hook, Target, hooks_of, build_payload, install, inject_with_tracer, patch_hook, patch_hooks,
}
use epochd.Inject.Gap.{find_nearby_gap}
use epochd.Inject.Mmap.{remote_mmap}
use epochd.Vdso.{VdsoInfo}
use epochd.Trampoline.{gettimeofday_entry_offset, clock_gettime_entry_offset}

-- The result is an error.
abbrev pub IsErr : {A : Type 0} → Result A → Type 0
IsErr (ok _) = ⊥
IsErr (err _) = Unit

module _ (env : Env) (no_fault : (n : ℕ) → env.fails n ≡ none) where
  abbrev target_of : ℕ → Hook → ℕ
  target_of new_page hook = word (new_page + hook.entry_offset)

  -- The displacement that the loop computes for a hook.
  abbrev disp_of : ℕ → Hook → ℕ
  disp_of new_page hook = displacement (target_of new_page hook) hook.vdso_addr

  abbrev clock_gettime_hook : VdsoInfo → Hook
  clock_gettime_hook info = record {
    vdso_addr = info.clock_gettime_addr;
    entry_offset = clock_gettime_entry_offset;
  }

  abbrev gettimeofday_hook : VdsoInfo → Hook
  gettimeofday_hook info = record {
    vdso_addr = info.gettimeofday_addr;
    entry_offset = gettimeofday_entry_offset;
  }

  no_fit :
      (target addr : ℕ)
      → target < 2 ^ 63
      → addr < 2 ^ 62
      → target + 2 ^ 31 < addr + 5
      → fits_rel32 (displacement target addr) ≡ false
  no_fit target addr ht ha far = ground (arith, fits_rel32-near target addr ht ha)

  -- With no request refused and a page in reach of clock_gettime but more than 2 GB below
  -- gettimeofday, the injection fails, and clock_gettime of the process is patched all the same:
  -- it jumps to its stub in the page.
  pub inject_with_tracer-partial :
      (t : Target) (info : VdsoInfo) (sec nsec : ℤ) (mask fixed_addr page : ℕ) (s s1 : Machine)
      → find_nearby_gap info.clock_gettime_addr t.maps ≡ some fixed_addr
      → remote_mmap env info.clock_gettime_addr fixed_addr s ≡ (ok page, s1)
      → page < 2 ^ 62
      → info.clock_gettime_addr < 2 ^ 62
      → info.gettimeofday_addr < 2 ^ 62
      → info.clock_gettime_addr + 5 ≤ page + 2 ^ 31
      → page < info.clock_gettime_addr + 5 + 2 ^ 31
      → page + gettimeofday_entry_offset + 2 ^ 31 < info.gettimeofday_addr + 5
      → let (result, s') = inject_with_tracer env t info sec nsec mask s in
        (IsErr result) × (jump_target s'.mem info.clock_gettime_addr ≡ some page)
  unfolding inject_with_tracer install hooks_of patch_hooks patch_hook
  inject_with_tracer-partial t info sec nsec mask fixed_addr page s s1 gap mapped p c g near near'
        far =
      let same : target_of page (clock_gettime_hook info) ≡ page = omega arith in
      let fits : fits_rel32 (disp_of page (clock_gettime_hook info)) ≡ true =
        rw same ((fits_rel32-near page info.clock_gettime_addr (omega arith) c).1 (near, near')) in
      let misses : fits_rel32 (disp_of page (gettimeofday_hook info)) ≡ false =
        no_fit (target_of page (gettimeofday_hook info)) info.gettimeofday_addr (omega arith) g
          (omega arith) in
      simp
        (
          gap,
          mapped,
          write_mem_eq env no_fault,
          read_mem_eq env no_fault,
          poke_text_eq env no_fault,
          fits,
          misses,
        )
        (
          tt,
          jump_lands (write s1.mem page (build_payload t.payload sec nsec mask))
                (target_of page (clock_gettime_hook info)) info.clock_gettime_addr (omega arith)
                (omega arith) fits
              ∙ ap (λ (x : ℕ). some x) same,
        )
