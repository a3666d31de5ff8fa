-- ===== src/Inject/Mmap/Occupied.antt =====
-- What remoteMmap does when the page that it asks for is taken.
use epochd.Base.{
  ℕ, ◌+◌, ◌-◌, ◌^◌, ◌<◌, ◌≡◌, ◌≢◌, none, [], ◌∷◌, arith, ltb, true, ◌==◌, if◌then◌else◌,
}
use epochd.Procmem.{Env, Machine, stopped, ok}
use epochd.Procmem.Faultless.{get_regs_eq, set_regs_eq, cont_eq, wait_eq, poke_text_eq, read_mem_eq}
use epochd.Inject.Mmap.{
  map_base, map_fixed, map_fixed_noreplace, eexist, sigtrap, attempts_for, attempt_regs, finish,
  judge, call, try_attempts, with_undo, remote_mmap,
}

-- A kernel that carries out every request, refuses MAP_FIXED_NOREPLACE with EEXIST, as it does for
-- a page that is mapped, and grants MAP_FIXED, which unmaps what is there.
pub record RefusesOccupied (env : Env) : Type 0 where
  pub no_fault : (n : ℕ) → env.fails n ≡ none
  pub traps : (n : ℕ) → env.status n ≡ stopped sigtrap
  pub answers :
      (s : Machine)
      → (env.run s).1.rax
        ≡ (if s.regs.r10 == map_base + map_fixed_noreplace then 2 ^ 64 - eexist else s.regs.rdi)

lt→ltb : (a b : ℕ) → a < b → ltb a b ≡ true
lt→ltb a b h = ground arith

two_attempts :
    (fixed_addr : ℕ)
    → fixed_addr ≢ 0
    → attempts_for fixed_addr
      ≡ record { flags = map_base + map_fixed_noreplace; addr = fixed_addr }
        ∷ record { flags = map_base + map_fixed; addr = fixed_addr }
        ∷ []
unfolding attempts_for
two_attempts fixed_addr nz = ground arith

-- Of a kernel that refuses MAP_FIXED_NOREPLACE with EEXIST and grants MAP_FIXED, remoteMmap gets
-- the page that it asked for all the same, with its second attempt.
pub remote_mmap-takes_occupied :
    (env : Env) (patch_addr fixed_addr : ℕ) (s : Machine)
    → RefusesOccupied env
    → fixed_addr ≢ 0
    → fixed_addr < 2 ^ 63
    → (remote_mmap env patch_addr fixed_addr s).0 ≡ ok fixed_addr
unfolding remote_mmap with_undo try_attempts call judge finish attempt_regs
remote_mmap-takes_occupied env patch_addr fixed_addr s k nz small = simp (
  get_regs_eq env k.no_fault,
  set_regs_eq env k.no_fault,
  cont_eq env k.no_fault,
  wait_eq env k.no_fault,
  poke_text_eq env k.no_fault,
  read_mem_eq env k.no_fault,
  k.traps,
  k.answers,
  two_attempts fixed_addr nz,
  lt→ltb fixed_addr (2 ^ 63) small,
)
