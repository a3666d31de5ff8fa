-- ===== src/Inject/Mmap/Restored.antt =====
-- The entry and the registers after remoteMmap of pkg/inject/inject.go.
use epochd.Base.{
  ℕ, ◌-◌, ◌^◌, ◌<◌, ◌≡◌, sym, ap, ◌∙◌, ◌||◌, List, [], ◌∷◌, ltb, ◌==◌, length, arith, Bool-cases,
  inl, inr, ◌&&◌,
}
use epochd.Memory.{Memory, write, read, read-write, length-read}
use epochd.Procmem.{
  Env, Machine, Regs, Result, ok, err, M, ◌>>=◌, ◌>>◌, bind_ok, get_regs, set_regs, poke_text,
  read_mem,
}
use epochd.Inject.Mmap.{
  MmapAttempt, finish, judge, call, try_attempts, attempts_for, on_error, undo, with_undo,
  remote_mmap, syscall_int3, not_last, ebadf, eexist,
}

pub record IsRestored (patch_addr : ℕ) (orig_bytes : List ℕ) (orig_regs : Regs) (result : ℕ)
    (s : Machine) : Type 0 where
  pub before : Memory
  pub bytes_back : s.mem ≡ write before patch_addr orig_bytes
  pub regs_back : s.regs ≡ orig_regs
  pub nonneg : result < 2 ^ 63

module _ (env : Env) (patch_addr : ℕ) (orig_bytes : List ℕ) (orig_regs : Regs) where
  finish_ok :
      (result p : ℕ) (s s' : Machine)
      → result < 2 ^ 63
      → finish env patch_addr orig_bytes orig_regs result s ≡ (ok p, s')
      → IsRestored patch_addr orig_bytes orig_regs p s'
  unfolding finish poke_text set_regs
  finish_ok result p s s' h e = record {
    before = s.mem;
    bytes_back = ground arith;
    regs_back = ground arith;
    nonneg = ground arith;
  }

  judge_ok :
      (rest : List MmapAttempt) (again : M ℕ) (result p : ℕ) (s s' : Machine)
      → (again s ≡ (ok p, s') → IsRestored patch_addr orig_bytes orig_regs p s')
      → judge env patch_addr orig_bytes orig_regs rest again result s ≡ (ok p, s')
      → IsRestored patch_addr orig_bytes orig_regs p s'
  unfolding judge
  judge_ok rest again result p s s' later e = elim (Bool-cases (ltb result (2 ^ 63))) [
    | inl small ↦ finish_ok result p s s' (ground arith) (rw small at e)
    | inr large ↦
        elim (Bool-cases
          (not_last rest && (2 ^ 64 - result == ebadf || 2 ^ 64 - result == eexist))) [
            | inl retry ↦ later (rw (large, retry) at e)
            | inr stop ↦ absurd (ground arith)
          ]
  ]

  try_attempts_ok :
      (atts : List MmapAttempt) (p : ℕ) (s s' : Machine)
      → try_attempts env patch_addr orig_bytes orig_regs atts s ≡ (ok p, s')
      → IsRestored patch_addr orig_bytes orig_regs p s'
  unfolding try_attempts
  try_attempts_ok [] p s s' e = absurd (ground arith)
  try_attempts_ok (att ∷ rest) p s s' e =
      let again = try_attempts env patch_addr orig_bytes orig_regs rest in
      let first = call env patch_addr orig_bytes orig_regs att in
      let (result, _, e') =
        bind_ok first (judge env patch_addr orig_bytes orig_regs rest again) s s' p e in
      judge_ok rest again result p (first s).1 s' (try_attempts_ok rest p (first s).1 s') e'

on_error_ok :
    {A : Type 0} (cleanup : Machine → Machine) (r : Result A × Machine) (a : A) (s' : Machine)
    → on_error cleanup r ≡ (ok a, s')
    → r ≡ (ok a, s')
on_error_ok cleanup (ok b, s) a s' e = e
on_error_ok cleanup (err x, s) a s' e = absurd (ground arith)

with_undo_ok :
    (env : Env) (patch_addr fixed_addr : ℕ) (orig_regs : Regs) (orig_bytes : List ℕ) (page : ℕ)
    (s s' : Machine)
    → with_undo env patch_addr fixed_addr orig_regs orig_bytes s ≡ (ok page, s')
    → IsRestored patch_addr orig_bytes orig_regs page s'
unfolding with_undo
with_undo_ok env patch_addr fixed_addr orig_regs orig_bytes page s s' e =
    let poke = poke_text env patch_addr syscall_int3 in
    let attempts = try_attempts env patch_addr orig_bytes orig_regs (attempts_for fixed_addr) in
    let (_, _, e') =
      bind_ok poke (λ _. attempts) s s' page
        (on_error_ok (undo env patch_addr orig_bytes orig_regs) ((poke >> attempts) s) page s' e) in
    try_attempts_ok env patch_addr orig_bytes orig_regs (attempts_for fixed_addr) page (poke s).1 s'
      e'

get_regs_ok :
    (env : Env) (s : Machine) (r : Regs)
    → (get_regs env s).0 ≡ ok r
    → (r ≡ s.regs) × ((get_regs env s).1.mem ≡ s.mem)
unfolding get_regs
get_regs_ok env s r e = (ground arith, ground arith)

read_mem_ok :
    (env : Env) (a n : ℕ) (s : Machine) (bs : List ℕ)
    → (read_mem env a n s).0 ≡ ok bs
    → bs ≡ read n s.mem a
unfolding read_mem
read_mem_ok env a n s bs e = ground arith

-- When remoteMmap returns a page, the eight bytes at the entry that it borrowed and all registers
-- are what they were before, whatever the tracee did meanwhile, and the page is no error code.
pub remote_mmap-IsRestored :
    (env : Env) (patch_addr fixed_addr page : ℕ) (s s' : Machine)
    → remote_mmap env patch_addr fixed_addr s ≡ (ok page, s')
    → (read 8 s'.mem patch_addr ≡ read 8 s.mem patch_addr) × (s'.regs ≡ s.regs) × (page < 2 ^ 63)
unfolding remote_mmap
remote_mmap-IsRestored env patch_addr fixed_addr page s s' e =
    let (regs, er, e1) =
      bind_ok (get_regs env)
        (λ r. read_mem env patch_addr 8 >>= with_undo env patch_addr fixed_addr r) s s' page e in
    let s1 = (get_regs env s).1 in
    let (bytes, eb, e2) =
      bind_ok (read_mem env patch_addr 8) (with_undo env patch_addr fixed_addr regs) s1 s' page
        e1 in
    let (same_regs, same_mem) = get_regs_ok env s regs er in
    let saved = read_mem_ok env patch_addr 8 s1 bytes eb in
    let back =
      with_undo_ok env patch_addr fixed_addr regs bytes page (read_mem env patch_addr 8 s1).1 s'
        e2 in
    let eight : length bytes ≡ 8 = ap length saved ∙ length-read 8 s1.mem patch_addr in
    (
      ap (λ (m : Memory). read 8 m patch_addr) back.bytes_back
          ∙ ap (λ (n : ℕ). read n (write back.before patch_addr bytes) patch_addr) (sym eight)
          ∙ read-write back.before patch_addr bytes
          ∙ saved
          ∙ ap (λ (m : Memory). read 8 m patch_addr) same_mem,
      back.regs_back ∙ same_regs,
      back.nonneg,
    )
