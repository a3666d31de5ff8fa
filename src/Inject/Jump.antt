-- ===== src/Inject/Jump.antt =====
-- The five bytes that pkg/inject/inject.go puts over a vDSO entry: E9 and a 32-bit displacement,
-- with the check that the displacement fits.
use epochd.Base.{
  ◌↔◌, ℕ, ◌+◌, ◌-◌, ◌%◌, ◌^◌, ◌<◌, ◌≤◌, ◌≡◌, Bool, true, Option, none, some, List, ◌∷◌, arith, ltb,
  ◌==◌, if◌then◌else◌, ap, ◌∙◌,
}
use epochd.Base.Word.{word, le_bytes}
use epochd.Memory.{Memory, write, load, load-write_tail, load-write_word, write_head}

-- int64(target) - int64(vdsoAddr+5), as a word.
unfoldable pub displacement : ℕ → ℕ → ℕ
displacement target vdso_addr = word (target + 2 ^ 64 - word (vdso_addr + 5))

-- int64(int32(d)): the low 32 bits, with their sign.
unfoldable pub sign_extend_32 : ℕ → ℕ
sign_extend_32 d = let low = d % 2 ^ 32 in if ltb low (2 ^ 31) then low else low + (2 ^ 64 - 2 ^ 32)

-- The check before the write.
unfoldable pub fits_rel32 : ℕ → Bool
fits_rel32 d = d == sign_extend_32 d

-- The five bytes.
unfoldable pub jmp_bytes : ℕ → List ℕ
jmp_bytes d = 0xe9 ∷ le_bytes 4 (d % 2 ^ 32)

-- The processor: a jump at the address reads its displacement there and adds it to the address of
-- the next instruction.
unfoldable pub jump_target : Memory → ℕ → Option ℕ
jump_target m addr =
    if m addr == 0xe9 then some (word (addr + 5 + sign_extend_32 (load 4 m (addr + 1)))) else none

displacement_back :
    (target addr : ℕ)
    → target < 2 ^ 64
    → addr < 2 ^ 64
    → fits_rel32 (displacement target addr) ≡ true
    → word (addr + 5 + sign_extend_32 (displacement target addr % 2 ^ 32)) ≡ target
unfolding displacement sign_extend_32 fits_rel32
displacement_back target addr ht ha fits = ground arith

written_jump :
    (m : Memory) (addr d : ℕ)
    → (write m addr (jmp_bytes d) addr ≡ 0xe9)
      × (load 4 (write m addr (jmp_bytes d)) (addr + 1) ≡ d % 2 ^ 32)
unfolding jmp_bytes
written_jump m addr d = (
  write_head m addr 0xe9 (le_bytes 4 (d % 2 ^ 32)),
  load-write_tail 4 m addr 0xe9 (addr + 1) (le_bytes 4 (d % 2 ^ 32)) (omega arith)
      ∙ ap (λ (x : ℕ). load 4 (write m x (le_bytes 4 (d % 2 ^ 32))) (addr + 1)) (omega arith)
      ∙ load-write_word 4 (d % 2 ^ 32) m (addr + 1) (omega arith),
)

-- Where the check of the displacement passes, a processor that executes the five bytes lands at
-- the target, for a target and an entry below 2 ^ 64.
pub jump_lands :
    (m : Memory) (target addr : ℕ)
    → target < 2 ^ 64
    → addr < 2 ^ 64
    → fits_rel32 (displacement target addr) ≡ true
    → jump_target (write m addr (jmp_bytes (displacement target addr))) addr ≡ some target
unfolding jump_target
jump_lands m target addr ht ha fits =
    let (op, rel) = written_jump m addr (displacement target addr) in
    rw (op, rel) (ap (λ (x : ℕ). some x) (displacement_back target addr ht ha fits))

-- The check of the displacement passes exactly if the target lies within a signed 32-bit distance
-- of the end of the five bytes, for a target below 2 ^ 63 and an entry below 2 ^ 62.
pub fits_rel32-near :
    (target addr : ℕ)
    → target < 2 ^ 63
    → addr < 2 ^ 62
    → (fits_rel32 (displacement target addr) ≡ true)
      ↔ ((addr + 5 ≤ target + 2 ^ 31) × (target < addr + 5 + 2 ^ 31))
unfolding displacement sign_extend_32 fits_rel32
fits_rel32-near target addr ht ha = ground arith

-- For a target below 2 ^ 63 and an entry below 2 ^ 62, where the target lies within a signed 32-bit distance of the end of
-- the five bytes, the check of the displacement passes, and a processor that executes the bytes lands at the target.
pub jump_lands_near :
    (m : Memory) (target addr : ℕ)
    → target < 2 ^ 63
    → addr < 2 ^ 62
    → addr + 5 ≤ target + 2 ^ 31
    → target < addr + 5 + 2 ^ 31
    → (fits_rel32 (displacement target addr) ≡ true)
      × (jump_target (write m addr (jmp_bytes (displacement target addr))) addr ≡ some target)
jump_lands_near m target addr ht ha low high =
    let fits = (fits_rel32-near target addr ht ha).1 (low, high) in
    (fits, jump_lands m target addr (omega (arith, ht)) (omega (arith, ha)) fits)
