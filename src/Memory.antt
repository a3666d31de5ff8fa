-- ===== src/Memory.antt =====
-- The memory of a traced process, a byte at every address: what process_vm_writev and
-- PTRACE_POKETEXT write, and what the injected code loads.
use epochd.Base.{
  ℕ, zero, suc, ◌+◌, ◌*◌, ◌%◌, ◌/◌, ◌^◌, ◌≤◌, ◌<◌, ◌≡◌, refl, sym, append-nil, ap, ◌∙◌, ◌⊎◌, List,
  [], ◌∷◌, ◌++◌, arith, ◌==◌, if◌then◌else◌, length,
}
use epochd.Base.Word.{le_bytes}
use native.Mathlib.Nat.{pow-succ'}

abbrev pub Memory : Type 0
Memory = ℕ → ℕ

abbrev update : Memory → ℕ → ℕ → Memory
update m a b x = if x == a then b else m x

-- Writes the bytes from the address on.
unfoldable pub write : Memory → ℕ → List ℕ → Memory
write m a [] = m
write m a (b ∷ bs) = update (write m (suc a) bs) a b

-- The `n` bytes from the address on.
unfoldable pub read : ℕ → Memory → ℕ → List ℕ
read zero m a = []
read (suc n) m a = m a ∷ read n m (suc a)

-- The number that the `n` bytes from the address on spell, least significant first.
unfoldable pub load : ℕ → Memory → ℕ → ℕ
load zero m a = 0
load (suc n) m a = m a + 256 * load n m (suc a)

pub write_outside :
    (m : Memory) (a : ℕ) (bs : List ℕ) (x : ℕ)
    → (x < a) ⊎ (a + length bs ≤ x)
    → write m a bs x ≡ m x
unfolding write
write_outside m a [] x h = refl
write_outside m a (b ∷ bs) x h = ground (arith, write_outside m (suc a) bs x)

-- Bytes that do not overlap a write are as they were.
pub load-write_outside :
    (n : ℕ) (m : Memory) (a : ℕ) (bs : List ℕ) (c : ℕ)
    → (c + n ≤ a) ⊎ (a + length bs ≤ c)
    → load n (write m a bs) c ≡ load n m c
unfolding load
load-write_outside zero m a bs c h = refl
load-write_outside (suc n) m a bs c h =
    ground (arith, write_outside m a bs c, load-write_outside n m a bs (suc c))

load-update : (n : ℕ) (m : Memory) (a b c : ℕ) → a < c → load n (update m a b) c ≡ load n m c
unfolding load
load-update zero m a b c h = refl
load-update (suc n) m a b c h = ground (arith, load-update n m a b (suc c))

-- The first of two parts of a write.
pub load-write-le_bytes :
    (n w : ℕ) (m : Memory) (a : ℕ) (rest : List ℕ)
    → w < 256 ^ n
    → load n (write m a (le_bytes n w ++ rest)) a ≡ w
unfolding load write le_bytes
load-write-le_bytes zero w m a rest h = omega arith
load-write-le_bytes (suc n) w m a rest h =
    let m' : Memory = write m (suc a) (le_bytes n (w / 256) ++ rest) in
    let low : update m' a (w % 256) a ≡ w % 256 = ground arith in
    omega (
      arith,
      low,
      load-update n m' a (w % 256) (suc a) (omega arith),
      load-write-le_bytes n (w / 256) m (suc a) rest (omega (arith, pow-succ' 256 n)),
    )

-- The second of two parts of a write.
pub load-write_skip :
    (n k w : ℕ) (m : Memory) (a c : ℕ) (rest : List ℕ)
    → a + k ≤ c
    → load n (write m a (le_bytes k w ++ rest)) c ≡ load n (write m (a + k) rest) c
unfolding write le_bytes
load-write_skip n zero w m a c rest h = ap (λ (x : ℕ). load n (write m x rest) c) (omega arith)
load-write_skip n (suc k) w m a c rest h =
    load-update n (write m (suc a) (le_bytes k (w / 256) ++ rest)) a (w % 256) c (omega arith)
    ∙ load-write_skip n k (w / 256) m (suc a) c rest (omega arith)
    ∙ ap (λ (x : ℕ). load n (write m x rest) c) (omega arith)

pub load-write_tail :
    (n : ℕ) (m : Memory) (a b c : ℕ) (bs : List ℕ)
    → a < c
    → load n (write m a (b ∷ bs)) c ≡ load n (write m (suc a) bs) c
unfolding write
load-write_tail n m a b c bs h = load-update n (write m (suc a) bs) a b c h

pub load-write_word :
    (n w : ℕ) (m : Memory) (a : ℕ) → w < 256 ^ n → load n (write m a (le_bytes n w)) a ≡ w
load-write_word n w m a h =
    ap (λ (bs : List ℕ). load n (write m a bs) a) (sym (append-nil (le_bytes n w)))
    ∙ load-write-le_bytes n w m a [] h

pub write_head : (m : Memory) (a b : ℕ) (bs : List ℕ) → write m a (b ∷ bs) a ≡ b
unfolding write
write_head m a b bs = ground arith

read-update : (n : ℕ) (m : Memory) (a b c : ℕ) → a < c → read n (update m a b) c ≡ read n m c
unfolding read
read-update zero m a b c h = refl
read-update (suc n) m a b c h = ground (arith, read-update n m a b (suc c))

pub length-read : (n : ℕ) (m : Memory) (a : ℕ) → length (read n m a) ≡ n
unfolding read
length-read zero m a = refl
length-read (suc n) m a = ap suc (length-read n m (suc a))

-- What was written is read back.
pub read-write : (m : Memory) (a : ℕ) (bs : List ℕ) → read (length bs) (write m a bs) a ≡ bs
unfolding read write
read-write m a [] = refl
read-write m a (b ∷ bs) =
    let tail : read (length bs) (update (write m (suc a) bs) a b) (suc a) ≡ bs =
      read-update (length bs) (write m (suc a) bs) a b (suc a) (omega arith)
      ∙ read-write m (suc a) bs in
    ground (arith, tail)

-- A write in two parts is two writes.
pub write-append :
    (m : Memory) (a : ℕ) (bs cs : List ℕ)
    → write m a (bs ++ cs) ≡ write (write m (a + length bs) cs) a bs
unfolding write
write-append m a [] cs = ap (λ (y : ℕ). write m y cs) (omega arith)
write-append m a (b ∷ bs) cs =
    ap (λ (m' : Memory). update m' a b)
      (write-append m (suc a) bs cs ∙ ap (λ (y : ℕ). write (write m y cs) (suc a) bs) (omega arith))
