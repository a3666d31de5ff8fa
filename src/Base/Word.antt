-- ===== src/Base/Word.antt =====
-- 64-bit machine words as numbers below 2 ^ 64, and the bytes of a word, least significant first.
use epochd.Base.Tests.{ltb, if◌then◌else◌}
use epochd.Base.Int.{ℤ, pos, negsuc, ◌≤ℤ◌}
use Prim.Native.Nat.{ℕ, zero, suc, ◌+◌, ◌-◌, ◌*◌, ◌<◌, ◌/◌, ◌%◌, ◌^◌}
use mathlib.Core.Path.{◌≡◌}
use mathlib.Core.List.{List, [], ◌∷◌}
use native.Mathlib.Omega.{arith}

abbrev pub word : ℕ → ℕ
word n = n % 2 ^ 64

-- The integer that a word stands for in two's complement, `int64(w)`.
abbrev pub signed64 : ℕ → ℤ
signed64 w = if ltb w (2 ^ 63) then pos w else negsuc (2 ^ 64 - w - 1)

-- The word of an integer, `uint64(i)`.
abbrev pub word_of : ℤ → ℕ
word_of (pos n) = n % 2 ^ 64
word_of (negsuc n) = 2 ^ 64 - 1 - n % 2 ^ 64

-- The range of int64.
pub record IsInt64 (i : ℤ) : Type 0 where
  pub low : negsuc (2 ^ 63 - 1) ≤ℤ i
  pub high : i ≤ℤ pos (2 ^ 63 - 1)

pub signed64-word_of : (i : ℤ) → IsInt64 i → signed64 (word_of i) ≡ i
signed64-word_of (pos n) h = ground arith
signed64-word_of (negsuc n) h = ground arith

pub word_of-lt : (i : ℤ) → word_of i < 2 ^ 64
word_of-lt (pos n) = omega arith
word_of-lt (negsuc n) = omega arith

-- The `n` low bytes of `w`.
unfoldable pub le_bytes : ℕ → ℕ → List ℕ
le_bytes zero w = []
le_bytes (suc n) w = w % 256 ∷ le_bytes n (w / 256)

-- The number that the first `n` bytes of a list spell; a missing byte counts as 0.
unfoldable pub of_le_bytes : ℕ → List ℕ → ℕ
of_le_bytes zero bs = 0
of_le_bytes (suc n) [] = 0
of_le_bytes (suc n) (b ∷ bs) = b + 256 * of_le_bytes n bs
