-- ===== src/Trampoline/RoundTrip.antt =====
-- DecodeState and EncodeState of pkg/trampoline/trampoline.go on each other.
use epochd.Base.{
  ℕ, zero, suc, ◌+◌, ◌/◌, ◌^◌, ◌<◌, ◌≡◌, refl, ap, ◌∙◌, some, List, ◌++◌, arith, length,
  length-append, drop,
}
use epochd.Base.Int.{ℤ}
use epochd.Base.Word.{
  IsInt64, signed64, word_of, word_of-lt, signed64-word_of, le_bytes, of_le_bytes,
}
use epochd.Trampoline.{encode_state, decode_state, state_size}
use native.Mathlib.Nat.{pow-succ'}

length-le_bytes : (n w : ℕ) → length (le_bytes n w) ≡ n
unfolding le_bytes
length-le_bytes zero w = refl
length-le_bytes (suc n) w = ap suc (length-le_bytes n (w / 256))

of_le_bytes-le_bytes :
    (n w : ℕ) (rest : List ℕ) → w < 256 ^ n → of_le_bytes n (le_bytes n w ++ rest) ≡ w
unfolding le_bytes of_le_bytes
of_le_bytes-le_bytes zero w rest h = omega arith
of_le_bytes-le_bytes (suc n) w rest h =
    omega (arith, of_le_bytes-le_bytes n (w / 256) rest (omega (arith, pow-succ' 256 n)))

drop-le_bytes : (n k w : ℕ) (rest : List ℕ) → drop (n + k) (le_bytes n w ++ rest) ≡ drop k rest
unfolding le_bytes
drop-le_bytes zero k w rest = ap (λ (x : ℕ). drop x rest) (omega arith)
drop-le_bytes (suc n) k w rest =
    ap (λ (x : ℕ). drop x (le_bytes (suc n) w ++ rest))
      (let e : suc n + k ≡ suc (n + k) = omega arith in e)
    ∙ drop-le_bytes n k (w / 256) rest

-- An encoded state is as long as the struct.
pub length-encode_state :
    (sec nsec : ℤ) (mask gen : ℕ) → length (encode_state sec nsec mask gen) ≡ state_size
unfolding encode_state
length-encode_state sec nsec mask gen = simp (length-append, length-le_bytes)

module _ (sec nsec : ℤ) (mask gen : ℕ) (hs : IsInt64 sec) (hn : IsInt64 nsec) (hm : mask < 2 ^ 64)
    (hg : gen < 2 ^ 32) where
  read_sec : signed64 (of_le_bytes 8 (encode_state sec nsec mask gen)) ≡ sec
  unfolding encode_state
  read_sec =
      ap (λ (w : ℕ). signed64 w) (of_le_bytes-le_bytes 8 (word_of sec) _ (word_of-lt sec))
      ∙ signed64-word_of sec hs

  read_nsec : signed64 (of_le_bytes 8 (drop 8 (encode_state sec nsec mask gen))) ≡ nsec
  unfolding encode_state
  read_nsec = rw (drop-le_bytes 8 0 (word_of sec)) (
      ap (λ (w : ℕ). signed64 w) (of_le_bytes-le_bytes 8 (word_of nsec) _ (word_of-lt nsec))
      ∙ signed64-word_of nsec hn)

  read_mask : of_le_bytes 8 (drop 16 (encode_state sec nsec mask gen)) ≡ mask
  unfolding encode_state
  read_mask =
      rw (drop-le_bytes 8 8 (word_of sec), drop-le_bytes 8 0 (word_of nsec))
        (of_le_bytes-le_bytes 8 mask _ hm)

  read_generation : of_le_bytes 4 (drop 24 (encode_state sec nsec mask gen)) ≡ gen
  unfolding encode_state
  read_generation =
      rw
        (drop-le_bytes 8 16 (word_of sec), drop-le_bytes 8 8 (word_of nsec), drop-le_bytes 8 0 mask)
        (of_le_bytes-le_bytes 4 gen _ hg)

  -- Decoding an encoded state gives back its four fields, for int64 offsets, a uint64 mask and a
  -- uint32 generation.
  pub decode_state-encode_state :
      decode_state (encode_state sec nsec mask gen)
      ≡ some (record { offset_sec = sec; offset_nsec = nsec; mask = mask; generation = gen })
  unfolding decode_state
  decode_state-encode_state = rw (length-encode_state sec nsec mask gen) (λ i. some (record {
    offset_sec = read_sec i;
    offset_nsec = read_nsec i;
    mask = read_mask i;
    generation = read_generation i;
  }))
