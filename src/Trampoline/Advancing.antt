-- ===== src/Trampoline/Advancing.antt =====
-- What the hooks return in advancing mode: the real time and the offset, added with a carry.
use epochd.Base.{ℕ, ◌+◌, ◌-◌, ◌*◌, ◌^◌, ◌<◌, ◌≡◌, refl, ap, ◌∙◌, arith}
use epochd.Base.Int.{
  ℤ, pos, negsuc, ◌+ℤ◌, ◌*ℤ◌, ◌≤ℤ◌, ◌<ℤ◌, pos_part, neg_part, int_laws, +ℤ-*ℤ, eq_of_parts,
}
use epochd.Base.Word.{word, signed64, IsInt64}
use epochd.Trampoline.Hooks.{Timespec, normalise, add_normalised}

-- The instant that a timespec (limit = 10^9) or a timeval (limit = 10^6) spells, in its own units.
abbrev pub instant : ℕ → Timespec → ℤ
instant limit ts = signed64 ts.sec *ℤ limit +ℤ signed64 ts.sub_sec

pub record IsReading (limit : ℕ) (ts : Timespec) : Type 0 where
  pub sec_word : ts.sec < 2 ^ 64
  pub sub_sec_range : ts.sub_sec < limit

pub record IsOffset (limit off_sec off_sub : ℕ) : Type 0 where
  pub sec_word : off_sec < 2 ^ 64
  pub sub_word : off_sub < 2 ^ 64
  pub low : negsuc (limit - 2) ≤ℤ signed64 off_sub
  pub high : signed64 off_sub ≤ℤ pos (limit - 1)

pub signed64-word_add :
    (a b : ℕ)
    → a < 2 ^ 64
    → b < 2 ^ 64
    → IsInt64 (signed64 a +ℤ signed64 b)
    → signed64 (word (a + b)) ≡ signed64 a +ℤ signed64 b
unfolding ◌+ℤ◌
signed64-word_add a b ha hb h = ground arith

-- A carry or a borrow of `c` seconds, at `e` units each, keeps the instant.
carry :
    (limit s n sec sub : ℕ) (c e : ℤ)
    → signed64 sec ≡ signed64 s +ℤ c
    → signed64 sub ≡ signed64 n +ℤ e
    → c *ℤ limit +ℤ e ≡ pos 0
    → instant limit (record { sec = sec; sub_sec = sub }) ≡ signed64 s *ℤ limit +ℤ signed64 n
carry limit s n sec sub c e hs hn zero_sum =
    rw (hs, hn, +ℤ-*ℤ (signed64 s) c limit)
      (omega (int_laws, ap (λ (i : ℤ). pos_part i) zero_sum, ap (λ (i : ℤ). neg_part i) zero_sum))

module _ (limit s n : ℕ) (hs : s < 2 ^ 64) (hn : n < 2 ^ 64) (positive : 0 < limit)
    (hl : limit < 2 ^ 32) (s0 : negsuc (2 ^ 63 - 2) ≤ℤ signed64 s)
    (s1 : signed64 s ≤ℤ pos (2 ^ 63 - 2)) (n0 : negsuc (limit - 1) ≤ℤ signed64 n)
    (n1 : signed64 n ≤ℤ pos (2 * limit - 1)) where
  sec_up : signed64 (word (s + 1)) ≡ signed64 s +ℤ pos 1
  unfolding ◌+ℤ◌
  sec_up = ground arith

  sec_down : signed64 (word (s + (2 ^ 64 - 1))) ≡ signed64 s +ℤ negsuc 0
  unfolding ◌+ℤ◌
  sec_down = ground arith

  sub_up : signed64 n <ℤ pos 0 → signed64 (word (n + limit)) ≡ signed64 n +ℤ pos limit
  unfolding ◌+ℤ◌
  sub_up h = ground arith

  sub_down :
      pos limit ≤ℤ signed64 n
      → signed64 (word (n + (2 ^ 64 - limit))) ≡ signed64 n +ℤ negsuc (limit - 1)
  unfolding ◌+ℤ◌
  sub_down h = ground arith

  pub data Correction : Timespec → Type 0 where
    none_needed :
        pos 0 ≤ℤ signed64 n → signed64 n <ℤ pos limit → Correction (record { sec = s; sub_sec = n })
    borrowed :
        signed64 n <ℤ pos 0
        → Correction (record { sec = word (s + (2 ^ 64 - 1)); sub_sec = word (n + limit) })
    carried :
        pos limit ≤ℤ signed64 n
        → Correction (record { sec = word (s + 1); sub_sec = word (n + (2 ^ 64 - limit)) })

  pub normalise-Correction : Correction (normalise limit s n)
  unfolding normalise
  normalise-Correction = grind (arith, none_needed, borrowed, carried)

  instant-normalise : instant limit (normalise limit s n) ≡ signed64 s *ℤ limit +ℤ signed64 n
  instant-normalise = go (normalise limit s n) normalise-Correction
    where
      go : (t : Timespec) → Correction t → instant limit t ≡ signed64 s *ℤ limit +ℤ signed64 n
      go t (none_needed _ _) = refl
      go t (borrowed h) =
          carry limit s n _ _ (negsuc 0) (pos limit) sec_down (sub_up h)
            (eq_of_parts _ _ (omega int_laws))
      go t (carried h) =
          carry limit s n _ _ (pos 1) (negsuc (limit - 1)) sec_up (sub_down h)
            (eq_of_parts _ _ (omega int_laws))

  normalise-lt : (normalise limit s n).sub_sec < limit
  normalise-lt = go (normalise limit s n) normalise-Correction
    where
      go : (t : Timespec) → Correction t → t.sub_sec < limit
      go t (none_needed low high) = ground arith
      go t (borrowed h) = ground arith
      go t (carried h) = ground arith

-- A kernel reading and an offset whose sum int64 holds, with one second to spare for a carry.
pub record HasRoom (sec off_sec : ℕ) : Type 0 where
  pub low : negsuc (2 ^ 63 - 2) ≤ℤ signed64 sec +ℤ signed64 off_sec
  pub high : signed64 sec +ℤ signed64 off_sec ≤ℤ pos (2 ^ 63 - 2)

module _ (limit : ℕ) (ts : Timespec) (off_sec off_sub : ℕ) (positive : 0 < limit)
    (hl : limit < 2 ^ 32) (r : IsReading limit ts) (o : IsOffset limit off_sec off_sub)
    (room : HasRoom ts.sec off_sec) where
  signed_sec : signed64 (word (ts.sec + off_sec)) ≡ signed64 ts.sec +ℤ signed64 off_sec
  signed_sec =
      signed64-word_add ts.sec off_sec r.sec_word o.sec_word
        (record { low = omega (arith, room.low); high = omega (arith, room.high) })

  signed_sub : signed64 (word (ts.sub_sec + off_sub)) ≡ signed64 ts.sub_sec +ℤ signed64 off_sub
  unfolding ◌+ℤ◌
  signed_sub = ground (arith, r.sub_sec_range, o.low, o.high, o.sub_word)

  sub_bounds :
      (negsuc (limit - 1) ≤ℤ signed64 (word (ts.sub_sec + off_sub)))
      × (signed64 (word (ts.sub_sec + off_sub)) ≤ℤ pos (2 * limit - 1))
  sub_bounds = ground (arith, r.sub_sec_range, o.low, o.high, o.sub_word)

  -- The fraction is normalised again.
  pub add_normalised-lt : (add_normalised limit ts off_sec off_sub).sub_sec < limit
  unfolding add_normalised
  add_normalised-lt =
      normalise-lt limit (word (ts.sec + off_sec)) (word (ts.sub_sec + off_sub)) (omega arith)
        (omega arith) positive hl (rw signed_sec room.low) (rw signed_sec room.high) sub_bounds.0
        sub_bounds.1

  -- The corrected sum is the sum of the two instants.
  pub instant-add_normalised :
      instant limit (add_normalised limit ts off_sec off_sub)
      ≡ instant limit ts +ℤ (signed64 off_sec *ℤ limit +ℤ signed64 off_sub)
  unfolding add_normalised
  instant-add_normalised =
      instant-normalise limit (word (ts.sec + off_sec)) (word (ts.sub_sec + off_sub)) (omega arith)
        (omega arith) positive hl (rw signed_sec room.low) (rw signed_sec room.high) sub_bounds.0
        sub_bounds.1
      ∙ rw (signed_sec, signed_sub, +ℤ-*ℤ (signed64 ts.sec) (signed64 off_sec) limit)
          (eq_of_parts _ _ (omega int_laws))
