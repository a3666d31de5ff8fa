-- ===== src/Trampoline/Installed.antt =====
-- What the loads of the hooks find in memory that holds an encoded state struct.
use epochd.Base.{ℕ, ◌+◌, ◌^◌, ◌<◌, ◌≤◌, ◌≡◌, ap, ◌∙◌, arith}
use epochd.Base.Int.{ℤ}
use epochd.Base.Word.{word_of, word_of-lt}
use epochd.Memory.{Memory, write, load, load-write-le_bytes, load-write_skip}
use epochd.Trampoline.{encode_state, state_size}

-- The state struct at the address holds these four fields.
pub record Holds (m : Memory) (state : ℕ) (sec nsec : ℤ) (mask gen : ℕ) : Type 0 where
  pub at_sec : load 8 m state ≡ word_of sec
  pub at_nsec : load 8 m (state + 8) ≡ word_of nsec
  pub at_mask : m (state + 16) ≡ mask
  pub at_generation : load 4 m (state + 24) ≡ gen

module _ (m : Memory) (a : ℕ) (sec nsec : ℤ) (mask gen : ℕ) (hm : mask < 256)
    (hg : gen < 2 ^ 32) where
  abbrev written : Memory
  written = write m a (encode_state sec nsec mask gen)

  load_mask : load 8 written (a + 8 + 8) ≡ mask
  unfolding encode_state
  load_mask =
      load-write_skip 8 8 (word_of sec) m a (a + 8 + 8) _ (omega arith)
      ∙ load-write_skip 8 8 (word_of nsec) m (a + 8) (a + 8 + 8) _ (omega arith)
      ∙ load-write-le_bytes 8 mask m (a + 8 + 8) _ (omega arith)

  load_generation : load 4 written (a + 8 + 8 + 8) ≡ gen
  unfolding encode_state
  load_generation =
      load-write_skip 4 8 (word_of sec) m a (a + 8 + 8 + 8) _ (omega arith)
      ∙ load-write_skip 4 8 (word_of nsec) m (a + 8) (a + 8 + 8 + 8) _ (omega arith)
      ∙ load-write_skip 4 8 mask m (a + 8 + 8) (a + 8 + 8 + 8) _ (omega arith)
      ∙ load-write-le_bytes 4 gen m (a + 8 + 8 + 8) _ (omega arith)

  first_byte : (x : ℕ) → load 8 written x ≡ mask → written x ≡ mask
  unfolding load
  first_byte x h = omega arith

  -- Writing an encoded state installs its fields.
  pub write-Holds : Holds written a sec nsec mask gen
  unfolding encode_state
  write-Holds = record {
    at_sec = load-write-le_bytes 8 (word_of sec) m a _ (word_of-lt sec);
    at_nsec =
        load-write_skip 8 8 (word_of sec) m a (a + 8) _ (omega arith)
        ∙ load-write-le_bytes 8 (word_of nsec) m (a + 8) _ (word_of-lt nsec);
    at_mask = ap (λ (x : ℕ). written x) (omega arith) ∙ first_byte (a + 8 + 8) load_mask;
    at_generation = ap (λ (x : ℕ). load 4 written x) (omega arith) ∙ load_generation;
  }

-- What leaves the bytes of the struct as they are keeps its fields.
pub Holds-same :
    (m m' : Memory) (state : ℕ) (sec nsec : ℤ) (mask gen : ℕ)
    → ((n c : ℕ) → state ≤ c → c + n ≤ state + state_size → load n m' c ≡ load n m c)
    → Holds m state sec nsec mask gen
    → Holds m' state sec nsec mask gen
unfolding load
Holds-same m m' state sec nsec mask gen same h = record {
  at_sec = same 8 state (omega arith) (omega arith) ∙ h.at_sec;
  at_nsec = same 8 (state + 8) (omega arith) (omega arith) ∙ h.at_nsec;
  at_mask = omega (arith, same 1 (state + 16) (omega arith) (omega arith), h.at_mask);
  at_generation = same 4 (state + 24) (omega arith) (omega arith) ∙ h.at_generation;
}
