-- ===== src/Trampoline.antt =====
-- pkg/trampoline/trampoline.go: the layout of the injected payload, and the encoding of the state
-- struct that stands behind its code.
pub mod Hooks
pub mod RoundTrip
pub mod Advancing
pub mod Installed
pub mod Reads
use epochd.Base.{
  ℕ, ◌+◌, ◌^◌, Option, none, some, List, [], ◌∷◌, ◌++◌, length, drop, ltb, if◌then◌else◌,
}
use epochd.Base.Int.{ℤ}
use epochd.Base.Word.{word_of, signed64, le_bytes, of_le_bytes}

abbrev pub state_offset : ℕ
state_offset = 436

abbrev pub clock_gettime_entry_offset : ℕ
clock_gettime_entry_offset = 0

abbrev pub gettimeofday_entry_offset : ℕ
gettimeofday_entry_offset = 141

abbrev pub time_entry_offset : ℕ
time_entry_offset = 306

-- The mask of advancing mode: interception is on.
abbrev pub mask_enabled : ℕ
mask_enabled = 1

-- The mask of freeze mode: interception and freezing are on.
abbrev pub mask_frozen : ℕ
mask_frozen = 3

abbrev pub state_size : ℕ
state_size = 32

-- EncodeState: two int64, a uint64, a uint32 and four bytes of padding.
unfoldable pub encode_state : ℤ → ℤ → ℕ → ℕ → List ℕ
encode_state offset_sec offset_nsec mask generation =
    le_bytes 8 (word_of offset_sec)
    ++ (le_bytes 8 (word_of offset_nsec)
        ++ (le_bytes 8 mask ++ (le_bytes 4 generation ++ le_bytes 4 0)))

-- The results of DecodeState.
pub record Decoded : Type 0 where
  pub offset_sec : ℤ
  pub offset_nsec : ℤ
  pub mask : ℕ
  pub generation : ℕ

-- DecodeState; `none` is its error, a buffer that is too short.
unfoldable pub decode_state : List ℕ → Option Decoded
decode_state b =
    if ltb (length b) state_size
    then none
    else some (record {
      offset_sec = signed64 (of_le_bytes 8 b);
      offset_nsec = signed64 (of_le_bytes 8 (drop 8 b));
      mask = of_le_bytes 8 (drop 16 b);
      generation = of_le_bytes 4 (drop 24 b);
    })
