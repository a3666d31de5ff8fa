-- ===== src/Inject/Gap.antt =====
-- findNearbyGap of pkg/inject/inject.go: the search of /proc/<pid>/maps for a free page within
-- 2 GB of the vDSO. Addresses are 64-bit words.
pub mod Free
pub mod Reach
use epochd.Base.{
  ℕ, zero, suc, ◌+◌, ◌-◌, ◌*◌, ◌/◌, ◌%◌, ◌^◌, Bool, true, false, ◌&&◌, ◌||◌, Option, none, some,
  List, [], ◌∷◌, ltb, leb, ◌==◌, if◌then◌else◌,
}
use epochd.Base.Word.{word}

abbrev pub page_size : ℕ
page_size = 4096

abbrev pub window : ℕ
window = 2 ^ 31

-- A mapping [start, end).
pub record Span : Type 0 where
  pub start : ℕ
  pub end : ℕ

-- The window's ends, clamped where the word arithmetic wrapped.
unfoldable pub window_low : ℕ → ℕ
window_low near = let lo = word (near + 2 ^ 64 - window) in if ltb near lo then page_size else lo

unfoldable pub window_high : ℕ → ℕ
window_high near =
    let hi = word (near + window) in if ltb hi near then 2 ^ 64 - 1 - page_size else hi

-- (x + pageSize - 1) &^ (pageSize - 1)
abbrev pub align_up : ℕ → ℕ
align_up x = word (x + page_size - 1) / page_size * page_size

abbrev pub max_of : ℕ → ℕ → ℕ
max_of a b = if ltb a b then b else a

abbrev pub min_of : ℕ → ℕ → ℕ
min_of a b = if ltb b a then b else a

-- The gap after the last span within the window.
unfoldable pub last_gap : ℕ → ℕ → ℕ → Option ℕ
last_gap lo hi prev =
    let g = align_up (max_of prev lo) in
    if (leb lo g && leb (word (g + page_size)) hi) then some g else none

-- The loop over the spans; `prev` is the end of the spans seen so far.
unfoldable pub scan : ℕ → ℕ → ℕ → List Span → Option ℕ
scan lo hi prev [] = last_gap lo hi prev
scan lo hi prev (span ∷ spans) =
    let skipped = leb span.end lo in
    let rest = scan lo hi (if skipped then span.end else max_of prev span.end) spans in
    let g = align_up (max_of prev lo) in
    if skipped
    then rest
    else (if leb hi span.start
        then last_gap lo hi prev
        else (if leb (word (g + page_size)) (min_of span.start hi) then some g else rest))

-- The search over the spans that the lines of /proc/<pid>/maps give; `none` is the error.
unfoldable pub find_in_spans : ℕ → List Span → Option ℕ
unfolding scan last_gap
find_in_spans near spans = scan (window_low near) (window_high near) (window_low near) spans

-- strings.Fields: white space separates. A byte that is no space belongs to a field.
abbrev pub is_space : ℕ → Bool
is_space c = c == 32 || (leb 9 c && leb c 13)

unfoldable pub first_field : List ℕ → List ℕ
first_field [] = []
first_field (c ∷ cs) = let rest = first_field cs in if is_space c then [] else c ∷ rest

unfoldable pub skip_spaces : List ℕ → List ℕ
skip_spaces [] = []
skip_spaces (c ∷ cs) = let rest = skip_spaces cs in if is_space c then rest else c ∷ cs

-- What stands before the first '-' and behind it; `none` if there is no '-'.
unfoldable pub split_dash : List ℕ → Option (List ℕ × List ℕ)
split_dash [] = none
split_dash (c ∷ cs) =
    let rest = split_dash cs in
    if c == b'-'
    then some ([], cs)
    else elim rest [ none ↦ none | some (before, behind) ↦ some (c ∷ before, behind) ]

abbrev hex_digit : ℕ → Option ℕ
hex_digit c =
    if (leb b'0' c && leb c b'9')
    then some (c - 48)
    else if (leb b'a' c && leb c b'f')
    then some (c - 87)
    else if (leb b'A' c && leb c b'F')
    then some (c - 55)
    else none

-- The outcomes of strconv.ParseUint: a number, text that is none, or a number past 64 bits.
pub data Parsed : Type 0 where
  number : ℕ → Parsed
  syntax_error range_error : Parsed

-- The digits of strconv.ParseUint(s, 16, 64), from the number that those before spell.
unfoldable pub parse_digits : ℕ → List ℕ → Parsed
parse_digits acc [] = number acc
parse_digits acc (c ∷ cs) = elim (hex_digit c) [
  | none ↦ syntax_error
  | some d ↦
      let rest = parse_digits (acc * 16 + d) cs in
      if leb (2 ^ 64) (acc * 16 + d) then range_error else rest
]

unfoldable pub parse_uint : List ℕ → Parsed
unfolding parse_digits
parse_uint [] = syntax_error
parse_uint (c ∷ cs) = parse_digits 0 (c ∷ cs)

-- parseHexAddr drops the error: the value that ParseUint returns beside a syntax error is 0, and
-- beside a range error the largest one.
unfoldable pub parse_hex_addr : List ℕ → ℕ
unfolding parse_uint
parse_hex_addr s = elim (parse_uint s) [
  | number v ↦ v
  | syntax_error ↦ 0
  | range_error ↦ 2 ^ 64 - 1
]

-- The span of a line; a line with no field or no '-' in its first one is passed over.
unfoldable pub parse_span : List ℕ → Option Span
unfolding first_field skip_spaces split_dash parse_hex_addr
parse_span line = elim (split_dash (first_field (skip_spaces line))) [
  | none ↦ none
  | some (before, behind) ↦
      some (record { start = parse_hex_addr before; end = parse_hex_addr behind })
]

unfoldable pub parse_spans : List (List ℕ) → List Span
unfolding parse_span
parse_spans [] = []
parse_spans (line ∷ lines) =
    let rest = parse_spans lines in elim (parse_span line) [ none ↦ rest | some s ↦ s ∷ rest ]

-- findNearbyGap: the lines of the file are given.
unfoldable pub find_nearby_gap : ℕ → List (List ℕ) → Option ℕ
unfolding parse_spans find_in_spans
find_nearby_gap near lines = find_in_spans near (parse_spans lines)
