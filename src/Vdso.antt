-- ===== src/Vdso.antt =====
-- pkg/vdso/vdso.go: finding the [vdso] mapping of a process and the three entry points in it.
pub mod Within
use epochd.Base.{
  ℕ, suc, ◌+◌, ◌-◌, ◌^◌, String, Bool, true, false, ◌&&◌, ◌||◌, Option, none, some, List, [], ◌∷◌,
  ◌++◌, ltb, leb, ◌==◌, if◌then◌else◌, str_eq,
}
use epochd.Base.Word.{word}
use epochd.Inject.Gap.{Span, is_space, split_dash, Parsed, number, parse_uint}

-- A dynamic symbol, as debug/elf reads it.
pub record Symbol : Type 0 where
  pub name : String
  pub value : ℕ

pub record VdsoInfo : Type 0 where
  pub start : ℕ
  pub end : ℕ
  pub clock_gettime_addr : ℕ
  pub gettimeofday_addr : ℕ
  pub time_addr : ℕ

-- The loop of resolveSymbol over the table: a later symbol of a name replaces an earlier one.
unfoldable pub last_value : String → Option ℕ → List Symbol → Option ℕ
last_value name found [] = found
last_value name found (s ∷ syms) =
    last_value name (if str_eq s.name name then some s.value else found) syms

-- resolveSymbol: the preferred name wins over the fallback.
unfoldable pub resolve_symbol : List Symbol → String → String → Option ℕ
unfolding last_value
resolve_symbol syms preferred fallback = elim (last_value preferred none syms) [
  | some v ↦ some v
  | none ↦ last_value fallback none syms
]

-- What the range check of Locate asks of an address.
abbrev pub in_range : ℕ → ℕ → ℕ → Bool
in_range start end addr = leb start addr && ltb addr end

abbrev flush : List ℕ → List (List ℕ) → List (List ℕ)
flush [] rest = rest
flush (c ∷ cs) rest = (c ∷ cs) ∷ rest

-- strings.Fields: the fields of a line, first to last.
unfoldable pub fields_from : List ℕ → List ℕ → List (List ℕ)
fields_from field [] = flush field []
fields_from field (c ∷ cs) =
    let rest = fields_from (if is_space c then [] else field ++ c ∷ []) cs in
    if is_space c then flush field rest else rest

-- The bytes of "[vdso]".
abbrev vdso_name : List ℕ
vdso_name = b'[' ∷ b'v' ∷ b'd' ∷ b's' ∷ b'o' ∷ b']' ∷ []

abbrev bytes_eq : List ℕ → List ℕ → Bool
bytes_eq [] [] = true
bytes_eq (a ∷ as') (b ∷ bs) = a == b && bytes_eq as' bs
bytes_eq _ _ = false

abbrev pick : List (List ℕ) → Option (List ℕ)
pick (f0 ∷ f1 ∷ f2 ∷ f3 ∷ f4 ∷ f5 ∷ _) = if bytes_eq f5 vdso_name then some f0 else none
pick _ = none

-- fields[0] of a line whose sixth field is "[vdso]".
unfoldable pub vdso_range_field : List ℕ → Option (List ℕ)
unfolding fields_from
vdso_range_field line = pick (fields_from [] line)

-- The range that the field spells; `none` is an error: no '-', or text that ParseUint refuses.
unfoldable pub parse_range : List ℕ → Option Span
unfolding split_dash parse_uint
parse_range field = elim (split_dash field) [
  | none ↦ none
  | some (before, behind) ↦ elim (parse_uint before) [
    | number s ↦ elim (parse_uint behind) [
      | number e ↦ some (record { start = s; end = e })
      | _ ↦ none
    ]
    | _ ↦ none
  ]
]

-- findVDSORange: the first line that names the vDSO decides, and its errors are final.
unfoldable pub find_vdso_range : List (List ℕ) → Option Span
unfolding vdso_range_field parse_range
find_vdso_range [] = none
find_vdso_range (line ∷ lines) =
    let rest = find_vdso_range lines in
    elim (vdso_range_field line) [ none ↦ rest | some field ↦ parse_range field ]

-- What Locate takes from the outside: the lines of /proc/<pid>/maps, the reading of /proc/<pid>/mem
-- and the dynamic symbols that debug/elf finds in the bytes read.
pub record ProcFs : Type 0 where
  pub maps : Option (List (List ℕ))
  pub read_mem : ℕ → ℕ → Option (List ℕ)
  pub dynamic_symbols : List ℕ → Option (List Symbol)

-- The three addresses, checked against the range.
unfoldable pub resolve_entries : Span → List Symbol → Option VdsoInfo
unfolding resolve_symbol
resolve_entries range syms = elim (resolve_symbol syms "clock_gettime" "__vdso_clock_gettime") [
  | none ↦ none
  | some cgt ↦ elim (resolve_symbol syms "gettimeofday" "__vdso_gettimeofday") [
    | none ↦ none
    | some gtod ↦ elim (resolve_symbol syms "time" "__vdso_time") [
      | none ↦ none
      | some tim ↦
          let cgt_addr = word (range.start + cgt) in
          let gtod_addr = word (range.start + gtod) in
          let time_addr = word (range.start + tim) in
          if (in_range range.start range.end cgt_addr
            && (in_range range.start range.end gtod_addr
                && in_range range.start range.end time_addr))
          then some (record {
            start = range.start;
            end = range.end;
            clock_gettime_addr = cgt_addr;
            gettimeofday_addr = gtod_addr;
            time_addr = time_addr;
          })
          else none
    ]
  ]
]

-- Locate; `none` is any of its errors.
unfoldable pub locate : ProcFs → Option VdsoInfo
unfolding find_vdso_range resolve_entries
locate proc = elim proc.maps [
  | none ↦ none
  | some lines ↦ elim (find_vdso_range lines) [
    | none ↦ none
    | some range ↦ elim (proc.read_mem range.start (word (range.end + 2 ^ 64 - range.start))) [
      | none ↦ none
      | some bytes ↦ elim (proc.dynamic_symbols bytes) [
        | none ↦ none
        | some syms ↦ resolve_entries range syms
      ]
    ]
  ]
]
