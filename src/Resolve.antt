-- ===== src/Resolve.antt =====
-- pkg/k8sresolve/k8sresolve.go: the init pid of a container, from what /proc shows. Text is a list of
-- bytes; the entries of /proc with their cgroup files are an argument.
pub mod Lowest
use epochd.Base.{
  ℕ, ◌+◌, ◌-◌, ◌*◌, ◌^◌, Bool, true, false, ◌&&◌, Option, none, some, List, [], ◌∷◌, length, take,
  ltb, leb, ◌==◌, if◌then◌else◌,
}
use epochd.Base.Int.{ℤ, pos, negsuc, sub_ℕ}

-- An entry of /proc: its name and its cgroup file, which may be gone.
pub record ProcEntry : Type 0 where
  pub name : List ℕ
  pub cgroup : Option (List ℕ)

pub data LookupError : Type 0 where
  too_short read_failed no_process : LookupError

pub data Found : Type 0 where
  found : ℕ → Found
  failed : LookupError → Found

-- strings.Index(id, "://"), and what follows it.
unfoldable pub after_separator : List ℕ → Option (List ℕ)
after_separator (a ∷ b ∷ c ∷ rest) =
    let later = after_separator (b ∷ c ∷ rest) in
    if a == b':' && (b == b'/' && c == b'/') then some rest else later
after_separator _ = none

-- stripRuntimePrefix
unfoldable pub strip_runtime_prefix : List ℕ → List ℕ
unfolding after_separator
strip_runtime_prefix id = elim (after_separator id) [ none ↦ id | some rest ↦ rest ]

-- The value of a text of digits behind `acc`; `none` if another byte stands there.
unfoldable pub digits : ℕ → List ℕ → Option ℕ
digits acc [] = some acc
digits acc (c ∷ cs) =
    let rest = digits (acc * 10 + (c - b'0')) cs in if leb b'0' c && leb c b'9' then rest else none

abbrev signed : Bool → Option ℕ → Option ℤ
signed minus none = none
signed true (some n) = if leb n (2 ^ 63) then some (sub_ℕ 0 n) else none
signed false (some n) = if ltb n (2 ^ 63) then some (pos n) else none

abbrev number : List ℕ → Option ℕ
number [] = none
number (c ∷ cs) = digits 0 (c ∷ cs)

-- strconv.Atoi: an optional sign, digits, and the range of int.
unfoldable pub atoi : List ℕ → Option ℤ
unfolding digits
atoi [] = none
atoi (c ∷ cs) =
    if c == b'-'
    then signed true (number cs)
    else (if c == b'+' then signed false (number cs) else signed false (number (c ∷ cs)))

unfoldable pub has_prefix : List ℕ → List ℕ → Bool
has_prefix [] t = true
has_prefix (p ∷ ps) [] = false
has_prefix (p ∷ ps) (c ∷ cs) = c == p && has_prefix ps cs

-- strings.Contains(t, p)
unfoldable pub contains : List ℕ → List ℕ → Bool
unfolding has_prefix
contains p [] = has_prefix p []
contains p (c ∷ cs) = let rest = contains p cs in if has_prefix p (c ∷ cs) then true else rest

abbrev matched : List ℕ → Option (List ℕ) → Bool
matched prefix none = false
matched prefix (some text) = contains prefix text

-- One round of the loop over the entries.
unfoldable pub entry_pid : List ℕ → ProcEntry → Option ℕ
unfolding atoi contains
entry_pid prefix e = elim (atoi e.name) [
  | none ↦ none
  | some (negsuc n) ↦ none
  | some (pos n) ↦ if leb n 1 then none else (if matched prefix e.cgroup then some n else none)
]

unfoldable pub matching_pids : List ℕ → List ProcEntry → List ℕ
unfolding entry_pid
matching_pids prefix [] = []
matching_pids prefix (e ∷ es) =
    let rest = matching_pids prefix es in
    elim (entry_pid prefix e) [ none ↦ rest | some n ↦ n ∷ rest ]

unfoldable pub insert_sorted : ℕ → List ℕ → List ℕ
insert_sorted n [] = n ∷ []
insert_sorted n (m ∷ ms) = if leb n m then n ∷ m ∷ ms else m ∷ insert_sorted n ms

-- sort.Ints
unfoldable pub sort : List ℕ → List ℕ
unfolding insert_sorted
sort [] = []
sort (n ∷ ns) = insert_sorted n (sort ns)

abbrev pub first_pid : List ℕ → Found
first_pid [] = failed no_process
first_pid (n ∷ ns) = found n

-- The discriminator: at most 20 bytes of the bare id.
abbrev pub id_prefix : List ℕ → List ℕ
id_prefix id = if ltb 20 (length id) then take 20 id else id

-- LookupPID; `none` for the entries is a failed ReadDir.
unfoldable pub lookup_pid : List ℕ → Option (List ProcEntry) → Found
unfolding strip_runtime_prefix matching_pids sort
lookup_pid container_id entries =
    let id = strip_runtime_prefix container_id in
    if ltb (length id) 8 then failed too_short else elim entries [
      | none ↦ failed read_failed
      | some es ↦ first_pid (sort (matching_pids (id_prefix id) es))
    ]
