-- ===== src/Resolve/Lowest.antt =====
-- Which pid LookupPID of pkg/k8sresolve/k8sresolve.go returns.
use epochd.Base.{
  ℕ, zero, suc, ◌≤◌, ◌<◌, ◌≡◌, ◌≢◌, ◌⊎◌, inl, inr, refl, ap, sym, true, false, none, some, take,
  List, [], ◌∷◌, ◌++◌, arith, length, All, ltb, Bool-cases, Option-cases, leb,
}
use epochd.Base.Int.{pos}
use epochd.Resolve.{
  ProcEntry, no_process, Found, found, failed, after_separator, strip_runtime_prefix, atoi,
  has_prefix, contains, entry_pid, matching_pids, insert_sorted, sort, first_pid, id_prefix,
  lookup_pid,
}

-- `p` stands somewhere in `t`.
pub record Occurs (p t : List ℕ) : Type 0 where
  pub before : List ℕ
  pub behind : List ℕ
  pub split : t ≡ before ++ (p ++ behind)

-- The process of the entry runs in the container: its pid is `n`, not 1, and its cgroup file names it.
pub record RunsIn (prefix : List ℕ) (e : ProcEntry) (n : ℕ) : Type 0 where
  pub pid : atoi e.name ≡ some (pos n)
  pub above : 1 < n
  pub text : List ℕ
  pub readable : e.cgroup ≡ some text
  pub occurs : Occurs prefix text

has_prefix_sound : (p t : List ℕ) → has_prefix p t ≡ true → (r : List ℕ) × (t ≡ p ++ r)
unfolding has_prefix
has_prefix_sound [] t h = (t, refl)
has_prefix_sound (a ∷ p) [] h = cc
has_prefix_sound (a ∷ p) (c ∷ t) h =
    let (r, e) = has_prefix_sound p t (ground (arith, h)) in (r, ground (arith, h, e))

has_prefix-append : (p r : List ℕ) → has_prefix p (p ++ r) ≡ true
unfolding has_prefix
has_prefix-append [] r = refl
has_prefix-append (a ∷ p) r = ground (arith, has_prefix-append p r)

contains_sound : (p t : List ℕ) → contains p t ≡ true → Occurs p t
unfolding contains
contains_sound p [] h =
    let (r, e) = has_prefix_sound p [] h in record { before = []; behind = r; split = e }
contains_sound p (c ∷ t) h = elim (Bool-cases (has_prefix p (c ∷ t))) [
  | inl here ↦
      let (r, e) = has_prefix_sound p (c ∷ t) here in record { before = []; behind = r; split = e }
  | inr later ↦
      let o = contains_sound p t (ground (arith, h, later)) in
      record { before = c ∷ o.before; behind = o.behind; split = ap (λ l. c ∷ l) o.split }
]

prefix-contains : (p t : List ℕ) → has_prefix p t ≡ true → contains p t ≡ true
unfolding contains
prefix-contains p [] h = h
prefix-contains p (c ∷ t) h = rw h refl

contains_complete : (p before behind : List ℕ) → contains p (before ++ (p ++ behind)) ≡ true
unfolding contains
contains_complete p [] behind = prefix-contains p _ (has_prefix-append p behind)
contains_complete p (c ∷ before) behind = ground (arith, contains_complete p before behind)

entry_pid_sound :
    (prefix : List ℕ) (e : ProcEntry) (n : ℕ) → entry_pid prefix e ≡ some n → RunsIn prefix e n
unfolding entry_pid
entry_pid_sound prefix e n h = elim (Option-cases e.cgroup) [
  | inl gone ↦ absurd (ground (arith, h, gone))
  | inr (text, there) ↦ record {
    pid = ground (arith, h, there);
    above = ground (arith, h, there);
    text = text;
    readable = there;
    occurs = contains_sound prefix text (ground (arith, h, there));
  }
]

entry_pid_complete :
    (prefix : List ℕ) (e : ProcEntry) (n : ℕ) → RunsIn prefix e n → entry_pid prefix e ≡ some n
unfolding entry_pid
entry_pid_complete prefix e n r =
    let named : contains prefix r.text ≡ true =
      rw r.occurs.split (contains_complete prefix r.occurs.before r.occurs.behind) in
    ground (arith, r.pid, r.above, r.readable, named)

-- Some entry of the list satisfies `P`.
abbrev pub Some {ℓ} : {A : Type ℓ} → (A → Type 0) → List A → Type 0
Some P [] = ⊥
Some P (x ∷ xs) = P x ⊎ Some P xs

-- The head of `l` is the least element of `ns`, and there is one if `ns` has an element.
abbrev HeadIsLeast : List ℕ → List ℕ → Type 0
HeadIsLeast [] ns = ns ≡ []
HeadIsLeast (n ∷ _) ns = All (λ m. n ≤ m) ns × Some (λ m. n ≡ m) ns

All-le : (k m : ℕ) (ns : List ℕ) → k ≤ m → All (λ j. m ≤ j) ns → All (λ j. k ≤ j) ns
All-le k m [] h a = tt
All-le k m (n ∷ ns) h (x, a) = (omega arith, All-le k m ns h a)

insert_sorted-HeadIsLeast :
    (k : ℕ) (l ns : List ℕ) → HeadIsLeast l ns → HeadIsLeast (insert_sorted k l) (k ∷ ns)
unfolding insert_sorted
insert_sorted-HeadIsLeast k [] ns h = rw h ((omega arith, tt), inl refl)
insert_sorted-HeadIsLeast k (m ∷ l) ns (a, s) = elim (Bool-cases (leb k m)) [
  | inl low ↦ rw low ((omega arith, All-le k m ns (ground (arith, low)) a), inl refl)
  | inr high ↦ rw high ((ground (arith, high), a), inr s)
]

sort-HeadIsLeast : (ns : List ℕ) → HeadIsLeast (sort ns) ns
unfolding sort
sort-HeadIsLeast [] = refl
sort-HeadIsLeast (n ∷ ns) = insert_sorted-HeadIsLeast n (sort ns) ns (sort-HeadIsLeast ns)

module _ (prefix : List ℕ) where
  abbrev pub IsBelowAll : ℕ → List ProcEntry → Type 0
  IsBelowAll n es = All (λ e. (m : ℕ) → RunsIn prefix e m → n ≤ m) es

  below_all :
      (n : ℕ) (es : List ProcEntry) → All (λ m. n ≤ m) (matching_pids prefix es) → IsBelowAll n es
  unfolding matching_pids
  below_all n [] a = tt
  below_all n (e ∷ es) a = elim (Option-cases (entry_pid prefix e)) [
    | inl nothing ↦ (
      (λ m r. absurd (ground (arith, nothing, entry_pid_complete prefix e m r))),
      below_all n es (rw (nothing, All, matching_pids) at a),
    )
    | inr (k, some_pid) ↦
        let a' = rw (some_pid, All, matching_pids) at a in
        (
          (λ m r. ground (arith, some_pid, entry_pid_complete prefix e m r, a'.0)),
          below_all n es a'.1,
        )
  ]

  Some-runs :
      (n : ℕ) (es : List ProcEntry)
      → Some (λ m. n ≡ m) (matching_pids prefix es)
      → Some (λ e. RunsIn prefix e n) es
  unfolding matching_pids
  Some-runs n [] s = s
  Some-runs n (e ∷ es) s = elim (Option-cases (entry_pid prefix e)) [
    | inl nothing ↦ inr (Some-runs n es (rw (nothing, Some, matching_pids) at s))
    | inr (k, some_pid) ↦ elim (rw (some_pid, Some, matching_pids) at s) [
      | inl same ↦ inl (entry_pid_sound prefix e n (rw same some_pid))
      | inr later ↦ inr (Some-runs n es later)
    ]
  ]

  none_runs :
      (es : List ProcEntry)
      → matching_pids prefix es ≡ []
      → All (λ e. (m : ℕ) → RunsIn prefix e m → ⊥) es
  unfolding matching_pids
  none_runs [] h = tt
  none_runs (e ∷ es) h = elim (Option-cases (entry_pid prefix e)) [
    | inl nothing ↦ (
      (λ m r. ground (arith, nothing, entry_pid_complete prefix e m r)),
      none_runs es (rw (nothing, matching_pids) at h),
    )
    | inr (k, some_pid) ↦ absurd (ground (arith, some_pid, h))
  ]

  -- What an answer about the entries means.
  abbrev pub LookupOutcome : List ProcEntry → Found → Type 0
  LookupOutcome es (found n) = Some (λ e. RunsIn prefix e n) es × IsBelowAll n es
  LookupOutcome es (failed no_process) = All (λ e. (m : ℕ) → RunsIn prefix e m → ⊥) es
  LookupOutcome es (failed _) = ⊥

  first_pid-outcome :
      (es : List ProcEntry) (l : List ℕ)
      → HeadIsLeast l (matching_pids prefix es)
      → LookupOutcome es (first_pid l)
  first_pid-outcome es [] h = none_runs es h
  first_pid-outcome es (n ∷ l) (a, s) = (Some-runs n es s, below_all n es a)

-- A text without a colon.
abbrev pub LacksColon : List ℕ → Type 0
LacksColon l = All (λ (c : ℕ). c ≢ b':') l

-- The id is the bare id of the container, or the bare id behind the name of a runtime and "://".
abbrev pub Names : List ℕ → List ℕ → Type 0
Names id bare =
    ((id ≡ bare) × LacksColon bare)
    ⊎ ((runtime : List ℕ) × (id ≡ runtime ++ b':' ∷ b'/' ∷ b'/' ∷ bare) × LacksColon runtime)

after_separator-none : (l : List ℕ) → LacksColon l → after_separator l ≡ none
unfolding after_separator
after_separator-none [] h = refl
after_separator-none (a ∷ []) h = refl
after_separator-none (a ∷ b ∷ []) h = refl
after_separator-none (a ∷ b ∷ c ∷ l) (ha, h) =
    ground (arith, ha, after_separator-none (b ∷ c ∷ l) h)

after_separator-some :
    (runtime bare : List ℕ)
    → LacksColon runtime
    → after_separator (runtime ++ b':' ∷ b'/' ∷ b'/' ∷ bare) ≡ some bare
unfolding after_separator
after_separator-some [] bare h = refl
after_separator-some (a ∷ []) bare (ha, h) = ground (arith, ha)
after_separator-some (a ∷ b ∷ []) bare (ha, h) =
    ground (arith, ha, after_separator-some (b ∷ []) bare h)
after_separator-some (a ∷ b ∷ c ∷ l) bare (ha, h) =
    ground (arith, ha, after_separator-some (b ∷ c ∷ l) bare h)

strip_runtime_prefix-bare : (id bare : List ℕ) → Names id bare → strip_runtime_prefix id ≡ bare
unfolding strip_runtime_prefix
strip_runtime_prefix-bare id bare (inl (same, h)) =
    let bare_id : after_separator id ≡ none = rw same (after_separator-none bare h) in
    rw (bare_id, strip_runtime_prefix) same
strip_runtime_prefix-bare id bare (inr (runtime, e, h)) =
    rw (e, strip_runtime_prefix, after_separator-some runtime bare h) refl

take-short : (n : ℕ) (l : List ℕ) → length l ≤ n → take n l ≡ l
take-short zero [] h = refl
take-short zero (a ∷ l) h = ground arith
take-short (suc n) [] h = refl
take-short (suc n) (a ∷ l) h = ap (λ r. a ∷ r) (take-short n l (omega arith))

id_prefix-take : (bare : List ℕ) → id_prefix bare ≡ take 20 bare
id_prefix-take bare = elim (Bool-cases (ltb 20 (length bare))) [
  | inl long ↦ rw long refl
  | inr short ↦ rw short (sym (take-short 20 bare (ground (arith, short))))
]

-- LookupPID of an id that is bare or stands behind the name of a runtime and "://", with at least 8 bytes
-- in the bare id and over a readable /proc: it returns the lowest pid above 1 whose cgroup file contains
-- the first 20 bytes of the bare id, and fails exactly when there is none.
pub lookup_pid_outcome :
    (container_id bare : List ℕ) (es : List ProcEntry)
    → Names container_id bare
    → 8 ≤ length bare
    → LookupOutcome (take 20 bare) es (lookup_pid container_id (some es))
unfolding lookup_pid
lookup_pid_outcome container_id bare es named long =
    let enough : ltb (length bare) 8 ≡ false = ground arith in
    rw (strip_runtime_prefix-bare container_id bare named, enough, id_prefix-take bare, lookup_pid)
      (first_pid-outcome _ es _ (sort-HeadIsLeast (matching_pids (take 20 bare) es)))
