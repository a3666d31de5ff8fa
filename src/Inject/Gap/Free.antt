-- ===== src/Inject/Gap/Free.antt =====
-- The page that findNearbyGap of pkg/inject/inject.go returns, against all free pages of its window.
use epochd.Base.{
  ℕ, ◌+◌, ◌-◌, ◌%◌, ◌^◌, ◌<◌, ◌≤◌, ◌≡◌, ◌⊎◌, refl, Option, some, List, [], ◌∷◌, arith, All, leb,
  true, inl, inr,
}
use epochd.Base.Word.{word}
use epochd.Inject.Gap.{
  max_of, min_of, Span, page_size, window, window_low, window_high, align_up, last_gap, scan,
  find_in_spans,
}

-- A mapping of the user, or one of the kernel as [vsyscall] at the end of the list.
abbrev IsCanonical : Span → Type 0
IsCanonical span = (span.end < 2 ^ 63) ⊎ (2 ^ 63 + 2 ^ 32 ≤ span.start)

-- The mappings as the kernel lists them, from `p` on: in order, not overlapping, each in one half of the
-- canonical addresses.
abbrev pub IsSorted : ℕ → List Span → Type 0
IsSorted p [] = Unit
IsSorted p (span ∷ spans) =
    (p ≤ span.start) × (span.start < span.end) × IsCanonical span × IsSorted span.end spans

-- The page from `g` on does not meet the mapping.
abbrev pub Misses : ℕ → Span → Type 0
Misses g span = (g + page_size ≤ span.start) ⊎ (span.end ≤ g)

-- A page in the window that meets no mapping.
pub record IsFreePage (near : ℕ) (spans : List Span) (g : ℕ) : Type 0 where
  pub aligned : g % page_size ≡ 0
  pub above : near ≤ g + window
  pub below : g + page_size ≤ near + window
  pub free : All (Misses g) spans

Misses-All :
    (g p : ℕ) (spans : List Span) → IsSorted p spans → g + page_size ≤ p → All (Misses g) spans
Misses-All g p [] h le = tt
Misses-All g p (span ∷ spans) h le =
    (ground arith, Misses-All g span.end spans h.3 (omega (arith, h.0, h.1, le)))

module _ (lo hi : ℕ) (hlo : lo < 2 ^ 63) (hhi : hi < 2 ^ 63 + 2 ^ 32) where
  -- A page of the window that lies behind `prev`.
  record IsBehind (prev g : ℕ) : Type 0 where
    aligned : g % page_size ≡ 0
    above : lo ≤ g
    after : prev ≤ g
    below : g + page_size ≤ hi

  last_gap-IsBehind : (prev g : ℕ) → prev < 2 ^ 63 → last_gap lo hi prev ≡ some g → IsBehind prev g
  unfolding last_gap
  last_gap-IsBehind prev g hp e = record {
    aligned = ground arith;
    above = ground arith;
    after = ground arith;
    below = ground arith;
  }

  -- The gap before a span, when the loop takes it.
  gap-IsBehind :
      (prev start : ℕ)
      → prev < 2 ^ 63
      → start < 2 ^ 63
      → leb (word (align_up (max_of prev lo) + page_size)) (min_of start hi) ≡ true
      → IsBehind prev (align_up (max_of prev lo)) × (align_up (max_of prev lo) + page_size ≤ start)
  gap-IsBehind prev start hp hs fits = (
    record {
      aligned = ground arith;
      above = ground arith;
      after = ground arith;
      below = ground arith;
    },
    ground arith,
  )

  -- Where the loop stands: behind `prev`, or at its start, where a mapping may straddle `lo`.
  abbrev Follows : ℕ → List Span → Type 0
  Follows prev [] = prev < 2 ^ 63
  Follows prev (span ∷ spans) =
      (prev < 2 ^ 63)
      × ((prev ≤ span.start) ⊎ (prev ≡ lo))
      × (span.start < span.end)
      × IsCanonical span
      × IsSorted span.end spans

  IsSorted-Follows : (p : ℕ) (spans : List Span) → p < 2 ^ 63 → IsSorted p spans → Follows p spans
  IsSorted-Follows p [] small h = small
  IsSorted-Follows p (span ∷ spans) small h = (small, inl h.0, h.1, h.2, h.3)

  -- What one round of the loop does over sorted mappings.
  data Round (prev : ℕ) (span : Span) (spans : List Span) : Option ℕ → Type 0 where
    go_on :
        span.end < 2 ^ 63
        → (span.end ≤ lo)
          ⊎ (span.start < align_up (max_of prev lo) + page_size)
          ⊎ (hi < align_up (max_of prev lo) + page_size)
        → Round prev span spans (scan lo hi span.end spans)
    stop : hi ≤ span.start → Round prev span spans (last_gap lo hi prev)
    found :
        span.end < 2 ^ 63
        → leb (word (align_up (max_of prev lo) + page_size)) (min_of span.start hi) ≡ true
        → Round prev span spans (some (align_up (max_of prev lo)))

  scan-Round_near :
      (prev : ℕ) (span : Span) (spans : List Span)
      → prev < 2 ^ 63
      → (prev ≤ span.start) ⊎ (prev ≡ lo)
      → span.start < span.end
      → span.end < 2 ^ 63
      → Round prev span spans (scan lo hi prev (span ∷ spans))
  unfolding scan
  scan-Round_near prev span spans hp order lt small = grind (arith, go_on, stop, found)

  -- The mappings of the kernel end the loop.
  scan-far :
      (prev : ℕ) (span : Span) (spans : List Span)
      → span.start < span.end
      → 2 ^ 63 + 2 ^ 32 ≤ span.start
      → scan lo hi prev (span ∷ spans) ≡ last_gap lo hi prev
  unfolding scan
  scan-far prev span spans lt far = ground arith

  scan-Round :
      (prev : ℕ) (span : Span) (spans : List Span)
      → Follows prev (span ∷ spans)
      → Round prev span spans (scan lo hi prev (span ∷ spans))
  scan-Round prev span spans (hp, order, lt, inl small, sorted) =
      scan-Round_near prev span spans hp order lt small
  scan-Round prev span spans (hp, order, lt, inr far, sorted) =
      rw (scan-far prev span spans lt far) (stop (omega (arith, hhi, far)))

  last_gap-lowest :
      (prev g' : ℕ)
      → prev < 2 ^ 63
      → g' % page_size ≡ 0
      → lo ≤ g'
      → prev ≤ g'
      → g' + page_size ≤ hi
      → (g : ℕ) × (last_gap lo hi prev ≡ some g) × (g ≤ g')
  unfolding last_gap
  last_gap-lowest prev g' hp a l p b = (align_up (max_of prev lo), ground arith, ground arith)

  module _ (prev : ℕ) (span : Span) (spans : List Span) (h : Follows prev (span ∷ spans)) where
    Round-sound :
        (g : ℕ)
        → (span.end < 2 ^ 63
            → scan lo hi span.end spans ≡ some g
            → IsBehind span.end g × All (Misses g) spans)
        → (o : Option ℕ) → Round prev span spans o
        → o ≡ some g
        → IsBehind prev g × All (Misses g) (span ∷ spans)
    Round-sound g later o (go_on small _) e =
        let (b, free) = later small e in
        (
          record {
            aligned = b.aligned;
            above = b.above;
            after = omega (arith, h.0, h.1, h.2, b.above, b.after);
            below = b.below;
          },
          (inr b.after, free),
        )
    Round-sound g later o (stop past) e =
        let b = last_gap-IsBehind prev g h.0 e in
        (
          b,
          (
            inl (omega (arith, b.below)),
            Misses-All g span.end spans h.4 (omega (arith, b.below, h.2)),
          ),
        )
    Round-sound g later o (found small fits) e =
        let same : align_up (max_of prev lo) ≡ g = ground arith in
        let (b, gap) = gap-IsBehind prev span.start h.0 (omega (arith, h.2, small)) fits in
        let gap' : g + page_size ≤ span.start = rw same at gap in
        (rw same at b, (inl gap', Misses-All g span.end spans h.4 (omega (arith, gap', h.2))))

    Round-lowest :
        (g' : ℕ)
        → g' % page_size ≡ 0
        → lo ≤ g'
        → prev ≤ g'
        → g' + page_size ≤ hi
        → Misses g' span
        → (span.end < 2 ^ 63
            → span.end ≤ g'
            → (g : ℕ) × (scan lo hi span.end spans ≡ some g) × (g ≤ g'))
        → (o : Option ℕ) → Round prev span spans o
        → (g : ℕ) × (o ≡ some g) × (g ≤ g')
    Round-lowest g' a l p b misses later o (go_on small why) =
        later small (ground (arith, h.0, h.1, h.2, small))
    Round-lowest g' a l p b misses later o (stop past) = last_gap-lowest prev g' h.0 a l p b
    Round-lowest g' a l p b misses later o (found small fits) =
        (_, refl, ground (arith, h.0, h.1, h.2, small))

  scan_sound :
      (prev g : ℕ) (spans : List Span)
      → Follows prev spans
      → scan lo hi prev spans ≡ some g
      → IsBehind prev g × All (Misses g) spans
  scan_sound prev g [] h e = (last_gap-IsBehind prev g h (unfold scan in e), tt)
  scan_sound prev g (span ∷ spans) h e =
      Round-sound prev span spans h g
        (λ small. scan_sound span.end g spans (IsSorted-Follows span.end spans small h.4)) _
        (scan-Round prev span spans h) e

  scan-lowest :
      (prev g' : ℕ) (spans : List Span)
      → Follows prev spans
      → g' % page_size ≡ 0
      → lo ≤ g'
      → prev ≤ g'
      → g' + page_size ≤ hi
      → All (Misses g') spans
      → (g : ℕ) × (scan lo hi prev spans ≡ some g) × (g ≤ g')
  unfolding scan
  scan-lowest prev g' [] h a l p b free = last_gap-lowest prev g' h a l p b
  scan-lowest prev g' (span ∷ spans) h a l p b free =
      Round-lowest prev span spans h g' a l p b free.0
        (λ small behind.
          scan-lowest span.end g' spans (IsSorted-Follows span.end spans small h.4) a l behind b
            free.1)
        _ (scan-Round prev span spans h)

module _ (near : ℕ) (spans : List Span) (low : window ≤ near) (high : near < 2 ^ 63) where
  low_end : window_low near ≡ near - window
  unfolding window_low
  low_end = ground arith

  high_end : window_high near ≡ near + window
  unfolding window_high
  high_end = ground arith

module _ (near : ℕ) (spans : List Span) (low : window ≤ near) (high : near < 2 ^ 63)
    (sorted : IsSorted 0 spans) where
  lo_small : near - window < 2 ^ 63
  lo_small = omega arith

  hi_small : near + window < 2 ^ 63 + 2 ^ 32
  hi_small = omega arith

  start_Follows :
      (l : List Span)
      → IsSorted 0 l
      → Follows (near - window) (near + window) lo_small hi_small (near - window) l
  start_Follows [] h = lo_small
  start_Follows (span ∷ l) h = (lo_small, inr refl, h.1, h.2, h.3)

  -- The page that the search returns is aligned, lies wholly within 2 GB of the vDSO and meets no
  -- mapping, for mappings that are in order, each below 2 ^ 63 or from 2 ^ 63 + 2 ^ 32 on, and a
  -- vDSO between 2 GB and 2 ^ 63.
  pub find_in_spans-IsFreePage :
      (g : ℕ) → find_in_spans near spans ≡ some g → IsFreePage near spans g
  unfolding find_in_spans
  find_in_spans-IsFreePage g e =
      let e' = rw (low_end near spans low high, high_end near spans low high) at e in
      let (b, free) =
        scan_sound (near - window) (near + window) lo_small hi_small (near - window) g spans
          (start_Follows spans sorted) e' in
      record { aligned = b.aligned; above = omega (arith, b.above); below = b.below; free = free }

  -- Where some page of the window is free, the search succeeds, and that page is not lower than
  -- the one it returns, for mappings that are in order, each below 2 ^ 63 or from 2 ^ 63 + 2 ^ 32
  -- on, and a vDSO between 2 GB and 2 ^ 63.
  pub find_in_spans-lowest :
      (g' : ℕ) → IsFreePage near spans g' → (g : ℕ) × (find_in_spans near spans ≡ some g) × (g ≤ g')
  unfolding find_in_spans
  find_in_spans-lowest g' page =
      rw (low_end near spans low high, high_end near spans low high)
        (scan-lowest (near - window) (near + window) lo_small hi_small (near - window) g' spans
          (start_Follows spans sorted) page.aligned (omega (arith, page.above))
          (omega (arith, page.above)) page.below page.free)
