-- ===== src/Inject/Gap/Reach.antt =====
-- The edge of the window of findNearbyGap (pkg/inject/inject.go) against the reach of the jump that
-- is written to the page it returns.
use epochd.Base.{ℕ, ◌-◌, ◌%◌, ◌^◌, ◌<◌, ◌≤◌, ◌≡◌, false, some, [], arith}
use epochd.Inject.Gap.{window_low, window_high, last_gap, scan, find_in_spans}
use epochd.Inject.Jump.{displacement, sign_extend_32, fits_rel32}

-- For a vDSO entry at the start of a page, at least 2 GB up, and an empty list of mappings, the
-- search returns the page that starts exactly 2 GB below the entry, and the check of the jump then
-- refuses that page: the displacement counts from the end of the five bytes.
pub edge_page-misses :
    (near : ℕ)
    → near % 4096 ≡ 0
    → 2 ^ 31 ≤ near
    → near < 2 ^ 62
    → (find_in_spans near [] ≡ some (near - 2 ^ 31))
      × (fits_rel32 (displacement (near - 2 ^ 31) near) ≡ false)
unfolding find_in_spans scan last_gap window_low window_high displacement sign_extend_32 fits_rel32
edge_page-misses near aligned low high = (ground arith, ground arith)
