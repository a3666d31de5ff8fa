-- ===== src/Faketime/Session/Prune.antt =====
-- Prune, Close and PIDs of the Session of pkg/faketime/faketime.go.
use epochd.Base.{
  ℕ, suc, ◌+◌, Bool, Option, none, some, List, [], ◌∷◌, map, ◌==◌, if◌then◌else◌, length, some_pass,
}
use epochd.Faketime.Heap.{Heap}
use epochd.Faketime.Tracker.{Tracker}
use epochd.Faketime.Tracker.Update.{close}
use epochd.Faketime.Session.{Session}

module _ (is_alive : ℕ → Bool) where
  -- The first loop of Prune: the trackers whose parent lives, and those to close.
  unfoldable pub split_trackers : List Tracker → Heap → List Tracker × List Tracker
  split_trackers [] heap = ([], [])
  split_trackers (ct ∷ cts) heap =
      let (live, dead) = split_trackers cts heap in
      if is_alive (heap.handles ct.handle).h.pid then (ct ∷ live, dead) else (live, ct ∷ dead)

  -- The second loop: the handles that stay, and how many handles without a tracker are dead.
  unfoldable pub prune_handles : List Tracker → List Tracker → Heap → List ℕ → List ℕ × ℕ
  prune_handles live dead heap [] = ([], 0)
  prune_handles live dead heap (r ∷ rs) =
      let (kept, n) = prune_handles live dead heap rs in
      if some_pass (λ ct. ct.handle == r) dead
      then (kept, n)
      else if some_pass (λ ct. ct.handle == r) live
      then (r ∷ kept, n)
      else if is_alive (heap.handles r).h.pid
      then (r ∷ kept, n)
      else (kept, suc n)

  -- Prune: the number of handles removed, the session, and the trackers that it closes.
  unfoldable pub prune : Session → Heap → ℕ × Session × List Tracker
  unfolding split_trackers prune_handles
  prune s heap =
      let (live, dead) = split_trackers s.trackers heap in
      let (kept, n) = prune_handles live dead heap s.handles in
      (length dead + n, record s { handles = kept; trackers = live }, dead)

-- Session.Close: every tracker is closed and stays in the session; `none` is a panic.
unfoldable pub close_all : List Tracker → Option (List Tracker)
unfolding close
close_all [] = some []
close_all (ct ∷ cts) =
    let rest = close_all cts in
    elim (close ct) [
      | none ↦ none
      | some ct' ↦ elim rest [ none ↦ none | some cts' ↦ some (ct' ∷ cts') ]
    ]

unfoldable pub close_session : Session → Option Session
unfolding close_all
close_session s = elim (close_all s.trackers) [
  | none ↦ none
  | some cts ↦ some (record s { trackers = cts })
]

-- PIDs of a session
unfoldable pub pids : Session → Heap → List ℕ
pids s heap = map (λ r. (heap.handles r).h.pid) s.handles
