-- ===== src/Faketime/Session/Shared.antt =====
-- The clocks of a Session (pkg/faketime/faketime.go) and of its processes after an update.
use epochd.Base.{
  ℕ, ◌≡◌, refl, ap, ◌∙◌, ◌⊎◌, Bool, true, false, not, List, [], ◌++◌, All, if◌then◌else◌, keep, ap,
  map, ◌∷◌,
}
use epochd.Base.Int.{◌-ℤ◌}
use epochd.Base.Word.{IsInt64}
use epochd.Clock.{Time, Duration, add, add-sub}
use epochd.Procmem.{Env, Machine, ok}
use epochd.Faketime.{Handle}
use epochd.Faketime.Shown.{IsShowing, set_time-IsShowing, freeze-IsShowing}
use epochd.Faketime.Heap.{
  Heap, Action, run_all, is_gone, remaining, gone, set_time_action, freeze_action,
}
use epochd.Faketime.Heap.Distinct.{IsDistinct, IsSettled, run_all-IsSettled}
use epochd.Faketime.Heap.Survivors.{
  listed, listed_self, live_All, map-run_all, run_all-append, remaining-append, All-split,
}
use epochd.Faketime.Tracker.{Tracker, children}
use epochd.Faketime.Session.{
  Session, Applied, effective_target, all_children, apply_all, moved, stopped_at, set_time, freeze,
  advance,
}

-- The handles of `s` whose processes are there after the update.
abbrev pub live_handles : Session → Applied → List ℕ
live_handles s a = keep (λ r. not (listed (gone a.primary) r)) s.handles

module _ (act : Action) (P : ℕ → Handle → Type 0)
    (lands : (r : ℕ) (h : Handle) (s : Machine)
      → (act r h s).result ≡ ok tt
      → P r (act r h s).handle) where
  -- After a success of applyAll on different handles: every handle that stays satisfies `P`, as every
  -- child does whose process is not gone, and the session is committed.
  record IsApplied (commit : Session → Session) (s : Session) (a : Applied) : Type 0 where
    pub own : All (λ r. P r (a.heap.handles r)) (live_handles s a)
    pub children : All (IsSettled act P lands a.heap) a.extra
    pub session : a.session ≡ commit (record s { handles = live_handles s a })
    pub asked : map (λ p. p.0) a.primary ≡ s.handles
    pub children_asked : map (λ p. p.0) a.extra ≡ all_children s.trackers

  apply_all-IsApplied :
      (commit : Session → Session) (s : Session) (heap : Heap)
      → IsDistinct (s.handles ++ all_children s.trackers)
      → (apply_all act commit s heap).errors ≡ []
      → IsApplied commit s (apply_all act commit s heap)
  unfolding apply_all
  apply_all-IsApplied commit s heap d e =
      let primary = (run_all act s.handles heap).0 in
      let heap' = (run_all act s.handles heap).1 in
      let js = all_children s.trackers in
      let (extra, last) = run_all act js heap' in
      let both = run_all-append act s.handles js heap in
      let clear : remaining (run_all act (s.handles ++ js) heap).0 ≡ [] =
        ap (λ p. remaining p.0) both ∙ remaining-append primary extra ∙ e in
      let settled : All (IsSettled act P lands last) (primary ++ extra) =
        rw both at (run_all-IsSettled act P lands (s.handles ++ js) heap d clear) in
      let (own, kids) = All-split (IsSettled act P lands last) primary extra settled in
      let kept =
        live_All (λ r. P r (last.handles r)) (gone primary) primary own
          (listed_self (gone primary)) in
      record {
        own = rw (map-run_all act s.handles heap) at kept;
        children = kids;
        session = rw (e, apply_all) refl;
        asked = map-run_all act s.handles heap;
        children_asked = map-run_all act js heap';
      }

-- The handles of all children of the trackers, one tracker after the other.
abbrev pub tracked_handles : List Tracker → List ℕ
tracked_handles [] = []
tracked_handles (ct ∷ cts) = map (λ (c : ℕ × ℕ). c.1) ct.children ++ tracked_handles cts

-- Each handle of `s` and each handle of a child of its trackers had its update, in this order, and those handles
-- stay in the session whose process is there. The session and its handles then show `target` in one mode: each handle at
-- the last reading of the clock in its own update, the session at `last`. A child may be gone.
pub record IsShared (s : Session) (frozen : Bool) (later : ℕ → Time) (last target : Time)
    (a : Applied) : Type 0 where
  pub asked : map (λ p. p.0) a.primary ≡ s.handles
  pub children_asked : map (λ p. p.0) a.extra ≡ tracked_handles s.trackers
  pub stays : a.session.handles ≡ live_handles s a
  pub own : All (λ r. IsShowing (a.heap.handles r) frozen (later r) target) a.session.handles
  pub children :
      All
        (λ p. (is_gone p.1 ≡ true) ⊎ IsShowing (a.heap.handles p.0) frozen (later p.0) target)
        a.extra
  pub mode : a.session.frozen ≡ frozen
  pub shown : effective_target a.session last ≡ target

all_children-tracked : (cts : List Tracker) → all_children cts ≡ tracked_handles cts
unfolding all_children children
all_children-tracked [] = refl
all_children-tracked (ct ∷ cts) =
    ap (λ l. map (λ (c : ℕ × ℕ). c.1) ct.children ++ l) (all_children-tracked cts)

module _ (env : ℕ → Env) (now later : ℕ → Time) (last : Time) (s : Session) (heap : Heap) where
  set_time-IsShared :
      (target : Time)
      → IsDistinct (s.handles ++ all_children s.trackers)
      → (set_time env now later last target s heap).errors ≡ []
      → ((r : ℕ) → IsInt64 (target -ℤ later r))
      → IsInt64 (target -ℤ last)
      → IsShared s false later last target (set_time env now later last target s heap)
  unfolding set_time effective_target
  set_time-IsShared target d e spans span =
      let a =
        apply_all-IsApplied (set_time_action env now later target)
          (λ r h. IsShowing h false (later r) target)
          (λ r h m done.
            set_time-IsShowing (env h.h.pid) h (now r) (later r) target m done (spans r))
          (moved last target) s heap d e in
      record {
        asked = a.asked;
        children_asked = a.children_asked ∙ all_children-tracked s.trackers;
        stays = ap (λ t. t.handles) a.session;
        own = rw a.session a.own;
        children = a.children;
        mode = rw a.session refl;
        shown = rw a.session (add-sub target last span);
      }

  freeze-IsShared :
      (target : Time)
      → IsDistinct (s.handles ++ all_children s.trackers)
      → (freeze env now later target s heap).errors ≡ []
      → IsShared s true later last target (freeze env now later target s heap)
  unfolding freeze effective_target
  freeze-IsShared target d e =
      let a =
        apply_all-IsApplied (freeze_action env target) (λ r h. IsShowing h true (later r) target)
          (λ r h m done. freeze-IsShowing (env h.h.pid) h (later r) target m done)
          (stopped_at target) s heap d e in
      record {
        asked = a.asked;
        children_asked = a.children_asked ∙ all_children-tracked s.trackers;
        stays = ap (λ t. t.handles) a.session;
        own = rw a.session a.own;
        children = a.children;
        mode = rw a.session refl;
        shown = rw a.session refl;
      }

  -- Session.Advance without an error keeps the mode: the session, every handle that stays in it and
  -- every child whose process is there then show what the session showed before plus `d`, each at the
  -- last reading of the clock in its own update: for different handles and a target within the range of a
  -- Duration from those readings.
  pub advance-IsShared :
      (first : Time) (delta : Duration)
      → IsDistinct (s.handles ++ all_children s.trackers)
      → (advance env now later first last delta s heap).errors ≡ []
      → ((r : ℕ) → IsInt64 (add (effective_target s first) delta -ℤ later r))
      → IsInt64 (add (effective_target s first) delta -ℤ last)
      → IsShared s s.frozen later last
          (add (effective_target s first) delta)
          (advance env now later first last delta s heap)
  unfolding advance
  advance-IsShared first delta d e spans span =
      let target = add (effective_target s first) delta in
      let fixed = freeze env now later target s heap in
      let moving = set_time env now later last target s heap in
      elim s.frozen
          as (λ b.
            (if b then fixed else moving).errors ≡ []
            → IsShared s b later last target (if b then fixed else moving)) [
              | true ↦ λ none_left. freeze-IsShared target d none_left
              | false ↦ λ none_left. set_time-IsShared target d none_left spans span
            ]
        e
