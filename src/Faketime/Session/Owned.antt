-- ===== src/Faketime/Session/Owned.antt =====
-- The steps of a session and its trackers (pkg/faketime/faketime.go), and the handles that they own.
use epochd.Base.{
  ℕ, suc, ◌+◌, ◌≤◌, ◌≡◌, ◌≢◌, refl, Bool, true, false, List, [], ◌∷◌, ◌++◌, map, arith, All, keep,
  ltb, not, some_pass, ◌⊎◌, inl, inr, ◌∙◌, Option-cases, Bool-cases, ◌==◌, if◌then◌else◌,
}
use epochd.Clock.{Time}
use epochd.Procmem.{Env, Error}
use epochd.Faketime.Heap.{Heap, Action, find, drop_key, put, run_on, run_all, gone, remaining}
use epochd.Faketime.Heap.Distinct.{IsDistinct}
use epochd.Faketime.Tracker.{
  Tracker, Reading, Status, State, new_child_tracker, ask, cont_pid, handle_fork, handle_exit,
  reinject, handle_exec, handle_signal, is_fork, is_exec, exited, signaled, continued, stopped,
  handle_event, children,
}
use epochd.Inject.Handle as Hook
use epochd.Faketime.Session.{Session, join, all_children, apply_all}

-- How often the reference stands in the list.
unfoldable pub count : ℕ → List ℕ → ℕ
count r [] = 0
count r (j ∷ js) = let rest = count r js in if j == r then suc rest else rest

-- All references of a session, those of the children of its trackers included.
abbrev pub references : Session → List ℕ
references s = s.handles ++ all_children s.trackers

-- Each reference that was allocated stands there once at most, and no other.
abbrev pub IsOwned : Session → Heap → Type 0
IsOwned s heap = (r : ℕ) → count r (references s) ≤ (if ltb r heap.next then 1 else 0)

pub count-append : (r : ℕ) (xs ys : List ℕ) → count r (xs ++ ys) ≡ count r xs + count r ys
unfolding count
count-append r [] ys = omega arith
count-append r (x ∷ xs) ys = ground (arith, count-append r xs ys)

count-keep : (p : ℕ → Bool) (r : ℕ) (xs : List ℕ) → count r (keep p xs) ≤ count r xs
unfolding count
count-keep p r [] = omega arith
count-keep p r (x ∷ xs) = ground (arith, count-keep p r xs)

count-drop_key :
    (k r : ℕ) (m : List (ℕ × ℕ))
    → count r (map (λ c. c.1) (drop_key k m)) ≤ count r (map (λ c. c.1) m)
unfolding count drop_key
count-drop_key k r [] = omega arith
count-drop_key k r ((j, x) ∷ m) = ground (arith, count-drop_key k r m)

absent : (j : ℕ) (rs : List ℕ) → count j rs ≡ 0 → All (λ i. i ≢ j) rs
unfolding count
absent j [] e = tt
absent j (r ∷ rs) e = ((λ same. ground (arith, same, e)), absent j rs (ground (arith, e)))

pub count-IsDistinct : (rs : List ℕ) → ((r : ℕ) → count r rs ≤ 1) → IsDistinct rs
unfolding count
count-IsDistinct [] h = tt
count-IsDistinct (r ∷ rs) h =
    (absent r rs (ground (arith, h r)), count-IsDistinct rs (λ j. ground (arith, h j)))

pub count-all_children :
    (r : ℕ) (before after : List Tracker) (ct : Tracker)
    → count r (all_children (before ++ ct ∷ after))
      ≡ count r (all_children before) + count r (children ct) + count r (all_children after)
unfolding all_children count
count-all_children r [] after ct = ground (arith, count-append r (children ct) (all_children after))
count-all_children r (c ∷ before) after ct = ground (
  arith,
  count-append r (children c) (all_children before),
  count-append r (children c) (all_children (before ++ ct ∷ after)),
  count-all_children r before after ct,
)

-- What does not add a reference keeps the state owned.
pub fewer-IsOwned :
    (s s' : Session) (heap heap' : Heap)
    → ((r : ℕ) → count r (references s') ≤ count r (references s))
    → heap'.next ≡ heap.next
    → IsOwned s heap
    → IsOwned s' heap'
fewer-IsOwned s s' heap heap' fewer same w r = rw same (ground (arith, fewer r, w r))

pub run_all-next :
    (act : Action) (rs : List ℕ) (heap : Heap) → (run_all act rs heap).1.next ≡ heap.next
unfolding run_all run_on
run_all-next act [] heap = refl
run_all-next act (r ∷ rs) heap = run_all-next act rs (run_on act r heap).1

committed :
    (commit : Session → Session) (live : Session) (es : List Error)
    → references (commit live) ≡ references live
    → references (elim es [ [] ↦ commit live | e ∷ rest ↦ live ]) ≡ references live
committed commit live [] same = same
committed commit live (e ∷ rest) same = refl

-- An update of the session keeps it owned.
pub apply_all-IsOwned :
    (act : Action) (commit : Session → Session) (s : Session) (heap : Heap)
    → ((live : Session) → references (commit live) ≡ references live)
    → IsOwned s heap
    → IsOwned (apply_all act commit s heap).session (apply_all act commit s heap).heap
unfolding apply_all
apply_all-IsOwned act commit s heap same w =
    let (primary, heap') = run_all act s.handles heap in
    let kids = all_children s.trackers in
    let live : Session = record s {
      handles = keep (λ r. not (some_pass (λ d. d == r) (gone primary))) s.handles;
    } in
    fewer-IsOwned s (apply_all act commit s heap).session heap (apply_all act commit s heap).heap
      (λ r.
        rw
          (committed commit live (remaining primary ++ remaining (run_all act kids heap').0)
            (same live))
          (ground (
            arith,
            count-append r live.handles kids,
            count-append r s.handles kids,
            count-keep (λ r. not (some_pass (λ d. d == r) (gone primary))) r s.handles,
          )))
      (run_all-next act kids heap' ∙ run_all-next act s.handles heap) w

pub join-IsOwned :
    (tracking : Bool) (target later : Time) (pid : ℕ) (h : Hook.Handle) (s : Session) (heap : Heap)
    → IsOwned s heap
    → IsOwned
        (join tracking target later pid h (s, heap)).0
        (join tracking target later pid h (s, heap)).1
unfolding join new_child_tracker children all_children count
join-IsOwned true target later pid h s heap w r =
    let new = heap.next ∷ [] in
    let ct = new_child_tracker heap.next pid in
    ground (
      arith,
      w r,
      count-append r s.handles (all_children s.trackers),
      count-append r (s.handles ++ new) (all_children (s.trackers ++ ct ∷ [])),
      count-append r s.handles new,
      count-all_children r s.trackers [] ct,
      count-append r (all_children s.trackers) [],
    )
join-IsOwned false target later pid h s heap w r =
    let new = heap.next ∷ [] in
    ground (
      arith,
      w r,
      count-append r s.handles (all_children s.trackers),
      count-append r (s.handles ++ new) (all_children s.trackers),
      count-append r s.handles new,
    )

-- An event of a tracker drops children, or adds the one child that the next free reference stands for.
abbrev pub IsGrown : State → State → Type 0
IsGrown st st' =
    (((r : ℕ) → count r (children st'.tracker) ≤ count r (children st.tracker))
      × (st'.heap.next ≡ st.heap.next))
    ⊎ (((r : ℕ)
          → count r (children st'.tracker)
            ≤ count r (children st.tracker) + (if st.heap.next == r then 1 else 0))
        × (st'.heap.next ≡ suc st.heap.next))

same_IsGrown :
    (st st' : State)
    → (st'.tracker.children ≡ st.tracker.children) × (st'.heap.next ≡ st.heap.next)
    → IsGrown st st'
unfolding children
same_IsGrown st st' (kids, next) = inl ((λ r. rw kids (omega arith)), next)

handle_fork-IsGrown : (rd : Reading) (pid : ℕ) (st : State) → IsGrown st (handle_fork rd pid st)
unfolding handle_fork children put count
handle_fork-IsGrown rd pid st = elim (Option-cases rd.event_msg) [
  | inl lost ↦ same_IsGrown st (handle_fork rd pid st) (rw (lost, handle_fork) (refl, refl))
  | inr (child, known) ↦
      rw (known, handle_fork)
        (inr ((λ r. ground (arith, count-drop_key child r st.tracker.children)), refl))
]

exit-children :
    (pid r : ℕ) (ct : Tracker) → count r (children (handle_exit pid ct)) ≤ count r (children ct)
unfolding handle_exit children
exit-children pid r ct = ground (arith, count-drop_key pid r ct.children)

reinject-children :
    (env : ℕ → Env) (rd : Reading) (pid r : ℕ) (st : State)
    → ((reinject env rd pid r st).tracker.children ≡ st.tracker.children)
      × ((reinject env rd pid r st).heap.next ≡ st.heap.next)
unfolding reinject
reinject-children env rd pid r st = ground arith

handle_exec-IsGrown :
    (env : ℕ → Env) (rd : Reading) (pid : ℕ) (st : State) → IsGrown st (handle_exec env rd pid st)
unfolding handle_exec children
handle_exec-IsGrown env rd pid st = elim (Bool-cases (pid == st.tracker.parent_pid)) [
  | inl parent ↦
      rw (parent, handle_exec)
        (same_IsGrown st (reinject env rd pid st.tracker.handle st)
          (reinject-children env rd pid st.tracker.handle st))
  | inr other ↦ elim (Option-cases (find pid st.tracker.children)) [
    | inl unknown ↦
        rw (other, unknown, handle_exec) (same_IsGrown st (ask (cont_pid pid 0) st) (refl, refl))
    | inr (r, child) ↦
        rw (other, child, handle_exec)
          (same_IsGrown st (reinject env rd pid r st) (reinject-children env rd pid r st))
  ]
]

handle_signal-IsGrown : (pid sig : ℕ) (st : State) → IsGrown st (handle_signal pid sig st)
unfolding handle_signal children
handle_signal-IsGrown pid sig st = same_IsGrown st (handle_signal pid sig st) (ground arith)

pub handle_event-IsGrown :
    (env : ℕ → Env) (rd : Reading) (pid : ℕ) (status : Status) (st : State)
    → IsGrown st (handle_event env rd pid status st)
unfolding handle_event
handle_event-IsGrown env rd pid exited st = inl ((λ r. exit-children pid r st.tracker), refl)
handle_event-IsGrown env rd pid signaled st = inl ((λ r. exit-children pid r st.tracker), refl)
handle_event-IsGrown env rd pid continued st = inl ((λ r. omega arith), refl)
handle_event-IsGrown env rd pid (stopped sig event) st =
    let forked = handle_fork-IsGrown rd pid st in
    let execed = handle_exec-IsGrown env rd pid st in
    let signalled = handle_signal-IsGrown pid sig st in
    elim (Bool-cases (is_fork sig event)) [
      | inl e ↦ rw (e, handle_event) forked
      | inr e ↦ elim (Bool-cases (is_exec sig event)) [
        | inl e' ↦ rw (e, e', handle_event) execed
        | inr e' ↦ rw (e, e', handle_event) signalled
      ]
    ]

pub grown-IsOwned :
    (s : Session) (before after : List Tracker) (st st' : State)
    → IsGrown st st'
    → IsOwned (record s { trackers = before ++ st.tracker ∷ after }) st.heap
    → IsOwned (record s { trackers = before ++ st'.tracker ∷ after }) st'.heap
grown-IsOwned s before after st st' (inl (fewer, same)) w r = rw same (
    ground (
      arith,
      w r,
      fewer r,
      count-append r s.handles (all_children (before ++ st.tracker ∷ after)),
      count-append r s.handles (all_children (before ++ st'.tracker ∷ after)),
      count-all_children r before after st.tracker,
      count-all_children r before after st'.tracker,
    ))
grown-IsOwned s before after st st' (inr (more, same)) w r = rw same (
    ground (
      arith,
      w r,
      more r,
      count-append r s.handles (all_children (before ++ st.tracker ∷ after)),
      count-append r s.handles (all_children (before ++ st'.tracker ∷ after)),
      count-all_children r before after st.tracker,
      count-all_children r before after st'.tracker,
    ))
