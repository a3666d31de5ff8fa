-- ===== src/Faketime/Session/Reached.antt =====
-- The sessions that a program reaches with NewSession and the methods of a session, with the events of
-- its trackers in between (pkg/faketime/faketime.go).
use epochd.Base.{ℕ, Bool, String, List, ◌∷◌, ◌++◌}
use epochd.Clock.{Time}
use epochd.Procmem.{Env, Result}
use epochd.Inject.Sequence.{Target}
use epochd.Inject.Handle as Hook
use epochd.Faketime.Heap.{Heap}
use epochd.Faketime.Tracker.{Tracker, State, Reading, Status, handle_event}
use epochd.Faketime.Session.{Session, attach, start, set_time, freeze}
use epochd.Faketime.Session.Prune.{prune}
use epochd.Faketime.Session.Owned.{IsOwned}

-- A session with the handles and the processes behind it.
pub record Running : Type 0 where
  pub session : Session
  pub heap : Heap

abbrev pub added : Result Unit × Session × Heap → Running
added (r, s, heap) = record { session = s; heap = heap }

-- The state in which the trackers `before`, that of `st` and `after` stand.
abbrev pub around : Session → List Tracker → List Tracker → State → Running
around s before after st = record {
  session = record s { trackers = before ++ st.tracker ∷ after };
  heap = st.heap;
}

-- Advance and Reset are a SetTime or a Freeze.
pub data Step (env : ℕ → Env) : Running → Running → Type 0 where
  attached :
      (early now later : Time) (t : Target) (path : String) (c : Running)
      → Step env c (added (attach env early now later t path (c.session, c.heap)))
  started :
      (early now later : Time) (t : Target) (path : String) (plain : Result Unit) (c : Running)
      → Step env c (added (start env early now later t path plain (c.session, c.heap)))
  timed :
      (now later : ℕ → Time) (last target : Time) (c : Running)
      → Step env c (record {
        session = (set_time env now later last target c.session c.heap).session;
        heap = (set_time env now later last target c.session c.heap).heap;
      })
  frozen :
      (now later : ℕ → Time) (target : Time) (c : Running)
      → Step env c (record {
        session = (freeze env now later target c.session c.heap).session;
        heap = (freeze env now later target c.session c.heap).heap;
      })
  observed :
      (rd : Reading) (pid : ℕ) (status : Status) (s : Session) (before after : List Tracker)
      (st : State)
      → Step env
          (around s before after st)
          (around s before after (handle_event env rd pid status st))
  pruned :
      (is_alive : ℕ → Bool) (c : Running)
      → Step env c (record { session = (prune is_alive c.session c.heap).1; heap = c.heap })

pub data Steps (env : ℕ → Env) : Running → Running → Type 0 where
  over : (c : Running) → Steps env c c
  followed : (c c' c'' : Running) → Step env c c' → Steps env c' c'' → Steps env c c''

module _ (env : ℕ → Env) where
  abbrev IsSafe : Running → Type 0
  IsSafe c = IsOwned c.session c.heap
