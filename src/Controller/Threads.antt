-- ===== src/Controller/Threads.antt =====
-- The operations of cmd/controller/controller.go as the threads that serve them run: in sections between the
-- locks and the calls of the agents, in any order. The watcher is not among the threads.
pub mod Counted
pub mod Alone
pub mod Races
pub mod Lost
use epochd.Base.{
  ℕ, suc, ◌+◌, ◌≡◌, String, Bool, true, false, not, Option, none, some, List, [], ◌∷◌, ◌++◌, map,
  if◌then◌else◌, keep, some_pass,
}
use epochd.Base.Int.{ℤ, pos, ◌+ℤ◌}
use epochd.Clock.{Time, Duration}
use epochd.Controller.{
  ContainerHandle, ContainerStatus, Timeshift, Pod, reset_call, Agents, Timeshifts, Controller,
  Error,
}
use epochd.Controller.Registry.{lookup, insert, remove}
use epochd.Controller.Create.{check_conflicts, Progress, inject_container, new_timeshift}
use epochd.Controller.Update.{Sent, send, retarget, advanced_target, get_elem?}
use epochd.Controller.Remove.{drop_active, is_expired}

-- The arguments of createTimeshift and of updateTimeshift.
pub record CreateJob : Type 0 where
  pub namespace : String
  pub label_selector : String
  pub target : Time
  pub ttl : Duration
  pub freeze : Bool

pub record UpdateJob : Type 0 where
  pub id : String
  pub target : Time
  pub freeze : Bool

-- What an operation does after its persist.
pub data After : Type 0 where
  finished : After
  reset_one : String → After
  expire : List String → After

-- Where a thread stands, with its local variables.
pub data Thread : Type 0 where
  idle : Thread
  injecting : CreateJob → List (Pod × ContainerStatus) → List ContainerHandle → Thread
  counting : Thread  -- createTimeshift, before timeshiftsActive.Inc
  encoding : After → Thread  -- persist, before it takes the lock
  flushing : Timeshifts → After → Thread
  finding : UpdateJob → Thread  -- updateTimeshift, before getTimeshift
  copying : UpdateJob → Thread  -- updateTimeshift, before the copy of the handles
  sending : UpdateJob → List ContainerHandle → ℕ → List ContainerHandle → List (ℕ × String) → Thread
  uncounting : String → Thread  -- deleteTimeshift, before timeshiftsActive.Dec
  resetting : String → ℕ → List String → Thread  -- resetHandles at an index; then the rest of a sweep
  expiring : List String → Thread  -- the last loop of sweepExpired

-- What the threads share: the controller, and the timeshifts that were removed, to which threads hold
-- pointers.
pub record Shared : Type 0 where
  pub ctl : Controller
  pub gone : Timeshifts

-- The timeshift that a pointer with this id leads to.
unfoldable pub object : String → Shared → Option Timeshift
object id s = elim (lookup id s.ctl.timeshifts) [ some t ↦ some t | none ↦ lookup id s.gone ]

-- A write through a pointer.
unfoldable pub adjust : String → (Timeshift → Timeshift) → Timeshifts → Timeshifts
adjust id g m = elim (lookup id m) [ none ↦ m | some t ↦ insert id (g t) m ]

unfoldable pub write : String → (Timeshift → Timeshift) → Shared → Shared
unfolding adjust
write id g s = record {
  ctl = record s.ctl { timeshifts = adjust id g s.ctl.timeshifts };
  gone = adjust id g s.gone;
}

abbrev pub after_persist : After → Thread
after_persist finished = idle
after_persist (reset_one id) = resetting id 0 []
after_persist (expire ids) = expiring ids

abbrev pub pod_containers : Pod → List ContainerStatus → List (Pod × ContainerStatus)
pod_containers pod [] = []
pod_containers pod (cs ∷ css) = (pod, cs) ∷ pod_containers pod css

-- The containers in the order in which createTimeshift injects them.
abbrev pub containers : List Pod → List (Pod × ContainerStatus)
containers [] = []
containers (pod ∷ pods) = pod_containers pod pod.statuses ++ containers pods

-- Registration, under the lock.
abbrev pub registered : String → Timeshift → Shared → Shared
registered id t s = record s { ctl = record s.ctl { timeshifts = insert id t s.ctl.timeshifts } }

abbrev pub counted : Shared → Shared
counted s = record s {
  ctl = record s.ctl { met = record s.ctl.met { active = s.ctl.met.active +ℤ pos 1 } };
}

abbrev pub uncounted : Shared → Shared
uncounted s = record s { ctl = record s.ctl { met = drop_active s.ctl.met } }

-- What one container of injectPod leaves.
abbrev pub injected : Shared → Progress → Shared
injected s p = record s { ctl = record s.ctl { calls = p.calls; met = p.met } }

abbrev pub sent : Shared → Sent → Shared
sent s st = record s { ctl = record s.ctl { calls = st.calls; met = st.met } }

abbrev pub flushed : Bool → Timeshifts → Shared → Shared
flushed ok m s = record s { ctl = record s.ctl { saved = if ok then some m else s.ctl.saved } }

-- deleteTimeshift and sweepExpired, under the lock.
abbrev pub removed : String → Timeshift → Shared → Shared
removed id t s = record {
  ctl = record s.ctl { timeshifts = remove id s.ctl.timeshifts };
  gone = (id, t) ∷ s.gone;
}

abbrev pub swept : Time → Shared → Shared
swept now s = record {
  ctl = record s.ctl { timeshifts = keep (λ e. not (is_expired now e)) s.ctl.timeshifts };
  gone = keep (is_expired now) s.ctl.timeshifts ++ s.gone;
}

abbrev pub expired_one : Shared → Shared
expired_one s = record s {
  ctl = record s.ctl {
    met = drop_active (record s.ctl.met { sweep_expired = s.ctl.met.sweep_expired + 1 });
  };
}

abbrev pub reset_sent : ContainerHandle → Shared → Shared
reset_sent h s = record s {
  ctl = record s.ctl { calls = s.ctl.calls ++ reset_call h.node_ip h.agent_handle ∷ [] };
}

-- One section of one thread. Those exits of the operations are left out that change nothing before their first
-- section is over: a list of pods that is empty or fails, an unknown id.
pub data Move (agents : Agents) (s : Shared) : Thread → Shared → Thread → Type 0 where
  create_checks :
      (job : CreateJob) (pod : Pod) (pods : List Pod)
      → check_conflicts s.ctl.timeshifts job.namespace (pod ∷ pods) ≡ none
      → Move agents s idle s (injecting job (containers (pod ∷ pods)) [])
  create_conflicts :
      (job : CreateJob) (pod : Pod) (pods : List Pod) (e : Error)
      → check_conflicts s.ctl.timeshifts job.namespace (pod ∷ pods) ≡ some e
      → Move agents s idle s idle
  create_injects :
      (job : CreateJob) (pod : Pod) (cs : ContainerStatus) (todo : List (Pod × ContainerStatus))
      (hs : List ContainerHandle) (p : Progress)
      → inject_container agents pod job.target job.freeze cs
          (record { handles = hs; calls = s.ctl.calls; met = s.ctl.met })
        ≡ p
      → Move agents s
          (injecting job ((pod, cs) ∷ todo) hs)
          (injected s p)
          (injecting job todo p.handles)
  create_fails : (job : CreateJob) → Move agents s (injecting job [] []) s idle
  create_registers :
      (job : CreateJob) (id : String) (now : Time) (h : ContainerHandle) (hs : List ContainerHandle)
      → lookup id s.ctl.timeshifts ≡ none
      → Move agents s
          (injecting job [] (h ∷ hs))
          (registered id
            (new_timeshift id job.namespace job.label_selector job.target job.ttl job.freeze now
              (h ∷ hs))
            s)
          counting
  create_counts : Move agents s counting (counted s) (encoding finished)
  persist_encodes :
      (k : After)
      → s.ctl.has_store ≡ true
      → Move agents s (encoding k) s (flushing s.ctl.timeshifts k)
  persist_skips :
      (k : After) → s.ctl.has_store ≡ false → Move agents s (encoding k) s (after_persist k)
  -- The write, or its failure; an encoding that fails ends as a write that does.
  persist_flushes :
      (ok : Bool) (m : Timeshifts) (k : After)
      → Move agents s (flushing m k) (flushed ok m s) (after_persist k)
  update_begins : (job : UpdateJob) → Move agents s idle s (finding job)
  advance_begins :
      (id : String) (now : Time) (delta : Duration) (freeze : Bool) (t : Timeshift)
      → lookup id s.ctl.timeshifts ≡ some t
      → Move agents s idle s
          (finding (record { id = id; target = advanced_target now delta t; freeze = freeze }))
  update_fails :
      (job : UpdateJob) → lookup job.id s.ctl.timeshifts ≡ none → Move agents s (finding job) s idle
  update_finds :
      (job : UpdateJob) (t : Timeshift)
      → lookup job.id s.ctl.timeshifts ≡ some t
      → Move agents s (finding job) s (copying job)
  update_copies :
      (job : UpdateJob) (t : Timeshift)
      → object job.id s ≡ some t
      → Move agents s (copying job) s (sending job t.handles 0 t.handles [])
  update_sends :
      (job : UpdateJob) (copied : List ContainerHandle) (i : ℕ) (h : ContainerHandle)
      (hs : List ContainerHandle) (us : List (ℕ × String)) (st : Sent)
      → send agents job.target job.freeze i h
          (record { updates = us; calls = s.ctl.calls; met = s.ctl.met })
        ≡ st
      → Move agents s
          (sending job copied i (h ∷ hs) us)
          (sent s st)
          (sending job copied (suc i) hs st.updates)
  update_applies :
      (job : UpdateJob) (copied : List ContainerHandle) (i : ℕ) (us : List (ℕ × String))
      (now : Time)
      → Move agents s
          (sending job copied i [] us)
          (write job.id (retarget copied us job.target job.freeze now) s)
          (encoding finished)
  delete_removes :
      (id : String) (t : Timeshift)
      → lookup id s.ctl.timeshifts ≡ some t
      → Move agents s idle (removed id t s) (uncounting id)
  delete_counts :
      (id : String) → Move agents s (uncounting id) (uncounted s) (encoding (reset_one id))
  sweep_removes :
      (now : Time)
      → some_pass (is_expired now) s.ctl.timeshifts ≡ true
      → Move agents s idle
          (swept now s)
          (encoding (expire (map (λ e. e.0) (keep (is_expired now) s.ctl.timeshifts))))
  sweep_counts :
      (id : String) (ids : List String)
      → Move agents s (expiring (id ∷ ids)) (expired_one s) (resetting id 0 ids)
  sweep_ends : Move agents s (expiring []) s idle
  reset_sends :
      (id : String) (i : ℕ) (ids : List String) (t : Timeshift) (h : ContainerHandle)
      → object id s ≡ some t
      → get_elem? t.handles i ≡ some h
      → Move agents s (resetting id i ids) (reset_sent h s) (resetting id (suc i) ids)
  reset_ends :
      (id : String) (i : ℕ) (ids : List String) (t : Timeshift)
      → object id s ≡ some t
      → get_elem? t.handles i ≡ none
      → Move agents s (resetting id i ids) s (expiring ids)

-- The controller and its threads; one thread moves at a time, and a request starts a new one.
pub record System : Type 0 where
  pub shared : Shared
  pub threads : List Thread

pub data Step (agents : Agents) : System → System → Type 0 where
  turn :
      (before after : List Thread) (t t' : Thread) (s s' : Shared)
      → Move agents s t s' t'
      → Step agents
          (record { shared = s; threads = before ++ t ∷ after })
          (record { shared = s'; threads = before ++ t' ∷ after })
  arrival :
      (s : Shared) (ts : List Thread)
      → Step agents
          (record { shared = s; threads = ts })
          (record { shared = s; threads = idle ∷ ts })

pub data Steps (agents : Agents) : System → System → Type 0 where
  stay : (a : System) → Steps agents a a
  go : (a b c : System) → Step agents a b → Steps agents b c → Steps agents a c
