-- ===== src/Controller/Threads/Lost.antt =====
-- Interleavings of two advances, and of two writes to the backing store (cmd/controller/controller.go).
use epochd.Base.{◌≡◌, refl, ◌∙◌, String, true, none, some, List, [], ◌∷◌, str_eq_iff, arith}
use epochd.Clock.{Time, Duration, add}
use epochd.Controller.{ContainerHandle, Timeshift, Agents}
use epochd.Controller.Registry.{lookup, lookup-insert}
use epochd.Controller.Create.{new_timeshift}
use epochd.Controller.Threads.{
  CreateJob, UpdateJob, finished, idle, injecting, encoding, flushing, Shared, create_registers,
  create_counts, persist_encodes, persist_flushes, Steps,
}
use epochd.Controller.Threads.Alone.{Steps_trans, move}

-- What an update that runs alone leaves under its id.
record IsRetargeted (job : UpdateJob) (s : Shared) : Type 0 where
  shift : Timeshift
  there : lookup job.id s.ctl.timeshifts ≡ some shift
  frozen : shift.frozen ≡ job.freeze
  at : job.freeze ≡ true → shift.frozen_at ≡ job.target

-- What an advance of a frozen timeshift that stands at `instant` asks of updateTimeshift.
abbrev pub advancing : String → Time → Duration → UpdateJob
advancing id instant delta = record { id = id; target = add instant delta; freeze = true }

-- The registry has a frozen timeshift under the id, which stands at the instant.
pub record StandsAt (id : String) (instant : Time) (s : Shared) : Type 0 where
  pub shift : Timeshift
  pub there : lookup id s.ctl.timeshifts ≡ some shift
  pub frozen : shift.frozen ≡ true
  pub at : shift.frozen_at ≡ instant

-- With a backing store, a thread that is about to encode the registry and a create that is about to register: there is a run after
-- which the create is over, the store holds the registry with the new timeshift, and the other thread has encoded the
-- registry from before; and a run from there to the end of both, in which the registry keeps the new timeshift
-- and the store falls back to the one from before. This is for a new id that is not in use.
pub flush-forgets :
    (agents : Agents) (job : CreateJob) (id : String) (now : Time) (h : ContainerHandle)
    (hs : List ContainerHandle) (s : Shared)
    → s.ctl.has_store ≡ true
    → lookup id s.ctl.timeshifts ≡ none
    → (s1 : Shared) × Steps agents
        (record { shared = s; threads = encoding finished ∷ injecting job [] (h ∷ hs) ∷ [] })
        (record { shared = s1; threads = flushing s.ctl.timeshifts finished ∷ idle ∷ [] })
      × (s1.ctl.saved ≡ some s1.ctl.timeshifts)
      × (lookup id s1.ctl.timeshifts
          ≡ some (
              new_timeshift id job.namespace job.label_selector job.target job.ttl job.freeze now
                (h ∷ hs)))
      × (s2 : Shared) × Steps agents
          (record { shared = s1; threads = flushing s.ctl.timeshifts finished ∷ idle ∷ [] })
          (record { shared = s2; threads = idle ∷ idle ∷ [] })
      × (s2.ctl.timeshifts ≡ s1.ctl.timeshifts)
      × (s2.ctl.saved ≡ some s.ctl.timeshifts)
flush-forgets agents job id now h hs s stored fresh =
    let late = flushing s.ctl.timeshifts finished in
    (
      _,
      Steps_trans agents _ _ _
          (move agents [] (injecting job [] (h ∷ hs) ∷ []) _ _ _ _
            (persist_encodes finished stored))
          (Steps_trans agents _ _ _
            (move agents (late ∷ []) [] _ _ _ _ (create_registers job id now h hs fresh))
            (Steps_trans agents _ _ _ (move agents (late ∷ []) [] _ _ _ _ create_counts) (
              Steps_trans agents _ _ _
                (move agents (late ∷ []) [] _ _ _ _ (persist_encodes finished stored))
                (move agents (late ∷ []) [] _ _ _ _ (persist_flushes true _ finished))))),
      refl,
      lookup-insert id id _ s.ctl.timeshifts ∙ ground (arith, str_eq_iff id id),
      _,
      move agents [] (idle ∷ []) _ _ _ _ (persist_flushes true s.ctl.timeshifts finished),
      refl,
      refl,
    )
