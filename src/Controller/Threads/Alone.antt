-- ===== src/Controller/Threads/Alone.antt =====
-- A thread of cmd/controller/controller.go that runs while the others stand still: its loops over the agents, and
-- createTimeshift from its start to its end.
use epochd.Base.{
  ◌≡◌, refl, ℕ, suc, String, Bool, true, false, none, some, List, [], ◌∷◌, ◌++◌, if◌then◌else◌,
  Option-cases, inl, inr,
}
use epochd.Clock.{Time}
use epochd.Controller.{ContainerHandle, ContainerStatus, Pod, Agents, persist}
use epochd.Controller.Registry.{lookup}
use epochd.Controller.Create.{
  check_conflicts, Progress, inject_container, inject_containers, inject_pod, inject_pods, register,
  finish_create, create_timeshift,
}
use epochd.Controller.Update.{Sent, send, send_all}
use epochd.Controller.Threads.{
  CreateJob, UpdateJob, finished, Thread, idle, injecting, encoding, sending, Shared,
  pod_containers, containers, injected, sent, Move, create_checks, create_conflicts, create_injects,
  create_fails, create_registers, create_counts, persist_encodes, persist_skips, persist_flushes,
  update_sends, System, turn, Steps, stay, go,
}

module _ (agents : Agents) where
  pub Steps_trans : (a b c : System) → Steps agents a b → Steps agents b c → Steps agents a c
  Steps_trans a _ c (stay _) later = later
  Steps_trans a b c (go _ x _ first rest) later = go a x c first (Steps_trans x b c rest later)

  module _ (before after : List Thread) where
    -- The system in which one thread is looked at.
    abbrev pub at : Shared → Thread → System
    at s t = record { shared = s; threads = before ++ t ∷ after }

    pub move :
        (s s' : Shared) (t t' : Thread) → Move agents s t s' t' → Steps agents (at s t) (at s' t')
    move s s' t t' m = go _ _ _ (turn before after t t' s s' m) (stay _)

    pub inject_containers-Steps :
        (job : CreateJob) (pod : Pod) (css : List ContainerStatus)
        (rest : List (Pod × ContainerStatus)) (s : Shared) (p : Progress)
        → Steps agents
            (at (injected s p) (injecting job (pod_containers pod css ++ rest) p.handles))
            (at (injected s (inject_containers agents pod job.target job.freeze css p)) (
              injecting job rest
                (inject_containers agents pod job.target job.freeze css p).handles))
    unfolding inject_containers
    inject_containers-Steps job pod [] rest s p = stay _
    inject_containers-Steps job pod (cs ∷ css) rest s p =
        Steps_trans _ _ _
          (move _ _ _ _
            (create_injects job pod cs (pod_containers pod css ++ rest) p.handles _ refl))
          (inject_containers-Steps job pod css rest s
            (inject_container agents pod job.target job.freeze cs p))

    pub inject_pods-Steps :
        (job : CreateJob) (pods : List Pod) (s : Shared) (p : Progress)
        → Steps agents (at (injected s p) (injecting job (containers pods) p.handles)) (
            at
              (injected s (inject_pods agents pods job.target job.freeze p))
              (injecting job [] (inject_pods agents pods job.target job.freeze p).handles))
    unfolding inject_pods inject_pod
    inject_pods-Steps job [] s p = stay _
    inject_pods-Steps job (pod ∷ pods) s p =
        Steps_trans _ _ _ (inject_containers-Steps job pod pod.statuses (containers pods) s p) (
          inject_pods-Steps job pods s
            (inject_containers agents pod job.target job.freeze pod.statuses p))

    pub send_all-Steps :
        (job : UpdateJob) (copied : List ContainerHandle) (i : ℕ) (hs : List ContainerHandle)
        (s : Shared) (st : Sent)
        → (j : ℕ) × Steps agents (at (sent s st) (sending job copied i hs st.updates)) (
            at
              (sent s (send_all agents job.target job.freeze i hs st))
              (sending job copied j [] (send_all agents job.target job.freeze i hs st).updates))
    unfolding send_all
    send_all-Steps job copied i [] s st = (i, stay _)
    send_all-Steps job copied i (h ∷ hs) s st =
        let (j, rest) =
          send_all-Steps job copied (suc i) hs s (send agents job.target job.freeze i h st) in
        (
          j,
          Steps_trans _ _ _ (move _ _ _ _ (update_sends job copied i h hs st.updates _ refl)) rest,
        )

    persist_by :
        (stored flush_ok : Bool) (s : Shared)
        → s.ctl.has_store ≡ stored
        → Steps agents (at s (encoding finished)) (
            at
              (record s {
                ctl =
                    if stored
                    then (if flush_ok
                        then record s.ctl { saved = some s.ctl.timeshifts }
                        else s.ctl)
                    else s.ctl;
              })
              idle)
    persist_by false flush_ok s e = move _ _ _ _ (persist_skips finished e)
    persist_by true true s e =
        Steps_trans _ _ _ (move _ _ _ _ (persist_encodes finished e))
          (move _ _ _ _ (persist_flushes true s.ctl.timeshifts finished))
    persist_by true false s e =
        Steps_trans _ _ _ (move _ _ _ _ (persist_encodes finished e))
          (move _ _ _ _ (persist_flushes false s.ctl.timeshifts finished))

    pub persist-Steps :
        (flush_ok : Bool) (s : Shared)
        → Steps agents
            (at s (encoding finished))
            (at (record s { ctl = persist flush_ok s.ctl }) idle)
    unfolding persist
    persist-Steps flush_ok s = persist_by s.ctl.has_store flush_ok s refl

    finish_create-Steps :
        (flush_ok : Bool) (id : String) (now : Time) (job : CreateJob) (p : Progress) (s : Shared)
        → lookup id s.ctl.timeshifts ≡ none
        → (hs : List ContainerHandle) → p.handles ≡ hs
        → Steps agents (at (injected s p) (injecting job [] hs)) (
            at
              (record s {
                ctl =
                    (finish_create flush_ok id now job.namespace job.label_selector job.target
                      job.ttl job.freeze p s.ctl).1;
              })
              idle)
    unfolding finish_create register
    finish_create-Steps flush_ok id now job p s fresh [] e =
        rw (e, finish_create) (move _ _ _ _ (create_fails job))
    finish_create-Steps flush_ok id now job p s fresh (h ∷ hs) e =
        rw (e, finish_create)
          (Steps_trans _ _ _ (move _ _ _ _ (create_registers job id now h hs fresh))
            (Steps_trans _ _ _ (move _ _ _ _ create_counts) (persist-Steps flush_ok _)))

    -- A thread that runs createTimeshift while the others stand still has a run from idle to idle that leaves the
    -- controller as the sequential createTimeshift does, whatever its outcome: for an id that is not in use, and a list of pods
    -- that is not empty.
    pub create_timeshift-Steps :
        (flush_ok : Bool) (id : String) (now : Time) (job : CreateJob) (pod : Pod) (pods : List Pod)
        (s : Shared)
        → lookup id s.ctl.timeshifts ≡ none
        → Steps agents (at s idle) (
            at
              (record s {
                ctl =
                    (create_timeshift agents
                      (some (pod ∷ pods))
                      flush_ok
                      id
                      now
                      job.namespace
                      job.label_selector
                      job.target
                      job.ttl
                      job.freeze
                      s.ctl).1;
              })
              idle)
    unfolding create_timeshift
    create_timeshift-Steps flush_ok id now job pod pods s fresh =
        elim (Option-cases (check_conflicts s.ctl.timeshifts job.namespace (pod ∷ pods))) [
          | inr (e, found) ↦
              rw (found, create_timeshift) (move _ _ _ _ (create_conflicts job pod pods e found))
          | inl clear ↦
              rw (clear, create_timeshift)
                (Steps_trans _ _ _ (move _ _ _ _ (create_checks job pod pods clear)) (
                  Steps_trans _ _ _
                    (inject_pods-Steps job (pod ∷ pods) s
                      (record { handles = []; calls = s.ctl.calls; met = s.ctl.met }))
                    (finish_create-Steps flush_ok id now job _ s fresh _ refl)))
        ]
