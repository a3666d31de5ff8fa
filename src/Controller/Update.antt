-- ===== src/Controller/Update.antt =====
-- updateTimeshift and advanceTimeshift of cmd/controller/controller.go: the agents are called for a
-- snapshot of the handles, then the timeshift is changed under the lock.
pub mod Effective
pub mod Reissued
use epochd.Base.{
  ℕ, zero, suc, ◌+◌, String, Bool, true, false, Option, none, some, List, [], ◌∷◌, ◌++◌,
  if◌then◌else◌, str_eq,
}
use epochd.Base.Int.{ℤ, pos, ◌+ℤ◌}
use epochd.Base.Word.{word_of, signed64}
use epochd.Clock.{Time, Duration, zero_time, add, sub}
use epochd.Controller.{
  ContainerHandle, Timeshift, RpcError, not_found, other, Call, inject_call, set_time_call, Agents,
  Metrics, Controller, Error, not_found_error, Result, ok, err, persist,
}
use epochd.Controller.Registry.{lookup, insert}

-- What the loop of updateTimeshift over the snapshot changes: `updates` holds the new handle of
-- each container that was injected again, by its index.
pub record Sent : Type 0 where
  pub updates : List (ℕ × String)
  pub calls : List Call
  pub met : Metrics

-- handles[i]
unfoldable pub get_elem? : List ContainerHandle → ℕ → Option ContainerHandle
get_elem? [] i = none
get_elem? (h ∷ hs) zero = some h
get_elem? (h ∷ hs) (suc i) = get_elem? hs i

-- handles[i].agentHandle = new
unfoldable pub set_agent_handle : ℕ → String → List ContainerHandle → List ContainerHandle
set_agent_handle i new [] = []
set_agent_handle zero new (h ∷ hs) = record h { agent_handle = new } ∷ hs
set_agent_handle (suc i) new (h ∷ hs) = h ∷ set_agent_handle i new hs

-- One re-injected handle, if the index still names the container it named in the snapshot.
unfoldable pub apply_update :
    List ContainerHandle → ℕ × String → List ContainerHandle → List ContainerHandle
unfolding get_elem? set_agent_handle
apply_update snapshot (i, new) handles = elim (get_elem? handles i) [
  | none ↦ handles
  | some h ↦ elim (get_elem? snapshot i) [
    | none ↦ handles
    | some before ↦
        if str_eq h.container_id before.container_id
        then set_agent_handle i new handles
        else handles
  ]
]

unfoldable pub apply_updates :
    List ContainerHandle → List (ℕ × String) → List ContainerHandle → List ContainerHandle
unfolding apply_update
apply_updates snapshot [] handles = handles
apply_updates snapshot (u ∷ us) handles =
    apply_updates snapshot us (apply_update snapshot u handles)

-- The timeshift as the end of updateTimeshift leaves it, at the reading `now` of the clock.
unfoldable pub retarget :
    List ContainerHandle → List (ℕ × String) → Time → Bool → Time → Timeshift → Timeshift
retarget snapshot updates target freeze now s = record s {
  handles = apply_updates snapshot updates s.handles;
  frozen_at = if freeze then target else zero_time;
  offset = if freeze then pos 0 else sub target now;
  frozen = freeze;
}

-- The target of advanceTimeshift; the sum of two durations wraps around.
unfoldable pub advanced_target : Time → Duration → Timeshift → Time
advanced_target now delta s =
    if s.frozen then add s.frozen_at delta else add now (signed64 (word_of (s.offset +ℤ delta)))

module _ (agents : Agents) where
  unfoldable pub reinject : Time → Bool → ℕ → ContainerHandle → Sent → Sent
  reinject target freeze i h st =
      let calls = st.calls ++ inject_call h.node_ip h.container_id target freeze ∷ [] in
      elim (agents.inject st.calls h.node_ip h.container_id target freeze) [
        | none ↦ record st {
          calls = calls;
          met = record st.met { inject_error = st.met.inject_error + 1 };
        }
        | some new ↦ record {
          updates = st.updates ++ (i, new) ∷ [];
          calls = calls;
          met = record st.met { inject_success = st.met.inject_success + 1 };
        }
      ]

  -- One round of the loop of updateTimeshift.
  unfoldable pub send : Time → Bool → ℕ → ContainerHandle → Sent → Sent
  unfolding reinject
  send target freeze i h st =
      let calls = st.calls ++ set_time_call h.node_ip h.agent_handle target freeze ∷ [] in
      let failed = record st {
        calls = calls;
        met = record st.met { set_time_error = st.met.set_time_error + 1 };
      } in
      elim (agents.set_time st.calls h.node_ip h.agent_handle target freeze) [
        | none ↦ record st {
          calls = calls;
          met = record st.met { set_time_success = st.met.set_time_success + 1 };
        }
        | some other ↦ failed
        | some not_found ↦ reinject target freeze i h failed
      ]

  unfoldable pub send_all : Time → Bool → ℕ → List ContainerHandle → Sent → Sent
  unfolding send
  send_all target freeze i [] st = st
  send_all target freeze i (h ∷ hs) st =
      send_all target freeze (suc i) hs (send target freeze i h st)

  -- updateTimeshift, with the clock at `now` after the calls.
  unfoldable pub update_timeshift :
      Bool → Time → String → Time → Bool → Controller → Result Timeshift × Controller
  update_timeshift flush_ok now id target freeze c = elim (lookup id c.timeshifts) [
    | none ↦ (err not_found_error, c)
    | some s ↦
        let st =
          send_all target freeze 0 s.handles
            (record { updates = []; calls = c.calls; met = c.met }) in
        let s' = retarget s.handles st.updates target freeze now s in
        (
          ok s',
          persist flush_ok
              (record c { timeshifts = insert id s' c.timeshifts; calls = st.calls; met = st.met }),
        )
  ]

  -- advanceTimeshift, with the clock at `now` for the target and at `later` in updateTimeshift.
  unfoldable pub advance_timeshift :
      Bool → Time → Time → String → Duration → Bool → Controller → Result Timeshift × Controller
  unfolding update_timeshift
  advance_timeshift flush_ok now later id delta freeze c = elim (lookup id c.timeshifts) [
    | none ↦ (err not_found_error, c)
    | some s ↦ update_timeshift flush_ok later id (advanced_target now delta s) freeze c
  ]
