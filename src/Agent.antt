-- ===== src/Agent.antt =====
-- cmd/agent/main.go: the server of the agent, its registry of handles and its four operations. The
-- answer of k8sresolve.LookupPID, which reads /proc, and each reading of the clock are arguments.
pub mod Outcome
use epochd.Base.{
  ℕ, suc, ◌≡◌, String, Bool, true, false, Option, none, some, List, [], ◌∷◌, if◌then◌else◌, ◌==◌,
  str_eq,
}
use epochd.Clock.{Time}
use epochd.Controller.Registry.{lookup, insert}
use epochd.Procmem.{Env, Machine, Result, ok, err}
use epochd.Inject.Handle.{Handle, Updated}
use epochd.Inject.Handle as Hook
use epochd.Inject.Sequence.{Target, inject_at_time, inject_frozen}

-- handleEntry, of which only tests set a resetFn.
pub record HandleEntry : Type 0 where
  pub handle : Handle
  pub last_target : Time
  pub container_id : String

-- server, with the processes of the node by pid.
pub record Server : Type 0 where
  pub handles : List (String × HandleEntry)
  pub machines : ℕ → Machine

pub data Code : Type 0 where
  invalid_argument not_found internal : Code

pub data Reply (A : Type 0) : Type 0 where
  reply : A → Reply A
  failed : Code → Reply A

-- StatusResponse
pub record Status : Type 0 where
  pub handle_id : String
  pub last_target_time : Time
  pub state_addr : ℕ
  pub generation : ℕ
  pub pid : ℕ

abbrev pub set_machine : ℕ → Machine → Server → Server
set_machine pid s server = record server {
  machines = λ p. if p == pid then s else server.machines p;
}

-- The update of a handle: its SetTime or its Freeze on the process it controls.
unfoldable pub update_handle : (ℕ → Env) → Time → Time → Bool → HandleEntry → Server → Updated
update_handle env now target freeze e server =
    let s = server.machines e.handle.pid in
    let fake = Hook.freeze (env e.handle.pid) e.handle target s in
    let moving = Hook.set_time (env e.handle.pid) e.handle now target s in
    if freeze then fake else moving

-- The end of SetTime and of Reset, once the handle was updated: the last target is stored after a
-- success only; the handle is shared, so that what the update did to it stays.
unfoldable pub settle_entry : String → Time → HandleEntry → Updated → Server → Reply Unit × Server
settle_entry id target e u server =
    let moved = set_machine e.handle.pid u.machine server in
    elim u.result [
      | ok _ ↦ (
        reply tt,
        record moved {
          handles = insert id (record e { handle = u.handle; last_target = target }) server.handles;
        },
      )
      | err _ ↦ (
        failed internal,
        record moved { handles = insert id (record e { handle = u.handle }) server.handles },
      )
    ]

-- lookupHandle, behind the check that a request names a handle.
unfoldable pub lookup_handle : String → Server → Reply HandleEntry
lookup_handle id server =
    if str_eq id ""
    then failed invalid_argument
    else elim (lookup id server.handles) [ none ↦ failed not_found | some e ↦ reply e ]

-- SetTime, at the reading `now` of the clock in the handle's SetTime.
unfoldable pub set_time :
    (ℕ → Env) → Time → String → Option Time → Bool → Server → Reply Unit × Server
unfolding lookup_handle update_handle settle_entry
set_time env now id none freeze server = (failed invalid_argument, server)
set_time env now id (some target) freeze server = elim (lookup_handle id server) [
  | failed c ↦ (failed c, server)
  | reply e ↦ settle_entry id target e (update_handle env now target freeze e server) server
]

-- Reset: `now` is its own reading of the clock, `later` that of the handle's SetTime.
unfoldable pub reset : (ℕ → Env) → Time → Time → String → Server → Reply Unit × Server
unfolding lookup_handle update_handle settle_entry
reset env now later id server = elim (lookup_handle id server) [
  | failed c ↦ (failed c, server)
  | reply e ↦ settle_entry id now e (update_handle env later now false e server) server
]

-- Status
unfoldable pub status : String → Server → Reply Status
unfolding lookup_handle
status id server = elim (lookup_handle id server) [
  | failed c ↦ failed c
  | reply e ↦ reply (record {
    handle_id = id;
    last_target_time = e.last_target;
    state_addr = e.handle.state_addr;
    generation = e.handle.gen;
    pid = e.handle.pid;
  })
]

-- The injection of Inject, by its mode.
unfoldable pub inject_process :
    Env → Target → Time → Time → Bool → Machine → Result Handle × Machine
inject_process env t now target freeze s =
    let frozen = inject_frozen env t target s in
    let moving = inject_at_time env t now target s in if freeze then frozen else moving

-- Inject: `target_process` is the process of the container, which carries its pid, or nothing where
-- the lookup of the pid fails; `id` is the new handle id.
unfoldable pub inject :
    (ℕ → Env)
    → Option Target
    → String
    → Time
    → String
    → Option Time
    → Bool
    → Server
    → Reply String × Server
unfolding inject_process
inject env target_process id now container none freeze server = (failed invalid_argument, server)
inject env target_process id now container (some target) freeze server =
    if str_eq container "" then (failed invalid_argument, server) else elim target_process [
      | none ↦ (failed not_found, server)
      | some t ↦
          let (r, s) = inject_process (env t.pid) t now target freeze (server.machines t.pid) in
          let moved = set_machine t.pid s server in
          elim r [
            | err _ ↦ (failed internal, moved)
            | ok h ↦ (
              reply id,
              record moved {
                handles =
                    insert id
                      (record { handle = h; last_target = target; container_id = container })
                      server.handles;
              },
            )
          ]
    ]

-- One reset of drain; its error is only logged, and the last target stays.
unfoldable pub drain_entry : (ℕ → Env) → Time → Time → String × HandleEntry → Server → Server
unfolding update_handle
drain_entry env now later (id, e) server =
    let u = update_handle env later now false e server in
    record (set_machine e.handle.pid u.machine server) {
      handles = insert id (record e { handle = u.handle }) server.handles;
    }

-- The loop of drain over its snapshot. `expired` tells whether the context is done before a reset,
-- `clock` the readings of the clock in it.
unfoldable pub drain_all :
    (ℕ → Env) → (ℕ → Bool) → (ℕ → Time × Time) → ℕ → List (String × HandleEntry) → Server → Server
unfolding drain_entry
drain_all env expired clock i [] server = server
drain_all env expired clock i (e ∷ es) server =
    let rest =
      drain_all env expired clock (suc i) es (drain_entry env (clock i).0 (clock i).1 e server) in
    if expired i then server else rest

-- drain
unfoldable pub drain : (ℕ → Env) → (ℕ → Bool) → (ℕ → Time × Time) → Server → Server
unfolding drain_all
drain env expired clock server = drain_all env expired clock 0 server.handles server
