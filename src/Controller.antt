-- ===== src/Controller.antt =====
-- cmd/controller/controller.go: the registry of timeshifts, and the operations of the controller on
-- it. The Kubernetes API and the node agents answer through parameters; every call of an agent is
-- recorded in a trace.
pub mod Registry
pub mod Create
pub mod Update
pub mod Remove
pub mod Watch
pub mod Store
pub mod Handlers
pub mod Invariant
pub mod Threads
use epochd.Base.{
  ℕ, suc, ◌+◌, String, Bool, true, false, Option, none, some, List, [], ◌∷◌, ◌++◌, if◌then◌else◌,
  str_eq,
}
use epochd.Base.Int.{ℤ, pos}
use epochd.Clock.{Time, Duration, zero_time, is_zero, add, sub, after}

-- containerHandle
pub record ContainerHandle : Type 0 where
  pub pod : String
  pub container : String
  pub node_ip : String
  pub container_id : String
  pub agent_handle : String

pub record Timeshift : Type 0 where
  pub id : String
  pub namespace : String
  pub label_selector : String
  pub offset : Duration
  pub frozen_at : Time
  pub frozen : Bool
  pub ttl : Duration
  pub expires_at : Time
  pub created_at : Time
  pub handles : List ContainerHandle

-- A container of a pod's status; `running` is State.Running != nil.
pub record ContainerStatus : Type 0 where
  pub name : String
  pub container_id : String
  pub running : Bool

pub record Pod : Type 0 where
  pub name : String
  pub namespace : String
  pub host_ip : String
  pub is_running : Bool
  pub labels : List (String × String)
  pub statuses : List ContainerStatus

-- What an agent's RPC returns: no error, a NOT_FOUND status, or another error.
pub data RpcError : Type 0 where
  not_found : RpcError
  other : RpcError

-- effectiveTime, at the reading `now` of the clock.
unfoldable pub effective_time : Timeshift → Time → Time
effective_time s now = if s.frozen then s.frozen_at else add now s.offset

-- The calls that the controller makes of the agents.
pub data Call : Type 0 where
  inject_call : String → String → Time → Bool → Call
  set_time_call : String → String → Time → Bool → Call
  reset_call : String → String → Call

-- AgentPool: what the agents answer, given all calls made before.
pub record Agents : Type 0 where
  pub inject : List Call → String → String → Time → Bool → Option String
  pub set_time : List Call → String → String → Time → Bool → Option RpcError
  pub reset : List Call → String → String → Option RpcError

-- The counters of the controller's metrics that its logic moves.
pub record Metrics : Type 0 where
  pub active : ℤ
  pub inject_success : ℕ
  pub inject_error : ℕ
  pub set_time_success : ℕ
  pub set_time_error : ℕ
  pub sweep_expired : ℕ

-- The map of timeshifts by id.
abbrev pub Timeshifts : Type 0
Timeshifts = List (String × Timeshift)

-- controller: the registry, the metrics, the calls made of the agents so far, and whether there is a
-- backing store; `saved` is the registry that the last successful write to it encoded.
pub record Controller : Type 0 where
  pub timeshifts : Timeshifts
  pub met : Metrics
  pub calls : List Call
  pub has_store : Bool
  pub saved : Option Timeshifts

-- The errors of the operations: a failed list of pods, a notFoundError, a conflictError with its
-- entries (pod, container, id), and a create that reached no container.
pub data Error : Type 0 where
  list_failed not_found_error no_containers : Error
  conflict_error : List (String × String × String) → Error

pub data Result (A : Type 0) : Type 0 where
  ok : A → Result A
  err : Error → Result A

-- persist: with a store, a write that succeeds (`flush_ok`) saves the registry; failures are only
-- logged.
unfoldable pub persist : Bool → Controller → Controller
persist flush_ok c =
    if c.has_store then (if flush_ok then record c { saved = some c.timeshifts } else c) else c
