-- ===== src/Cluster.antt =====
-- pkg/agentclient/agentclient.go: the pool through which the controller of cmd/controller calls the servers of
-- cmd/agent, one on each node, over the connections of Connections; gRPC delivers
-- a request and its answer as they were sent.
pub mod Connections
pub mod Pool
pub mod Reaches
use epochd.Base.{
  ℕ, ◌⊎◌, inl, inr, String, Bool, true, false, Option, none, some, List, [], ◌∷◌, ◌++◌,
  if◌then◌else◌, str_eq,
}
use epochd.Clock.{Time}
use epochd.Procmem.{Env}
use epochd.Inject.Sequence.{Target}
use epochd.Agent.{Server, Code, Reply, reply, failed, not_found, inject, set_time, reset, status}
use epochd.Api.{HandleStatus}
use epochd.Base.Int.{pos}
use epochd.Controller.{RpcError, other, Call, inject_call, set_time_call, reset_call, Agents}
use epochd.Controller.Handlers.{Formats}
use epochd.Controller as Control

-- The nodes by their address: their processes, the servers at the start, and whether a connection can be made. What
-- the outside adds to a call depends on the calls before it: the process of a container, the new id of a handle
-- and the readings of the clock.
pub record Fleet : Type 0 where
  pub env : String → ℕ → Env
  pub servers : String → Server
  pub connects : String → Bool
  pub resolve : List Call → String → String → Option Target
  pub new_id : List Call → String
  pub clock : List Call → Time
  pub later : List Call → Time

abbrev pub Servers : Type 0
Servers = String → Server

abbrev pub put_server : String → Server → Servers → Servers
put_server ip server servers j = if str_eq j ip then server else servers j

-- The error that a client sees.
unfoldable pub rpc_error : {A : Type 0} → Reply A → Option RpcError
rpc_error (reply _) = none
rpc_error (failed not_found) = some Control.not_found
rpc_error (failed _) = some other

module _ (fleet : Fleet) where
  -- Inject of the pool, after the calls `before`: the handle id and the servers.
  unfoldable pub pool_inject :
      List Call → String → String → Time → Bool → Servers → Option String × Servers
  pool_inject before ip container target freeze servers =
      let (r, server) =
        inject (fleet.env ip) (fleet.resolve before ip container) (fleet.new_id before)
          (fleet.clock before) container (some target) freeze (servers ip) in
      let answer : Option String = elim r [ reply id ↦ some id | failed _ ↦ none ] in
      if fleet.connects ip then (answer, put_server ip server servers) else (none, servers)

  -- SetTime of the pool
  unfoldable pub pool_set_time :
      List Call → String → String → Time → Bool → Servers → Option RpcError × Servers
  unfolding rpc_error
  pool_set_time before ip id target freeze servers =
      let (r, server) =
        set_time (fleet.env ip) (fleet.clock before) id (some target) freeze (servers ip) in
      if fleet.connects ip
      then (rpc_error r, put_server ip server servers)
      else (some other, servers)

  -- Reset of the pool
  unfoldable pub pool_reset : List Call → String → String → Servers → Option RpcError × Servers
  unfolding rpc_error
  pool_reset before ip id servers =
      let (r, server) =
        reset (fleet.env ip) (fleet.clock before) (fleet.later before) id (servers ip) in
      if fleet.connects ip
      then (rpc_error r, put_server ip server servers)
      else (some other, servers)

  -- The servers after one call.
  unfoldable pub after_call : List Call → Call → Servers → Servers
  unfolding pool_inject pool_set_time pool_reset
  after_call before (inject_call ip container target freeze) servers =
      (pool_inject before ip container target freeze servers).1
  after_call before (set_time_call ip id target freeze) servers =
      (pool_set_time before ip id target freeze servers).1
  after_call before (reset_call ip id) servers = (pool_reset before ip id servers).1

  -- The servers after the calls `cs` that follow the calls `before`.
  unfoldable pub served_from : List Call → List Call → Servers → Servers
  unfolding after_call
  served_from before [] servers = servers
  served_from before (c ∷ cs) servers =
      served_from (before ++ c ∷ []) cs (after_call before c servers)

  -- The servers after the calls that the controller made.
  unfoldable pub served : List Call → Servers
  unfolding served_from
  served calls = served_from [] calls fleet.servers

  -- The agents that the controller calls.
  unfoldable pub agents_of : Agents
  unfolding served pool_inject pool_set_time pool_reset
  agents_of = record {
    inject = λ calls ip container target freeze.
        (pool_inject calls ip container target freeze (served calls)).0;
    set_time =
        λ calls ip id target freeze. (pool_set_time calls ip id target freeze (served calls)).0;
    reset = λ calls ip id. (pool_reset calls ip id (served calls)).0;
  }

-- GetStatus of the pool; `hex` prints an address, and an error is its text.
unfoldable pub pool_get_status :
    Formats
    → (ℕ → String)
    → (Option Code → String)
    → (String → Bool)
    → String
    → String
    → Servers
    → HandleStatus ⊎ String
unfolding status
pool_get_status f hex error_text connects ip id servers =
    let answer : HandleStatus ⊎ String = elim (status id (servers ip)) [
      | failed c ↦ inr (error_text (some c))
      | reply s ↦ inl (record {
        generation = s.generation;
        last_target = f.format s.last_target_time;
        state_addr = hex s.state_addr;
        pid = pos s.pid;
      })
    ] in
    if connects ip then answer else inr (error_text none)
