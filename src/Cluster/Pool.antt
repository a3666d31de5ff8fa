-- ===== src/Cluster/Pool.antt =====
-- SetTime of the pool of pkg/agentclient/agentclient.go on the handles of a node.
use epochd.Base.{
  ℕ, ◌≡◌, refl, sym, ap, ◌∙◌, ◌⊎◌, inl, inr, String, Bool, false, ◌&&◌, none, some, List, [], ◌∷◌,
  ◌++◌, str_eq, str_eq_iff, arith, All, append_assoc, append-nil, Bool-cases,
}
use epochd.Clock.{Time}
use epochd.Procmem.{Env, Result, ok, err}
use epochd.Inject.Handle.{Updated}
use epochd.Agent.{
  HandleEntry, Server, internal, Reply, reply, failed, update_handle, settle_entry, lookup_handle,
  set_time, status,
}
use epochd.Agent.Outcome.{status_after, set_time_outcome}
use epochd.Controller.{ContainerHandle, other, Call}
use epochd.Controller.Registry.{lookup, lookup-insert}
use epochd.Cluster.{
  Fleet, Servers, put_server, rpc_error, pool_set_time, after_call, served_from, served,
}

-- The handle is known at its node, with the entry `e`.
abbrev pub IsEntry : Servers → ContainerHandle → HandleEntry → Type 0
IsEntry servers h e = lookup_handle h.agent_handle (servers h.node_ip) ≡ reply e

abbrev pub same_handle : ContainerHandle → ContainerHandle → Bool
same_handle h h' = str_eq h.node_ip h'.node_ip && str_eq h.agent_handle h'.agent_handle

-- No two handles of the list are one handle of one node.
abbrev pub AreApart : List ContainerHandle → Type 0
AreApart [] = Unit
AreApart (h ∷ hs) = All (λ h'. same_handle h h' ≡ false) hs × AreApart hs

-- The update cannot have been made: the node cannot be connected, or its agent, as some of the calls of the
-- controller left it, answers the SetTime with an error.
abbrev pub IsRefused : Fleet → Time → Bool → ContainerHandle → Type 0
IsRefused fleet target freeze h =
    (fleet.connects h.node_ip ≡ false)
    ⊎ ((calls : List Call) × ((set_time (fleet.env h.node_ip) (fleet.clock calls) h.agent_handle
            (some target) freeze (served fleet calls h.node_ip)).0
          ≡ failed internal))

-- What became of a handle: its status shows the target and the next generation; or it is what it was, and the
-- update was refused.
abbrev pub IsReached : Fleet → Time → Bool → Servers → Servers → ContainerHandle → Type 0
IsReached fleet target freeze before after h =
    (e : HandleEntry) × IsEntry before h e
    × ((status h.agent_handle (after h.node_ip) ≡ reply (status_after h.agent_handle target e))
        ⊎ ((status h.agent_handle (after h.node_ip) ≡ status h.agent_handle (before h.node_ip))
            × IsRefused fleet target freeze h))

settle_entry-others :
    (id j : String) (target : Time) (e : HandleEntry) (u : Updated) (server : Server)
    (r : Result Unit)
    → u.result ≡ r
    → str_eq id j ≡ false
    → lookup j (settle_entry id target e u server).1.handles ≡ lookup j server.handles
unfolding settle_entry
settle_entry-others id j target e u server (ok _) f apart =
    rw (f, settle_entry) (lookup-insert id j _ server.handles ∙ rw apart refl)
settle_entry-others id j target e u server (err x) f apart =
    rw (f, settle_entry) (lookup-insert id j _ server.handles ∙ rw apart refl)

-- A SetTime leaves the entries of other ids alone.
pub set_time-others :
    (env : ℕ → Env) (now : Time) (id j : String) (target : Time) (freeze : Bool) (server : Server)
    (r : Reply HandleEntry)
    → lookup_handle id server ≡ r
    → str_eq id j ≡ false
    → lookup j (set_time env now id (some target) freeze server).1.handles ≡ lookup j server.handles
unfolding set_time
set_time-others env now id j target freeze server (failed c) f apart = rw (f, set_time) refl
set_time-others env now id j target freeze server (reply e) f apart =
    rw (f, set_time)
      (settle_entry-others id j target e (update_handle env now target freeze e server) server _
        refl apart)

pub lookup_handle-same :
    (j : String) (server server' : Server)
    → lookup j server.handles ≡ lookup j server'.handles
    → lookup_handle j server ≡ lookup_handle j server'
unfolding lookup_handle
lookup_handle-same j server server' e = rw (e, lookup_handle) refl

pub status-same :
    (j : String) (server server' : Server)
    → lookup_handle j server ≡ lookup_handle j server'
    → status j server ≡ status j server'
unfolding status
status-same j server server' e = rw (e, status) refl

put_server_here :
    (ip : String) (server : Server) (servers : Servers) → put_server ip server servers ip ≡ server
put_server_here ip server servers = ground (arith, str_eq_iff ip ip)

module _ (fleet : Fleet) where
  served_from-append :
      (before cs : List Call) (c : Call) (servers : Servers)
      → served_from fleet before (cs ++ c ∷ []) servers
        ≡ after_call fleet (before ++ cs) c (served_from fleet before cs servers)
  unfolding served_from
  served_from-append before [] c servers =
      ap (λ b. after_call fleet b c servers) (sym (append-nil before))
  served_from-append before (d ∷ cs) c servers =
      served_from-append (before ++ d ∷ []) cs c (after_call fleet before d servers)
      ∙ ap
          (λ b.
            after_call fleet b c
              (served_from fleet (before ++ d ∷ []) cs (after_call fleet before d servers)))
          (append_assoc before (d ∷ []) cs)

  pub served-append :
      (cs : List Call) (c : Call)
      → served fleet (cs ++ c ∷ []) ≡ after_call fleet cs c (served fleet cs)
  unfolding served
  served-append cs c = served_from-append [] cs c fleet.servers

  -- SetTime of the pool on a handle that its server knows: no error, or one that is not NOT_FOUND; the entry of the
  -- handle is reached or its status stays, and other handles keep their entries.
  pub pool_set_time-answer :
      (calls : List Call) (h : ContainerHandle) (target : Time) (freeze : Bool) (servers : Servers)
      (e : HandleEntry)
      → IsEntry servers h e
      → ((pool_set_time fleet calls h.node_ip h.agent_handle target freeze servers).0 ≡ none)
        ⊎ ((pool_set_time fleet calls h.node_ip h.agent_handle target freeze servers).0
            ≡ some other)
  unfolding pool_set_time rpc_error
  pool_set_time-answer calls h target freeze servers e known =
      elim (Bool-cases (fleet.connects h.node_ip)) [
        | inr away ↦ inr (rw (away, pool_set_time) refl)
        | inl there ↦
            elim (set_time_outcome (fleet.env h.node_ip) (fleet.clock calls) h.agent_handle target
              freeze (servers h.node_ip) e known) [
                | inl (fine, shown) ↦ inl (rw (there, fine, pool_set_time, rpc_error) refl)
                | inr (bad, kept) ↦ inr (rw (there, bad, pool_set_time, rpc_error) refl)
              ]
      ]

  pub pool_set_time-IsReached :
      (calls : List Call) (h : ContainerHandle) (target : Time) (freeze : Bool) (e : HandleEntry)
      → IsEntry (served fleet calls) h e
      → IsReached fleet target freeze
          (served fleet calls)
          (pool_set_time fleet calls h.node_ip h.agent_handle target freeze (served fleet calls)).1
          h
  unfolding pool_set_time
  pool_set_time-IsReached calls h target freeze e known =
      let servers = served fleet calls in
      elim (Bool-cases (fleet.connects h.node_ip)) [
        | inr away ↦ (e, known, inr (rw (away, pool_set_time) refl, inl away))
        | inl there ↦
            let here =
              put_server_here h.node_ip
                (set_time (fleet.env h.node_ip) (fleet.clock calls) h.agent_handle (some target)
                  freeze (servers h.node_ip)).1
                servers in
            elim (set_time_outcome (fleet.env h.node_ip) (fleet.clock calls) h.agent_handle target
              freeze (servers h.node_ip) e known) [
                | inl (fine, shown) ↦ (
                  e,
                  known,
                  inl (rw (there, pool_set_time) (ap (status h.agent_handle) here ∙ shown)),
                )
                | inr (bad, kept) ↦ (
                  e,
                  known,
                  inr (
                    rw (there, pool_set_time) (ap (status h.agent_handle) here ∙ kept),
                    inr (calls, bad),
                  ),
                )
              ]
      ]

  pub pool_set_time-others :
      (calls : List Call) (h h' : ContainerHandle) (target : Time) (freeze : Bool)
      (servers : Servers)
      → same_handle h h' ≡ false
      → lookup_handle h'.agent_handle
          ((pool_set_time fleet calls h.node_ip h.agent_handle target freeze servers).1 h'.node_ip)
        ≡ lookup_handle h'.agent_handle (servers h'.node_ip)
  unfolding pool_set_time
  pool_set_time-others calls h h' target freeze servers apart =
      elim (Bool-cases (fleet.connects h.node_ip)) [
        | inr away ↦ rw (away, pool_set_time) refl
        | inl there ↦ elim (Bool-cases (str_eq h'.node_ip h.node_ip)) [
          | inr elsewhere ↦ rw (there, elsewhere, pool_set_time) refl
          | inl here ↦
              let same : h'.node_ip ≡ h.node_ip = (str_eq_iff h'.node_ip h.node_ip).0 here in
              rw (there, here, pool_set_time)
                (lookup_handle-same h'.agent_handle _ _ (
                  set_time-others (fleet.env h.node_ip) (fleet.clock calls) h.agent_handle
                    h'.agent_handle target freeze (servers h.node_ip) _ refl
                    (ground (arith, apart, str_eq_iff h.node_ip h'.node_ip, same))
                  ∙ ap (λ ip. lookup h'.agent_handle (servers ip).handles) (sym same)))
        ]
      ]
