-- ===== src/Agent/Outcome.antt =====
-- What Status reports after SetTime (cmd/agent/main.go), on every branch.
use epochd.Base.{
  ℕ, ◌≡◌, ◌≢◌, ◌⊎◌, inl, inr, refl, String, Bool, true, false, some, str_eq, str_eq_iff, arith,
}
use epochd.Base.Int.{ℤ}
use epochd.Clock.{Time}
use epochd.Controller.Registry.{lookup, insert, lookup-insert}
use epochd.Procmem.{Env, Machine, Result, ok, err}
use epochd.Inject.Handle.{Handle, Updated, next_gen, write_state}
use epochd.Inject.Handle as Hook
use epochd.Inject.Handle.Update.{write_state_outcome}
use epochd.Agent.{
  HandleEntry, Server, internal, Reply, reply, failed, Status, update_handle, settle_entry,
  lookup_handle, set_machine, set_time, status,
}

-- The status that a handle's next update leads to.
abbrev pub status_after : String → Time → HandleEntry → Status
status_after id target e = record {
  handle_id = id;
  last_target_time = target;
  state_addr = e.handle.state_addr;
  generation = next_gen e.handle.gen;
  pid = e.handle.pid;
}

-- An update of the handle `h`: a success that counts its generation, or a failure that keeps it.
abbrev IsUpdateOf : Handle → Updated → Type 0
IsUpdateOf h u =
    ((u.result ≡ ok tt) × (u.handle ≡ record h { gen = next_gen h.gen }))
    ⊎ ((u.result ≢ ok tt) × (u.handle ≡ h))

write_state-IsUpdateOf :
    (env : Env) (h : Handle) (sec nsec : ℤ) (mask : ℕ) (s : Machine)
    → IsUpdateOf h (write_state env h sec nsec mask s)
write_state-IsUpdateOf env h sec nsec mask s = elim (write_state_outcome env h sec nsec mask s) [
  | inl (done, counted) ↦ inl (done, counted)
  | inr (undone, same, _) ↦ inr (undone, same)
]

update_handle-IsUpdateOf :
    (env : ℕ → Env) (now target : Time) (freeze : Bool) (e : HandleEntry) (server : Server)
    → IsUpdateOf e.handle (update_handle env now target freeze e server)
unfolding update_handle Hook.set_time Hook.freeze
update_handle-IsUpdateOf env now target true e server = write_state-IsUpdateOf _ e.handle _ _ _ _
update_handle-IsUpdateOf env now target false e server = write_state-IsUpdateOf _ e.handle _ _ _ _

lookup_handle-some :
    (id : String) (server : Server) (e : HandleEntry)
    → lookup_handle id server ≡ reply e
    → (str_eq id "" ≡ false) × (lookup id server.handles ≡ some e)
unfolding lookup_handle
lookup_handle-some id server e h = ground (arith, h)

status-insert :
    (id : String) (e e' : HandleEntry) (server : Server) (machines : ℕ → Machine)
    → lookup_handle id server ≡ reply e
    → lookup_handle id (record { handles = insert id e' server.handles; machines = machines })
      ≡ reply e'
unfolding lookup_handle
status-insert id e e' server machines h = ground (
  arith,
  lookup_handle-some id server e h,
  lookup-insert id id e' server.handles,
  str_eq_iff id id,
)

-- What a call and the status behind it come to: a success with a new status, or a failure that
-- keeps the old one.
abbrev IsOutcome : String → Time → Server → HandleEntry → Reply Unit × Server → Type 0
IsOutcome id target server e (r, server') =
    ((r ≡ reply tt) × (status id server' ≡ reply (status_after id target e)))
    ⊎ ((r ≡ failed internal) × (status id server' ≡ status id server))

settle_entry-IsOutcome :
    (id : String) (target : Time) (e : HandleEntry) (u : Updated) (server : Server)
    (r : Result Unit)
    → u.result ≡ r
    → lookup_handle id server ≡ reply e
    → IsUpdateOf e.handle u
    → IsOutcome id target server e (settle_entry id target e u server)
unfolding settle_entry status
settle_entry-IsOutcome id target e u server (ok _) f h (inl (_, counted)) =
    rw (f, settle_entry)
      (inl (
        refl,
        rw
            (
              status-insert id e _ server (set_machine e.handle.pid u.machine server).machines h,
              counted,
              status,
            )
            refl,
      ))
settle_entry-IsOutcome id target e u server (err x) f h (inr (_, same)) =
    rw (f, settle_entry)
      (inr (
        refl,
        rw
            (
              status-insert id e _ server (set_machine e.handle.pid u.machine server).machines h,
              h,
              same,
              status,
            )
            refl,
      ))
settle_entry-IsOutcome id target e u server (err x) f h (inl (done, _)) = ground (arith, f, done)
settle_entry-IsOutcome id target e u server (ok _) f h (inr (undone, _)) = elim (undone f) [ ]

-- For a handle that the server knows: SetTime either succeeds, and Status then reports the new target
-- and the next generation, with the address and the pid unchanged; or it fails, and Status
-- reports what it reported before.
pub set_time_outcome :
    (env : ℕ → Env) (now : Time) (id : String) (target : Time) (freeze : Bool) (server : Server)
    (e : HandleEntry)
    → lookup_handle id server ≡ reply e
    → (((set_time env now id (some target) freeze server).0 ≡ reply tt)
        × (status id (set_time env now id (some target) freeze server).1
            ≡ reply (status_after id target e)))
      ⊎ (((set_time env now id (some target) freeze server).0 ≡ failed internal)
          × (status id (set_time env now id (some target) freeze server).1 ≡ status id server))
unfolding set_time
set_time_outcome env now id target freeze server e h =
    rw (h, set_time)
      (settle_entry-IsOutcome id target e (update_handle env now target freeze e server) server _
        refl h (update_handle-IsUpdateOf env now target freeze e server))
