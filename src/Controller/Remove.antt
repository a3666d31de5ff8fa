-- ===== src/Controller/Remove.antt =====
-- deleteTimeshift, resetHandles and sweepExpired of cmd/controller/controller.go.
pub mod Deleted
pub mod Swept
use epochd.Base.{
  ℕ, ◌+◌, String, Bool, true, false, not, ◌&&◌, Option, none, some, List, [], ◌∷◌, ◌++◌,
  if◌then◌else◌, keep, some_pass, length, str_eq,
}
use epochd.Base.Int.{ℤ, pos, ◌-ℤ◌}
use epochd.Clock.{Time, is_zero, after}
use epochd.Controller.{
  ContainerHandle, Timeshift, Call, reset_call, Metrics, Timeshifts, Controller, Error,
  not_found_error, Result, ok, err, persist,
}
use epochd.Controller.Registry.{lookup, remove}

-- resetHandles: the calls it makes. What the agents answer is only logged.
unfoldable pub reset_handles : List ContainerHandle → List Call → List Call
reset_handles [] calls = calls
reset_handles (h ∷ hs) calls = reset_handles hs (calls ++ reset_call h.node_ip h.agent_handle ∷ [])

-- timeshiftsActive.Dec()
unfoldable pub drop_active : Metrics → Metrics
drop_active m = record m { active = m.active -ℤ pos 1 }

-- deleteTimeshift
unfoldable pub delete_timeshift : Bool → String → Controller → Result Unit × Controller
unfolding reset_handles drop_active
delete_timeshift flush_ok id c = elim (lookup id c.timeshifts) [
  | none ↦ (err not_found_error, record c { timeshifts = remove id c.timeshifts })
  | some s ↦
      let c' =
        persist flush_ok
          (record c { timeshifts = remove id c.timeshifts; met = drop_active c.met }) in
      (ok tt, record c' { calls = reset_handles s.handles c'.calls })
]

-- The test of sweepExpired.
abbrev pub is_expired : Time → String × Timeshift → Bool
is_expired now (id, s) = not (is_zero s.expires_at) && after now s.expires_at

-- The last loop of sweepExpired, over the timeshifts that expired.
unfoldable pub expire_all : List (String × Timeshift) → Controller → Controller
unfolding reset_handles drop_active
expire_all [] c = c
expire_all ((id, s) ∷ rest) c = expire_all rest (record c {
  met = drop_active (record c.met { sweep_expired = c.met.sweep_expired + 1 });
  calls = reset_handles s.handles c.calls;
})

-- sweepExpired, at the reading `now` of the clock.
unfoldable pub sweep_expired : Bool → Time → Controller → Controller
unfolding expire_all
sweep_expired flush_ok now c =
    let expired = keep (is_expired now) c.timeshifts in
    let left = record c { timeshifts = keep (λ e. not (is_expired now e)) c.timeshifts } in
    expire_all expired
      (if some_pass (is_expired now) c.timeshifts then persist flush_ok left else left)

-- postExpiryEvents: the pods that get an event, each once; `seen` holds those before.
unfoldable pub expiry_pods : List String → List ContainerHandle → List String
expiry_pods seen [] = []
expiry_pods seen (h ∷ hs) =
    let first = expiry_pods (h.pod ∷ seen) hs in
    let again = expiry_pods seen hs in
    if some_pass (λ p. str_eq p h.pod) seen then again else h.pod ∷ first

unfoldable pub post_expiry_events : Bool → Timeshift → List String
unfolding expiry_pods
post_expiry_events has_recorder s =
    let events = expiry_pods [] s.handles in if has_recorder then events else []
