-- ===== src/Sdk/Scoped.antt =====
-- WaitForActive and withTimeMode of pkg/sdk/sdk.go.
use epochd.Base.{
  ℕ, zero, suc, String, Bool, true, false, Option, none, some, List, [], ◌∷◌, if◌then◌else◌, str_eq,
}
use epochd.Base.Int.{pos, ltb_ℤ}
use epochd.Clock.{Time, Duration}
use epochd.Api.{ContainerStatusEntry}
use epochd.Controller.Handlers.{Formats}
use epochd.Sdk.{
  ttl_error, cancelled, container_error, wrapped, delete_failed, Outcome, done, failed,
  ClientTimeshift, Decoders, World, Client, create, delete, timeshift_status,
}

-- The loop of WaitForActive over the containers: the first error, or whether all are ready.
unfoldable pub all_ready : Bool → List ContainerStatusEntry → Outcome Bool
all_ready ready [] = done ready
all_ready ready (cs ∷ css) =
    let rest = all_ready (elim cs.status [ none ↦ false | some _ ↦ ready ]) css in
    if str_eq cs.error "" then rest else failed (container_error cs.pod cs.container cs.error)

module _ {W : Type 0} (env : World W) (decoders : Decoders) (f : Formats) where
  -- The end of a round of WaitForActive that is not over: cancelled, or another round.
  unfoldable pub pause : Client W → Bool × Client W
  pause st = let (over, w) = env.pause st.world in (over, record st { world = w })

  -- WaitForActive; `fuel` bounds the rounds.
  unfoldable pub wait_for_active : ℕ → String → Client W → Option (Outcome Unit × Client W)
  unfolding timeshift_status all_ready pause
  wait_for_active zero id st = none
  wait_for_active (suc fuel) id st =
      let (answer, st') = timeshift_status env decoders f id st in
      elim answer [
        | failed e ↦ some (failed (wrapped e), st')
        | done status ↦ elim (all_ready true status.containers) [
          | failed e ↦ some (failed e, st')
          | done true ↦ some (done tt, st')
          | done false ↦
              let (over, st'') = pause st' in
              let again = wait_for_active fuel id st'' in
              if over then some (failed cancelled, st'') else again
        ]
      ]

  -- The end of withTimeMode: the deletion, and the errors of both.
  unfoldable pub finish : String → Outcome Unit × Client W → Outcome Unit × Client W
  unfolding delete
  finish id (called, st) =
      let (deleted, st') = delete env decoders f id st in
      elim deleted [
        | done _ ↦ (called, st')
        | failed e ↦ elim called [
          | done _ ↦ (failed (wrapped e), st')
          | failed e' ↦ (failed (delete_failed e' e), st')
        ]
      ]

  -- What withTimeMode does behind its create.
  unfoldable pub run_created :
      ℕ
      → (ClientTimeshift → Client W → Outcome Unit × Client W)
      → Outcome ClientTimeshift × Client W
      → Option (Outcome Unit × Client W)
  run_created fuel call (failed e, st) = some (failed (wrapped e), st)
  run_created fuel call (done s, st) = elim (wait_for_active fuel s.id st) [
    | none ↦ none
    | some (failed e, st') ↦ some (failed (wrapped e), (delete env decoders f s.id st').1)
    | some (done _, st') ↦ some (finish s.id (call s st'))
  ]

  -- withTimeMode
  unfoldable pub with_time_mode :
      ℕ
      → String
      → String
      → Time
      → Duration
      → Bool
      → (ClientTimeshift → Client W → Outcome Unit × Client W)
      → Client W
      → Option (Outcome Unit × Client W)
  unfolding run_created
  with_time_mode fuel ns sel target ttl freeze call st =
      if ltb_ℤ (pos 0) ttl
      then run_created fuel call (create env decoders f ns sel target ttl freeze st)
      else some (failed ttl_error, st)
