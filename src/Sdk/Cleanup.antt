-- ===== src/Sdk/Cleanup.antt =====
-- How WaitForActive and withTimeMode of pkg/sdk/sdk.go end.
use epochd.Base.{
  ℕ, zero, suc, ◌≤◌, ◌<◌, ◌≡◌, refl, ap, ◌∙◌, ◌⊎◌, inl, inr, String, Bool, true, false, some, List,
  ◌∷◌, arith, Bool-cases,
}
use epochd.Base.Int.{pos, ltb_ℤ}
use epochd.Clock.{Time, Duration}
use epochd.Controller.Handlers.{Formats}
use epochd.Sdk.{
  Request, delete_request, status_request, Outcome, done, failed, ClientTimeshift, Decoders, World,
  Client, do_request, create, delete, timeshift_status,
}
use epochd.Sdk.Scoped.{all_ready, pause, wait_for_active, finish, run_created, with_time_mode}
use epochd.Sdk.Requests.{do_request-state}

Outcome-cases : {A : Type 0} (o : Outcome A) → ((a : A) × (o ≡ done a)) ⊎ ((e : _) × (o ≡ failed e))
Outcome-cases (done a) = inl (a, refl)
Outcome-cases (failed e) = inr (e, refl)

module _ {W : Type 0} (env : World W) (decoders : Decoders) (f : Formats) where
  -- The last call of http.Client.Do is for the deletion of `id`.
  abbrev pub IsDeleted : String → Client W → Type 0
  IsDeleted id st = (earlier : List Request) × (st.asked ≡ delete_request id ∷ earlier)

  delete-IsDeleted : (id : String) (st : Client W) → IsDeleted id (delete env decoders f id st).1
  unfolding delete
  delete-IsDeleted id st = (
    st.asked,
    ap (λ r. r.asked) (do_request-state env decoders f tt (λ b. some tt) (delete_request id) st),
  )

  finish-IsDeleted :
      (id : String) (called : Outcome Unit × Client W)
      → IsDeleted id (finish env decoders f id called).1
  unfolding finish
  finish-IsDeleted id (called, st) =
      let (deleted, st') = delete env decoders f id st in
      let last = delete-IsDeleted id st in
      elim (Outcome-cases deleted) [
        | inl (u, e) ↦ rw (e, finish) last
        | inr (e, given) ↦ elim (Outcome-cases called) [
          | inl (u, e') ↦ rw (given, e', finish) last
          | inr (e', given') ↦ rw (given, given', finish) last
        ]
      ]

  module _ (deadline : W → ℕ)
      (exchange-deadline : (req : Request) (w : W) → deadline (env.exchange req w).1 ≤ deadline w)
      (pause-deadline : (w : W)
        → (env.pause w).0 ≡ false
        → deadline (env.pause w).1 < deadline w) where
    status-deadline :
        (id : String) (st : Client W)
        → deadline (timeshift_status env decoders f id st).1.world ≤ deadline st.world
    unfolding timeshift_status do_request
    status-deadline id st =
        rw (do_request-state env decoders f _ decoders.status (status_request id) st)
          (exchange-deadline _ _)

    -- WaitForActive returns, with as many rounds as the context has pauses left and one more: where
    -- no exchange gives the context more pauses, and each pause that does not end it leaves it
    -- fewer.
    pub wait_for_active-returns :
        (fuel : ℕ) (id : String) (st : Client W)
        → deadline st.world < fuel
        → (out : Outcome Unit × Client W) × (wait_for_active env decoders f fuel id st ≡ some out)
    unfolding wait_for_active pause
    wait_for_active-returns zero id st enough = ground arith
    wait_for_active-returns (suc fuel) id st enough =
        let (answer, st') = timeshift_status env decoders f id st in
        let kept = status-deadline id st in
        elim (Outcome-cases (timeshift_status env decoders f id st).0) [
          | inr (e, given) ↦ rw (given, wait_for_active) (_, refl)
          | inl (status, given) ↦ elim (Outcome-cases (all_ready true status.containers)) [
            | inr (e, scanned) ↦ rw (given, scanned, wait_for_active) (_, refl)
            | inl (true, scanned) ↦ rw (given, scanned, wait_for_active) (_, refl)
            | inl (false, scanned) ↦ elim (Bool-cases (env.pause st'.world).0) [
              | inl over ↦ rw (given, scanned, over, wait_for_active, pause) (_, refl)
              | inr again ↦
                  rw (given, scanned, again, wait_for_active, pause)
                    (wait_for_active-returns fuel id (pause env decoders f st').1
                      (omega (arith, enough, kept, pause-deadline st'.world again)))
            ]
          ]
        ]

    run_created-deletes :
        (fuel : ℕ) (call : ClientTimeshift → Client W → Outcome Unit × Client W)
        (s : ClientTimeshift) (st : Client W)
        → deadline st.world < fuel
        → (out : Outcome Unit × Client W) × (run_created env decoders f fuel call (done s, st)
            ≡ some out)
          × IsDeleted s.id out.1
    unfolding run_created
    run_created-deletes fuel call s st enough =
        let ((answer, st'), waited) = wait_for_active-returns fuel s.id st enough in
        elim (Outcome-cases answer) [
          | inl (u, e) ↦ rw (waited, e, run_created) (_, refl, finish-IsDeleted s.id (call s st'))
          | inr (error, e) ↦ rw (waited, e, run_created) (_, refl, delete-IsDeleted s.id st')
        ]

    -- With a positive TTL, withTimeMode returns once its create succeeded, whatever the answers and
    -- the callback do, and its last call of http.Client.Do is for the deletion of the timeshift,
    -- which a context that has ended may still keep from being sent: with more rounds than the
    -- context has pauses left after the create, where no exchange gives the context more pauses,
    -- and each pause that does not end it leaves it fewer.
    pub with_time_mode-deletes :
        (fuel : ℕ) (ns sel : String) (target : Time) (ttl : Duration) (freeze : Bool)
        (call : ClientTimeshift → Client W → Outcome Unit × Client W) (st st' : Client W)
        (s : ClientTimeshift)
        → ltb_ℤ (pos 0) ttl ≡ true
        → create env decoders f ns sel target ttl freeze st ≡ (done s, st')
        → deadline st'.world < fuel
        → (out : Outcome Unit × Client W) × (with_time_mode env decoders f fuel ns sel target ttl
              freeze call st
            ≡ some out)
          × IsDeleted s.id out.1
    unfolding with_time_mode
    with_time_mode-deletes fuel ns sel target ttl freeze call st st' s positive created enough =
        let (out, e, deleted) = run_created-deletes fuel call s st' enough in
        (
          out,
          rw (positive, with_time_mode) refl
              ∙ ap (run_created env decoders f fuel call) created
              ∙ e,
          deleted,
        )
