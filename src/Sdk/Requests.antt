-- ===== src/Sdk/Requests.antt =====
-- The client of pkg/sdk/sdk.go after a request.
use epochd.Base.{◌≡◌, refl, ◌∙◌, Option, ◌∷◌, arith}
use epochd.Api.{Body}
use epochd.Controller.Handlers.{Formats}
use epochd.Sdk.{
  Request, Outcome, done, failed, Decoders, World, Client, and_then, do_request, request_timeshift,
}

pub and_then-state :
    {A B W : Type 0} (k : A → Outcome B) (r : Outcome A × Client W) → (and_then k r).1 ≡ r.1
and_then-state k (done a, st) = refl
and_then-state k (failed e, st) = refl

module _ {W : Type 0} (env : World W) (decoders : Decoders) (f : Formats) where
  pub do_request-state :
      {A : Type 0} (empty : A) (decode : Body → Option A) (req : Request) (st : Client W)
      → (do_request env decoders f empty decode req st).1
        ≡ record { world = (env.exchange req st.world).1; asked = req ∷ st.asked }
  unfolding do_request
  do_request-state empty decode req st = ground arith

  pub request_timeshift-state :
      (req : Request) (st : Client W)
      → (request_timeshift env decoders f req st).1
        ≡ record { world = (env.exchange req st.world).1; asked = req ∷ st.asked }
  request_timeshift-state req st =
      and_then-state _ (do_request env decoders f _ decoders.timeshift req st)
      ∙ do_request-state _ decoders.timeshift req st
