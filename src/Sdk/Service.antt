-- ===== src/Sdk/Service.antt =====
-- The client of pkg/sdk/sdk.go against the handlers of cmd/controller/handlers.go: what its methods do to the
-- registry behind them. A request and a response arrive as they were sent.
use epochd.Base.{
  ℕ, ◌≡◌, refl, ap, ◌∙◌, ◌⊎◌, String, Bool, true, false, Option, some, List, str_eq, if◌then◌else◌,
}
use epochd.Base.Int.{pos, ◌-ℤ◌, ◌*ℤ◌, ltb_ℤ}
use epochd.Base.Word.{IsInt64}
use epochd.Clock.{Time, Duration, second, unix}
use epochd.Api.{Response, HandleStatus}
use epochd.Controller.{Timeshift, Pod, Agents, Controller, Error, Result, ok, err}
use epochd.Controller.Registry.{lookup}
use epochd.Controller.Create.{create_timeshift}
use epochd.Controller.Update.{update_timeshift}
use epochd.Controller.Update.Effective.{IsStored, IsShowing, update_timeshift-IsUpdate}
use epochd.Controller.Handlers.{
  Formats, parse_ttl, answer, handle_list_timeshifts, handle_create_timeshift, handle_get_timeshift,
  handle_update_timeshift, update_by_request, handle_delete_timeshift,
}
use epochd.Controller.Handlers.Status.{handle_timeshift_status, handle_resolve}
use epochd.Sdk.{
  Request, create_request, list_request, get_request, update_request, delete_request,
  status_request, resolve_request, Decoders, World, Client, create_body, update_body, create,
  update,
}
use epochd.Sdk.Requests.{request_timeshift-state}

-- The instant that the RFC 3339 form keeps: the whole second at or before.
abbrev pub whole_second : Time → Time
whole_second t = unix t *ℤ second

sent_ttl :
    (f : Formats) (ttl : Duration)
    → ltb_ℤ (pos 0) ttl ≡ true
    → str_eq (f.duration_text ttl) "" ≡ false
    → f.parse_duration (f.duration_text ttl) ≡ some ttl
    → parse_ttl f (if ltb_ℤ (pos 0) ttl then f.duration_text ttl else "") ≡ some ttl
unfolding parse_ttl
sent_ttl f ttl positive text parsed = rw (positive, text, parsed, positive, parse_ttl) refl

module _ (f : Formats) (agents : Agents) (listed : String → String → Option (List Pod))
    (get_status : String → String → HandleStatus ⊎ String) (flush_ok : Bool) (fresh : String)
    (now later shown : Time) where
  -- routes: the handler of a request. The clock reads `now` and `later` in an operation and `shown` for
  -- the response; `fresh` is the next id.
  unfoldable pub serve : Request → Controller → Option Response × Controller
  serve (create_request req) c =
      let (r, c') =
        handle_create_timeshift f agents (listed req.namespace req.label_selector) flush_ok fresh
          now shown (some req) c in
      (some r, c')
  serve list_request c = (some (handle_list_timeshifts f shown c), c)
  serve (get_request id) c = (some (handle_get_timeshift f shown id c), c)
  serve (update_request id req) c =
      let (r, c') = handle_update_timeshift f agents flush_ok now later shown id (some req) c in
      (some r, c')
  serve (delete_request id) c = let (r, c') = handle_delete_timeshift flush_ok id c in (some r, c')
  serve (status_request id) c = (some (handle_timeshift_status get_status id c), c)
  serve (resolve_request ns sel) c = (some (handle_resolve f (listed ns sel) ns sel), c)

  answer-state :
      (code : ℕ) (errors : Error → ℕ) (r : Result Timeshift × Controller)
      → (answer f code errors shown r).1 ≡ r.1
  answer-state code errors (ok s, c) = refl
  answer-state code errors (err e, c) = refl

  module _ (decoders : Decoders) (pause : Controller → Bool × Controller) where
    abbrev pub service : World Controller
    service = record { exchange = serve; pause = pause }

    module _ (target : Time) (shown_text : str_eq (f.format target) "" ≡ false)
        (whole : f.parse (f.format target) ≡ some (whole_second target)) where
      update-state :
          (id : String) (freeze : Bool) (st : Client Controller)
          → (update service decoders f id target freeze st).1.world
            ≡ (update_timeshift agents flush_ok later id (whole_second target) freeze st.world).1
      unfolding update serve handle_update_timeshift update_by_request
      update-state id freeze st =
          ap (λ r. r.world)
            (request_timeshift-state service decoders f
              (update_request id (update_body f target freeze)) st)
          ∙ rw (shown_text, whole, serve, handle_update_timeshift, update_by_request)
              (answer-state 200 _ _)

      -- CreateTimeshift and CreateFrozenTimeshift leave the controller as its createTimeshift does for
      -- the whole second at or before `target`: for a namespace and a selector that are not empty, a
      -- positive TTL, and forms of `target` and the TTL that are not empty and parse to that second and that TTL.
      pub create-refines :
          (ns sel : String) (ttl : Duration) (freeze : Bool) (st : Client Controller)
          → str_eq ns "" ≡ false
          → str_eq sel "" ≡ false
          → ltb_ℤ (pos 0) ttl ≡ true
          → str_eq (f.duration_text ttl) "" ≡ false
          → f.parse_duration (f.duration_text ttl) ≡ some ttl
          → (create service decoders f ns sel target ttl freeze st).1.world
            ≡ (create_timeshift agents
                (listed ns sel)
                flush_ok
                fresh
                now
                ns
                sel
                (whole_second target)
                ttl
                freeze
                st.world).1
      unfolding create serve handle_create_timeshift
      create-refines ns sel ttl freeze st with_ns with_sel positive text parsed =
          ap (λ r. r.world)
            (request_timeshift-state service decoders f
              (create_request (create_body f ns sel target ttl freeze)) st)
          ∙ rw
              (
                with_ns,
                with_sel,
                whole,
                sent_ttl f ttl positive text parsed,
                serve,
                handle_create_timeshift,
              )
              (answer-state 201 _ _)

      -- FreezeTimeshift and UpdateTimeshift of an id that the controller holds leave there, under that id
      -- and no other, a timeshift in the mode `freeze` that shows the whole second at or before `target`
      -- at the reading `later` of the clock: where that second is within the range of a Duration from `later`, and the
      -- form of `target` is not empty and parses to that second.
      pub update-IsShowing :
          (id : String) (freeze : Bool) (s : Timeshift) (st : Client Controller)
          → lookup id st.world.timeshifts ≡ some s
          → IsInt64 (whole_second target -ℤ later)
          → (s' : Timeshift) × IsStored st.world id s'
              (update service decoders f id target freeze st).1.world
            × IsShowing s' freeze later (whole_second target)
      update-IsShowing id freeze s st there near =
          let u =
            update_timeshift-IsUpdate agents flush_ok later id st.world s there
              (whole_second target) freeze near in
          (u.shift, rw (update-state id freeze st) u.stored, u.showing)
