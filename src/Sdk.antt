-- ===== src/Sdk.antt =====
-- pkg/sdk/sdk.go: the client of the controller, less WaitForActive and withTimeMode. The transport, the decoders of JSON and the context are
-- parameters; every call of http.Client.Do is recorded, the last one first,
-- whether or not the transport, or a context that has ended, lets the request out.
pub mod Scoped
pub mod Requests
pub mod Cleanup
pub mod Service
use epochd.Base.{
  ℕ, zero, suc, String, Bool, true, false, Option, none, some, List, [], ◌∷◌, if◌then◌else◌, str_eq,
  leb, ◌==◌,
}
use epochd.Base.Int.{ℤ, pos, ltb_ℤ}
use epochd.Clock.{Time, Duration, zero_time}
use epochd.Api.{
  CreateTimeshiftRequest, UpdateTimeshiftRequest, TimeshiftResponse, ResolvedPod,
  ContainerStatusEntry, TimeshiftStatusResponse, Body, Response,
}
use epochd.Controller.Handlers.{Formats}

-- The requests of the controller's API.
pub data Request : Type 0 where
  create_request : CreateTimeshiftRequest → Request
  list_request : Request
  get_request : String → Request
  update_request : String → UpdateTimeshiftRequest → Request
  delete_request : String → Request
  status_request : String → Request
  resolve_request : String → String → Request

-- The errors: an APIError with its status, the wrapping of fmt.Errorf, and the others by their cause.
pub data SdkError : Type 0 where
  api_error : ℕ → SdkError
  transport_error decode_error time_error ttl_error cancelled callback_error : SdkError
  container_error : String → String → String → SdkError
  wrapped : SdkError → SdkError
  delete_failed : SdkError → SdkError → SdkError

pub data Outcome (A : Type 0) : Type 0 where
  done : A → Outcome A
  failed : SdkError → Outcome A

-- Timeshift
pub record ClientTimeshift : Type 0 where
  pub id : String
  pub namespace : String
  pub time : Time
  pub frozen : Bool
  pub expires_at : Time
  pub applied_to : List String

-- IsNotFound and IsConflict look at the error itself, not at what it wraps.
unfoldable pub has_status : ℕ → SdkError → Bool
has_status code (api_error n) = n == code
has_status code _ = false

unfoldable pub is_not_found : SdkError → Bool
unfolding has_status
is_not_found e = has_status 404 e

unfoldable pub is_conflict : SdkError → Bool
unfolding has_status
is_conflict e = has_status 409 e

-- encoding/json on the bodies of responses.
pub record Decoders : Type 0 where
  pub timeshift : Body → Option TimeshiftResponse
  pub timeshifts : Body → Option (List TimeshiftResponse)
  pub status : Body → Option TimeshiftStatusResponse
  pub pods : Body → Option (List ResolvedPod)

-- What the client runs against, on states `W`: an exchange, where `none` is an error of the transport, and
-- the select of WaitForActive, which says whether the context ended before the 250 ms were over.
pub record World (W : Type 0) : Type 0 where
  pub exchange : Request → W → Option Response × W
  pub pause : W → Bool × W

pub record Client (W : Type 0) : Type 0 where
  pub world : W
  pub asked : List Request

-- timeshiftFromResponse
unfoldable pub timeshift_from_response : Formats → TimeshiftResponse → Outcome ClientTimeshift
timeshift_from_response f r =
    let shift : Time → Time → ClientTimeshift = λ t e. record {
      id = r.id;
      namespace = r.namespace;
      time = t;
      frozen = r.frozen;
      expires_at = e;
      applied_to = r.applied_to;
    } in
    elim (f.parse r.time) [
      | none ↦ failed time_error
      | some t ↦
          if str_eq r.expires_at ""
          then done (shift t zero_time)
          else elim (f.parse r.expires_at) [ none ↦ failed time_error | some e ↦ done (shift t e) ]
    ]

unfoldable pub timeshifts_from : Formats → List TimeshiftResponse → Outcome (List ClientTimeshift)
unfolding timeshift_from_response
timeshifts_from f [] = done []
timeshifts_from f (r ∷ rs) =
    let rest = timeshifts_from f rs in
    elim (timeshift_from_response f r) [
      | failed e ↦ failed e
      | done s ↦ elim rest [ failed e ↦ failed e | done ss ↦ done (s ∷ ss) ]
    ]

-- The end of a method: what it makes of the decoded response.
abbrev pub and_then :
    {A B W : Type 0} → (A → Outcome B) → Outcome A × Client W → Outcome B × Client W
and_then k (done a, st) = (k a, st)
and_then k (failed e, st) = (failed e, st)

-- The empty value that a response without content leaves.
abbrev empty_response : TimeshiftResponse
empty_response = record {
  id = "";
  namespace = "";
  time = "";
  frozen = false;
  expires_at = "";
  applied_to = [];
}

-- The body of createTimeshift
abbrev pub create_body : Formats → String → String → Time → Duration → Bool → CreateTimeshiftRequest
create_body f ns sel target ttl freeze = record {
  namespace = ns;
  label_selector = sel;
  time = f.format target;
  ttl = if ltb_ℤ (pos 0) ttl then f.duration_text ttl else "";
  freeze = freeze;
}

-- The body of updateTimeshift
abbrev pub update_body : Formats → Time → Bool → UpdateTimeshiftRequest
update_body f target freeze = record { time = f.format target; duration = ""; freeze = freeze }

module _ {W : Type 0} (env : World W) (decoders : Decoders) (f : Formats) where
  -- do, for a response of type `A`; `empty` is its zero value.
  unfoldable pub do_request :
      {A : Type 0} → A → (Body → Option A) → Request → Client W → Outcome A × Client W
  do_request empty decode req st =
      let (answer, w) = env.exchange req st.world in
      let st' : Client W = record { world = w; asked = req ∷ st.asked } in
      elim answer [
        | none ↦ (failed transport_error, st')
        | some r ↦
            if leb 400 r.code
            then (failed (api_error r.code), st')
            else if r.code == 204
            then (done empty, st')
            else elim (decode r.body) [ none ↦ (failed decode_error, st') | some a ↦ (done a, st') ]
      ]

  abbrev pub request_timeshift : Request → Client W → Outcome ClientTimeshift × Client W
  request_timeshift req st =
      and_then (timeshift_from_response f) (do_request empty_response decoders.timeshift req st)

  -- createTimeshift
  unfoldable pub create :
      String → String → Time → Duration → Bool → Client W → Outcome ClientTimeshift × Client W
  unfolding do_request timeshift_from_response
  create ns sel target ttl freeze st =
      request_timeshift (create_request (create_body f ns sel target ttl freeze)) st

  -- ListTimeshifts
  unfoldable pub list : Client W → Outcome (List ClientTimeshift) × Client W
  unfolding do_request timeshifts_from
  list st = and_then (timeshifts_from f) (do_request [] decoders.timeshifts list_request st)

  -- GetTimeshift
  unfoldable pub get : String → Client W → Outcome ClientTimeshift × Client W
  unfolding do_request timeshift_from_response
  get id st = request_timeshift (get_request id) st

  -- updateTimeshift, behind UpdateTimeshift and FreezeTimeshift
  unfoldable pub update : String → Time → Bool → Client W → Outcome ClientTimeshift × Client W
  unfolding do_request timeshift_from_response
  update id target freeze st =
      request_timeshift (update_request id (update_body f target freeze)) st

  -- AdvanceTimeshift
  unfoldable pub advance : String → Duration → Client W → Outcome ClientTimeshift × Client W
  unfolding do_request timeshift_from_response
  advance id d st =
      request_timeshift
        (update_request id (record { time = ""; duration = f.duration_text d; freeze = false })) st

  -- DeleteTimeshift
  unfoldable pub delete : String → Client W → Outcome Unit × Client W
  unfolding do_request
  delete id st = do_request tt (λ _. some tt) (delete_request id) st

  -- TimeshiftStatus
  unfoldable pub timeshift_status : String → Client W → Outcome TimeshiftStatusResponse × Client W
  unfolding do_request
  timeshift_status id st =
      do_request (record { id = ""; namespace = ""; containers = [] }) decoders.status
        (status_request id) st

  -- Resolve
  unfoldable pub resolve : String → String → Client W → Outcome (List ResolvedPod) × Client W
  unfolding do_request
  resolve ns sel st = do_request [] decoders.pods (resolve_request ns sel) st
