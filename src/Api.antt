-- ===== src/Api.antt =====
-- pkg/api/api.go: the bodies of the requests and the responses of the controller, which its handlers
-- and the SDK share. An optional pointer is an Option.
use epochd.Base.{ℕ, String, Bool, Option, List}
use epochd.Base.Int.{ℤ}

pub record CreateTimeshiftRequest : Type 0 where
  pub namespace : String
  pub label_selector : String
  pub time : String
  pub ttl : String
  pub freeze : Bool

pub record UpdateTimeshiftRequest : Type 0 where
  pub time : String
  pub duration : String
  pub freeze : Bool

pub record TimeshiftResponse : Type 0 where
  pub id : String
  pub namespace : String
  pub time : String
  pub frozen : Bool
  pub expires_at : String
  pub applied_to : List String

pub record ResolvedPod : Type 0 where
  pub name : String
  pub namespace : String
  pub node_ip : String
  pub containers : List String

pub record HandleStatus : Type 0 where
  pub generation : ℕ
  pub last_target : String
  pub state_addr : String
  pub pid : ℤ

pub record ContainerStatusEntry : Type 0 where
  pub pod : String
  pub container : String
  pub node_ip : String
  pub status : Option HandleStatus
  pub error : String

pub record TimeshiftStatusResponse : Type 0 where
  pub id : String
  pub namespace : String
  pub containers : List ContainerStatusEntry

-- The body of a response: one of the types above, an ErrorResponse, or nothing.
pub data Body : Type 0 where
  timeshift_body : TimeshiftResponse → Body
  list_body : List TimeshiftResponse → Body
  status_body : TimeshiftStatusResponse → Body
  resolve_body : List ResolvedPod → Body
  error_body : Body
  no_body : Body

-- A response: its HTTP status code and its body.
pub record Response : Type 0 where
  pub code : ℕ
  pub body : Body
