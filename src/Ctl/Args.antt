-- ===== src/Ctl/Args.antt =====
-- The arguments of the commands of cmd/faketimectl/cmds_controller.go: their flags, and the checks that
-- they make before a request.
use epochd.Base.{String, Bool, Option, none, some, List, [], ◌∷◌, if◌then◌else◌, str_eq}
use epochd.Base.Int.{ℤ, pos, ltb_ℤ}
use epochd.Clock.{Time, Duration}
use epochd.Controller.Handlers.{Formats}
use epochd.Ctl.{
  id_required, required, bad_time, bad_ttl, bad_duration, url_required, Checked, fine, refuse,
  ◌>>=◌, refuse_if, or_refuse,
}
use epochd.Ctl.Flags.{FlagSet, string_flag, bool_flag, text_flag, switch_flag}
use epochd.Ctl.Local.{parse_args}

abbrev pub create_flags : FlagSet
create_flags =
    ("url", string_flag)
    ∷ ("namespace", string_flag)
    ∷ ("selector", string_flag)
    ∷ ("time", string_flag)
    ∷ ("ttl", string_flag)
    ∷ ("freeze", bool_flag)
    ∷ []

abbrev pub url_flags : FlagSet
url_flags = ("url", string_flag) ∷ []

abbrev pub update_flags : FlagSet
update_flags = ("url", string_flag) ∷ ("time", string_flag) ∷ ("freeze", bool_flag) ∷ []

abbrev pub advance_flags : FlagSet
advance_flags = ("url", string_flag) ∷ ("by", string_flag) ∷ []

abbrev pub resolve_flags : FlagSet
resolve_flags = ("url", string_flag) ∷ ("namespace", string_flag) ∷ ("selector", string_flag) ∷ []

-- fs.Arg(0), with the error where there is none
abbrev pub first_arg : String → List String → Checked String
first_arg cmd [] = refuse (id_required cmd)
first_arg cmd (id ∷ _) = fine id

-- The TTL of cmdCreate: zero, or a positive duration.
unfoldable pub ttl_flag : Formats → String → Checked Duration
ttl_flag f s = if str_eq s "" then fine (pos 0) else elim (f.parse_duration s) [
  | none ↦ refuse bad_ttl
  | some ttl ↦ if ltb_ℤ (pos 0) ttl then fine ttl else refuse bad_ttl
]

-- The arguments of cmdCreate and of cmdUpdate, once checked.
pub record CreateArgs : Type 0 where
  pub url : String
  pub namespace : String
  pub selector : String
  pub target : Time
  pub ttl : Duration
  pub freeze : Bool

pub record UpdateArgs : Type 0 where
  pub url : String
  pub id : String
  pub target : Time
  pub freeze : Bool

-- The tool runs with `env_url` for EPOCHD_URL.
module _ (parse_int : String → Option ℤ) (f : Formats) (env_url : String) where
  -- The URL of clientFromURL
  unfoldable pub client_url : String → Checked String
  client_url url =
      let chosen = if str_eq url "" then env_url else url in
      if str_eq chosen "" then refuse url_required else fine chosen

  unfoldable pub create_args : List String → Checked CreateArgs
  unfolding parse_args text_flag switch_flag client_url ttl_flag
  create_args args = do
    (vs, rest) ← parse_args parse_int create_flags args
    _ ← refuse_if (str_eq (text_flag "namespace" vs) "") (required "create" "namespace")
    _ ← refuse_if (str_eq (text_flag "selector" vs) "") (required "create" "selector")
    _ ← refuse_if (str_eq (text_flag "time" vs) "") (required "create" "time")
    target ← or_refuse (f.parse (text_flag "time" vs)) (bad_time "create")
    ttl ← ttl_flag f (text_flag "ttl" vs)
    url ← client_url (text_flag "url" vs)
    fine (record {
      url = url;
      namespace = text_flag "namespace" vs;
      selector = text_flag "selector" vs;
      target = target;
      ttl = ttl;
      freeze = switch_flag "freeze" vs;
    })

  unfoldable pub update_args : List String → Checked UpdateArgs
  unfolding parse_args text_flag switch_flag client_url
  update_args args = do
    (vs, rest) ← parse_args parse_int update_flags args
    id ← first_arg "update" rest
    _ ← refuse_if (str_eq (text_flag "time" vs) "") (required "update" "time")
    target ← or_refuse (f.parse (text_flag "time" vs)) (bad_time "update")
    url ← client_url (text_flag "url" vs)
    fine (record { url = url; id = id; target = target; freeze = switch_flag "freeze" vs })

  -- The URL, the id and the delta of cmdAdvance
  unfoldable pub advance_args : List String → Checked (String × String × Duration)
  unfolding parse_args text_flag client_url
  advance_args args = do
    (vs, rest) ← parse_args parse_int advance_flags args
    id ← first_arg "advance" rest
    _ ← refuse_if (str_eq (text_flag "by" vs) "") (required "advance" "by")
    delta ← or_refuse (f.parse_duration (text_flag "by" vs)) (bad_duration "advance")
    url ← client_url (text_flag "url" vs)
    fine (url, id, delta)

  -- The URL and the id of cmdGet, cmdDelete and cmdStatus
  unfoldable pub id_args : String → List String → Checked (String × String)
  unfolding parse_args text_flag client_url
  id_args cmd args = do
    (vs, rest) ← parse_args parse_int url_flags args
    id ← first_arg cmd rest
    url ← client_url (text_flag "url" vs)
    fine (url, id)

  -- The URL of cmdList
  unfoldable pub list_args : List String → Checked String
  unfolding parse_args text_flag client_url
  list_args args = do
    (vs, rest) ← parse_args parse_int url_flags args
    client_url (text_flag "url" vs)

  -- The URL, the namespace and the selector of cmdResolve
  unfoldable pub resolve_args : List String → Checked (String × String × String)
  unfolding parse_args text_flag client_url
  resolve_args args = do
    (vs, rest) ← parse_args parse_int resolve_flags args
    _ ← refuse_if (str_eq (text_flag "namespace" vs) "") (required "resolve" "namespace")
    _ ← refuse_if (str_eq (text_flag "selector" vs) "") (required "resolve" "selector")
    url ← client_url (text_flag "url" vs)
    fine (url, text_flag "namespace" vs, text_flag "selector" vs)
