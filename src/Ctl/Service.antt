-- ===== src/Ctl/Service.antt =====
-- `faketimectl create` against the controller: from the command line of cmd/faketimectl to the registry of
-- cmd/controller.
use epochd.Base.{
  ◌≡◌, refl, ap, ◌∙◌, ◌⊎◌, String, Bool, true, false, Option, some, List, [], ◌∷◌, ◌++◌,
  if◌then◌else◌, str_eq, map, All,
}
use epochd.Base.Int.{ℤ, pos, ltb_ℤ}
use epochd.Clock.{Time, Duration}
use epochd.Api.{HandleStatus}
use epochd.Controller.{Pod, Agents, Controller}
use epochd.Controller.Registry.{lookup, insert}
use epochd.Controller.Create.{create_timeshift}
use epochd.Controller.Handlers.{Formats}
use epochd.Sdk.{Decoders, World, Client}
use epochd.Sdk.Service.{whole_second, service, create-refines}
use epochd.Ctl.{fine}
use epochd.Ctl.Flags.{text_flag, switch_flag}
use epochd.Ctl.Flags.Rendered.{
  Setting, with_text, turned_on, render, set_all, IsDeclared, parse-map-render,
}
use epochd.Ctl.Local.{parse_args}
use epochd.Ctl.Args.{create_flags, ttl_flag, client_url, create_args}
use epochd.Ctl.Commands.{cmd_create, run_command, run}
use epochd.Ctl.Commands.Requests.{report-state}

-- The flags of a create, in the order of the usage.
abbrev pub create_settings : String → String → String → String → String → Bool → List Setting
create_settings url ns sel time ttl freeze =
    with_text "url" url
    ∷ with_text "namespace" ns
    ∷ with_text "selector" sel
    ∷ with_text "time" time
    ∷ with_text "ttl" ttl
    ∷ (if freeze then turned_on "freeze" ∷ [] else [])

create_settings-IsDeclared :
    (url ns sel time ttl : String) (freeze : Bool)
    → All (IsDeclared create_flags) (create_settings url ns sel time ttl freeze)
unfolding lookup
create_settings-IsDeclared url ns sel time ttl true = (
  (refl, refl),
  ((refl, refl), ((refl, refl), ((refl, refl), ((refl, refl), ((refl, refl), tt))))),
)
create_settings-IsDeclared url ns sel time ttl false =
    ((refl, refl), ((refl, refl), ((refl, refl), ((refl, refl), ((refl, refl), tt)))))

module _ (parse_int : String → Option ℤ) (f : Formats) (env_url : String) where
  -- The values that a rendered command line sets.
  parse_args-create :
      (url ns sel time ttl : String) (freeze : Bool)
      → parse_args parse_int create_flags
          (map render (create_settings url ns sel time ttl freeze) ++ [])
        ≡ fine (set_all (create_settings url ns sel time ttl freeze) [], [])
  unfolding parse_args
  parse_args-create url ns sel time ttl freeze =
      rw
        (
          parse-map-render parse_int create_flags (create_settings url ns sel time ttl freeze) [] []
              (create_settings-IsDeclared url ns sel time ttl freeze) tt,
          parse_args,
        )
        refl

  create_args-render :
      (url ns sel time ttl : String) (freeze : Bool) (target : Time) (d : Duration)
      → str_eq url "" ≡ false
      → str_eq ns "" ≡ false
      → str_eq sel "" ≡ false
      → str_eq time "" ≡ false
      → str_eq ttl "" ≡ false
      → f.parse time ≡ some target
      → f.parse_duration ttl ≡ some d
      → ltb_ℤ (pos 0) d ≡ true
      → create_args parse_int f env_url
          (map render (create_settings url ns sel time ttl freeze) ++ [])
        ≡ fine (record {
          url = url;
          namespace = ns;
          selector = sel;
          target = target;
          ttl = d;
          freeze = freeze;
        })
  unfolding create_args text_flag switch_flag lookup insert client_url ttl_flag
  create_args-render url ns sel time ttl true target d u n s t l parsed_time parsed_ttl positive =
      rw
        (
          parse_args-create url ns sel time ttl true,
          n,
          s,
          t,
          l,
          parsed_time,
          parsed_ttl,
          positive,
          u,
          u,
        )
        refl
  create_args-render url ns sel time ttl false target d u n s t l parsed_time parsed_ttl positive =
      rw
        (
          parse_args-create url ns sel time ttl false,
          n,
          s,
          t,
          l,
          parsed_time,
          parsed_ttl,
          positive,
          u,
          u,
        )
        refl

module _ (f : Formats) (agents : Agents) (listed : String → String → Option (List Pod))
    (get_status : String → String → HandleStatus ⊎ String) (flush_ok : Bool) (fresh : String)
    (now later shown : Time) (decoders : Decoders) (pause : Controller → Bool × Controller) where
  -- A controller at every URL.
  abbrev pub dialled : String → World Controller
  dialled _ = service f agents listed get_status flush_ok fresh now later shown decoders pause

  module _ (parse_int : String → Option ℤ) (env_url : String) where
    -- `faketimectl create --url=… --namespace=… --selector=… --time=… --ttl=…`, with `--freeze` or without, leaves the
    -- controller as its createTimeshift does for that namespace, selector, TTL and mode and the whole second at or
    -- before the given time: for values that are not empty, a time and a TTL that parse, to a positive TTL, and printed forms of
    -- them that are not empty and parse back to that second and that TTL.
    pub run-create-refines :
        (url ns sel time ttl : String) (freeze : Bool) (target : Time) (d : Duration)
        (st : Client Controller)
        → str_eq url "" ≡ false
        → str_eq ns "" ≡ false
        → str_eq sel "" ≡ false
        → str_eq time "" ≡ false
        → str_eq ttl "" ≡ false
        → f.parse time ≡ some target
        → f.parse_duration ttl ≡ some d
        → ltb_ℤ (pos 0) d ≡ true
        → str_eq (f.format target) "" ≡ false
        → f.parse (f.format target) ≡ some (whole_second target)
        → str_eq (f.duration_text d) "" ≡ false
        → f.parse_duration (f.duration_text d) ≡ some d
        → (run parse_int f env_url dialled decoders
            ("create" ∷ (map render (create_settings url ns sel time ttl freeze) ++ []))
            st).1.world
          ≡ (create_timeshift agents
              (listed ns sel)
              flush_ok
              fresh
              now
              ns
              sel
              (whole_second target)
              d
              freeze
              st.world).1
    unfolding run run_command cmd_create
    run-create-refines url ns sel time ttl freeze target d st u n s t l parsed_time parsed_ttl
          positive shown_text whole ttl_text ttl_whole =
        rw
          (create_args-render parse_int f env_url url ns sel time ttl freeze target d u n s t l
            parsed_time parsed_ttl positive)
          (ap (λ c. c.world) (report-state _ _ _)
            ∙ create-refines f agents listed get_status flush_ok fresh now later shown decoders
                pause target shown_text whole ns sel d freeze st n s positive ttl_text ttl_whole)
