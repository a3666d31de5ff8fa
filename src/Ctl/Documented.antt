-- ===== src/Ctl/Documented.antt =====
-- The order of arguments that the usage of cmd/faketimectl documents for `update` and `advance`: the id, then
-- the flags.
use epochd.Base.{
  ◌≡◌, refl, String, Bool, true, false, Option, some, List, [], ◌∷◌, ◌++◌, map, All, if◌then◌else◌,
  str_eq,
}
use epochd.Base.Int.{ℤ}
use epochd.Clock.{Time}
use epochd.Controller.Handlers.{Formats}
use epochd.Controller.Registry.{lookup, insert}
use epochd.Sdk.{Decoders, World, Client}
use epochd.Ctl.{required, refused, fine}
use epochd.Ctl.Flags.{FlagSet, Values, parsed, operand, token, parse, text_flag, switch_flag}
use epochd.Ctl.Flags.Rendered.{
  Setting, with_text, turned_on, render, set_all, IsDeclared, parse-map-render,
}
use epochd.Ctl.Local.{parse_args}
use epochd.Ctl.Args.{update_flags, advance_flags, client_url, update_args, advance_args}
use epochd.Ctl.Commands.{cmd_update, cmd_advance, run_command, run}

module _ (parse_int : String → Option ℤ) where
  -- The parse stops at the first argument that is no flag.
  parse-operand :
      (flags : FlagSet) (s : String) (args : List String) (vs : Values)
      → token s ≡ operand
      → parse parse_int flags false (s ∷ args) vs ≡ parsed vs (s ∷ args)
  unfolding parse
  parse-operand flags s args vs h = rw (h, parse) refl

  parse_args-operand :
      (flags : FlagSet) (s : String) (args : List String)
      → token s ≡ operand
      → parse_args parse_int flags (s ∷ args) ≡ fine ([], s ∷ args)
  unfolding parse_args
  parse_args-operand flags s args h = rw (parse-operand flags s args [] h, parse_args) refl

module _ {W : Type 0} (parse_int : String → Option ℤ) (f : Formats) (env_url : String)
    (dial : String → World W) (decoders : Decoders) where
  -- `update <id>` and `advance <id>`, with the id before the flags as the usage has it, fail with the error that
  -- --time or --by is required, whatever flags follow, and leave the client as it was: no request is sent. The id is
  -- an argument that is no flag.
  pub run-id_first :
      (id : String) (args : List String) (st : Client W)
      → token id ≡ operand
      → (run parse_int f env_url dial decoders ("update" ∷ id ∷ args) st
          ≡ (refused (required "update" "time"), st))
        × (run parse_int f env_url dial decoders ("advance" ∷ id ∷ args) st
            ≡ (refused (required "advance" "by"), st))
  unfolding run run_command cmd_update cmd_advance update_args advance_args text_flag lookup
  run-id_first id args st h = (
    rw (parse_args-operand parse_int update_flags id args h, update_args) refl,
    rw (parse_args-operand parse_int advance_flags id args h, advance_args) refl,
  )

-- The flags of an update, in the order of the usage.
abbrev pub update_settings : String → String → Bool → List Setting
update_settings url time freeze =
    with_text "url" url ∷ with_text "time" time ∷ (if freeze then turned_on "freeze" ∷ [] else [])

update_settings-IsDeclared :
    (url time : String) (freeze : Bool)
    → All (IsDeclared update_flags) (update_settings url time freeze)
unfolding lookup
update_settings-IsDeclared url time true = ((refl, refl), ((refl, refl), ((refl, refl), tt)))
update_settings-IsDeclared url time false = ((refl, refl), ((refl, refl), tt))

module _ (parse_int : String → Option ℤ) (f : Formats) (env_url : String) where
  parse_args-update :
      (url time : String) (freeze : Bool) (id : String) (args : List String)
      → token id ≡ operand
      → parse_args parse_int update_flags
          (map render (update_settings url time freeze) ++ id ∷ args)
        ≡ fine (set_all (update_settings url time freeze) [], id ∷ args)
  unfolding parse_args
  parse_args-update url time freeze id args h =
      rw
        (
          parse-map-render parse_int update_flags (update_settings url time freeze) (id ∷ args) []
              (update_settings-IsDeclared url time freeze) h,
          parse_args,
        )
        refl

  -- With its flags before the id, `--url=… --time=…` and with `--freeze` or without, an update reads back what was
  -- written, and ignores arguments after the id: for a URL that is not empty, a time that is not empty and
  -- parses, and an id that is no flag.
  pub update_args-render :
      (url time : String) (freeze : Bool) (id : String) (args : List String) (target : Time)
      → token id ≡ operand
      → str_eq url "" ≡ false
      → str_eq time "" ≡ false
      → f.parse time ≡ some target
      → update_args parse_int f env_url (map render (update_settings url time freeze) ++ id ∷ args)
        ≡ fine (record { url = url; id = id; target = target; freeze = freeze })
  unfolding update_args text_flag switch_flag lookup insert client_url
  update_args-render url time true id args target h u t parsed_time =
      rw (parse_args-update url time true id args h, t, parsed_time, u, u) refl
  update_args-render url time false id args target h u t parsed_time =
      rw (parse_args-update url time false id args h, t, parsed_time, u, u) refl
