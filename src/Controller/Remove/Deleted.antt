-- ===== src/Controller/Remove/Deleted.antt =====
-- The outcome of deleteTimeshift (cmd/controller/controller.go) on both of its branches.
use epochd.Base.{
  ◌≡◌, refl, sym, ap, ◌∙◌, String, Bool, Option, none, some, List, [], ◌∷◌, ◌++◌, map, append_assoc,
  append-nil, if◌then◌else◌, str_eq, arith,
}
use epochd.Base.Int.{pos, ◌-ℤ◌}
use epochd.Controller.{
  ContainerHandle, Timeshift, Call, reset_call, Controller, not_found_error, Result, ok, err,
  persist,
}
use epochd.Controller.Registry.{lookup, remove, lookup-remove}
use epochd.Controller.Remove.{reset_handles, drop_active, delete_timeshift}

abbrev pub resets : List ContainerHandle → List Call
resets hs = map (λ h. reset_call h.node_ip h.agent_handle) hs

pub reset_handles_eq :
    (hs : List ContainerHandle) (calls : List Call) → reset_handles hs calls ≡ calls ++ resets hs
unfolding reset_handles
reset_handles_eq [] calls = sym (append-nil calls)
reset_handles_eq (h ∷ hs) calls =
    reset_handles_eq hs (calls ++ reset_call h.node_ip h.agent_handle ∷ [])
    ∙ append_assoc calls (reset_call h.node_ip h.agent_handle ∷ []) (resets hs)

-- The registry `c'` has no timeshift `id` and is otherwise that of `c`.
abbrev pub Lacks : String → Controller → Controller → Type 0
Lacks id c c' =
    (j : String) → lookup j c'.timeshifts ≡ (if str_eq id j then none else lookup j c.timeshifts)

-- What a delete returns and changes, by what the registry held.
abbrev pub DeleteOutcome :
    String → Controller → Option Timeshift → Result Unit × Controller → Type 0
DeleteOutcome id c none (r, c') =
    (r ≡ err not_found_error) × (c'.met ≡ c.met) × (c'.calls ≡ c.calls)
DeleteOutcome id c (some s) (r, c') =
    (r ≡ ok tt) × (c'.met.active ≡ c.met.active -ℤ pos 1) × (c'.calls ≡ c.calls ++ resets s.handles)

pub persist_same :
    (b : Bool) (c : Controller)
    → ((persist b c).timeshifts ≡ c.timeshifts)
      × ((persist b c).met ≡ c.met)
      × ((persist b c).calls ≡ c.calls)
unfolding persist
persist_same b c = ground arith

outcome_at :
    (flush_ok : Bool) (id : String) (c : Controller) (o : Option Timeshift)
    → lookup id c.timeshifts ≡ o
    → Lacks id c (delete_timeshift flush_ok id c).1
      × DeleteOutcome id c o (delete_timeshift flush_ok id c)
unfolding delete_timeshift drop_active
outcome_at flush_ok id c none e =
    rw (e, delete_timeshift) ((λ j. lookup-remove id j c.timeshifts), (refl, refl, refl))
outcome_at flush_ok id c (some s) e =
    let left = record c { timeshifts = remove id c.timeshifts; met = drop_active c.met } in
    let (shifts, met, calls) = persist_same flush_ok left in
    rw (e, delete_timeshift)
      (
        (λ j. ap (lookup j) shifts ∙ lookup-remove id j c.timeshifts),
        (
          refl,
          ap (λ m. m.active) met,
          reset_handles_eq s.handles _ ∙ ap (λ k. k ++ resets s.handles) calls,
        ),
      )

-- deleteTimeshift leaves the registry without `id` and otherwise as it was, whether or not it held
-- `id`. Where it did, it succeeds, the gauge falls by one and one Reset call for each handle is made,
-- in order; where it did not, it gives a notFoundError and makes no call.
pub delete_timeshift_outcome :
    (flush_ok : Bool) (id : String) (c : Controller)
    → Lacks id c (delete_timeshift flush_ok id c).1
      × DeleteOutcome id c (lookup id c.timeshifts) (delete_timeshift flush_ok id c)
delete_timeshift_outcome flush_ok id c = outcome_at flush_ok id c _ refl
