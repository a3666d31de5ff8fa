-- ===== src/Controller/Handlers/Outcome.antt =====
-- What the answer of handleCreateTimeshift (cmd/controller/handlers.go) says of the controller behind it.
use epochd.Base.{
  ◌≡◌, refl, ◌⊎◌, inl, inr, String, Bool, Option, none, some, List, [], ◌∷◌, arith, str_eq,
  str_eq_iff, ap, Bool-cases, Option-cases,
}
use epochd.Clock.{Time, Duration}
use epochd.Api.{CreateTimeshiftRequest, Response, timeshift_body}
use epochd.Controller.{
  ContainerHandle, Timeshift, Pod, Agents, Controller, Error, list_failed, not_found_error,
  no_containers, conflict_error, Result, ok, err,
}
use epochd.Controller.Registry.{lookup, lookup-insert}
use epochd.Controller.Create.{check_conflicts, Progress, finish_create, register, create_timeshift}
use epochd.Controller.Handlers.{
  Formats, failure, create_code, to_response, parse_ttl, answer, handle_create_timeshift,
}

-- What createTimeshift leaves: the timeshift under its id, or an error and the registry as it was; only
-- where every injection failed were agents called for an error.
abbrev pub IsKept : String → Controller → Result Timeshift × Controller → Type 0
IsKept id c (ok s, c') = lookup id c'.timeshifts ≡ some s
IsKept id c (err no_containers, c') = c'.timeshifts ≡ c.timeshifts
IsKept id c (err e, c') = c' ≡ c

same_IsKept : (id : String) (c : Controller) (e : Error) → IsKept id c (err e, c)
same_IsKept id c list_failed = refl
same_IsKept id c not_found_error = refl
same_IsKept id c no_containers = refl
same_IsKept id c (conflict_error es) = refl

register-lookup :
    (b : Bool) (id : String) (s : Timeshift) (c : Controller)
    → lookup id (register b id s c).timeshifts ≡ some s
unfolding register
register-lookup b id s c = ground (arith, lookup-insert id id s c.timeshifts, str_eq_iff id id)

finish_create-IsKept :
    (flush_ok : Bool) (id : String) (now : Time) (ns sel : String) (target : Time) (ttl : Duration)
    (freeze : Bool) (p : Progress) (c : Controller) (hs : List ContainerHandle)
    → p.handles ≡ hs
    → IsKept id c (finish_create flush_ok id now ns sel target ttl freeze p c)
unfolding finish_create
finish_create-IsKept flush_ok id now ns sel target ttl freeze p c [] e = rw (e, finish_create) refl
finish_create-IsKept flush_ok id now ns sel target ttl freeze p c (h ∷ hs) e =
    rw (e, finish_create) (register-lookup flush_ok id _ _)

pub create_timeshift-IsKept :
    (agents : Agents) (listed : Option (List Pod)) (flush_ok : Bool) (id : String) (now : Time)
    (ns sel : String) (target : Time) (ttl : Duration) (freeze : Bool) (c : Controller)
    → IsKept id c (create_timeshift agents listed flush_ok id now ns sel target ttl freeze c)
unfolding create_timeshift
create_timeshift-IsKept agents none f id now ns sel target ttl freeze c = refl
create_timeshift-IsKept agents (some []) f id now ns sel target ttl freeze c = refl
create_timeshift-IsKept agents (some (pod ∷ pods)) f id now ns sel target ttl freeze c =
    elim (Option-cases (check_conflicts c.timeshifts ns (pod ∷ pods))) [
      | inl clear ↦
          rw (clear, create_timeshift)
            (finish_create-IsKept f id now ns sel target ttl freeze _ c _ refl)
      | inr (e, found) ↦ rw (found, create_timeshift) (same_IsKept id c e)
    ]

module _ (f : Formats) where
  -- The three answers: 201 with the timeshift that the registry now holds under the id; 400, 404 or 409
  -- with the controller as it was; 500 with its registry as it was.
  abbrev pub CreateAnswer : Time → String → Controller → Response × Controller → Type 0
  CreateAnswer shown id c (r, c') =
      ((s : Timeshift) × (lookup id c'.timeshifts ≡ some s)
        × (r ≡ record { code = 201; body = timeshift_body (to_response f shown s) }))
      ⊎ ((((r ≡ failure 400) ⊎ (r ≡ failure 404)) ⊎ (r ≡ failure 409)) × (c' ≡ c))
      ⊎ (r ≡ failure 500) × (c'.timeshifts ≡ c.timeshifts)

  answer_created :
      (shown : Time) (id : String) (c : Controller) (out : Result Timeshift × Controller)
      → IsKept id c out
      → CreateAnswer shown id c (answer f 201 create_code shown out)
  unfolding create_code
  answer_created shown id c (ok s, c') k = inl (s, k, refl)
  answer_created shown id c (err list_failed, c') k = inr (inr (refl, ap (λ d. d.timeshifts) k))
  answer_created shown id c (err not_found_error, c') k = inr (inl (inl (inr refl), k))
  answer_created shown id c (err no_containers, c') k = inr (inr (refl, k))
  answer_created shown id c (err (conflict_error es), c') k = inr (inl (inr refl, k))

  module _ (agents : Agents) (listed : Option (List Pod)) (flush_ok : Bool) (id : String)
      (now shown : Time) where
    rejected : (c : Controller) → CreateAnswer shown id c (failure 400, c)
    rejected c = inr (inl (inl (inl refl), refl))

    -- handleCreateTimeshift answers with 201 and the timeshift that the registry then holds under the new
    -- id, with 400, 404 or 409 and the controller as it was (so that no agent was called), or with
    -- 500 and the registry as it was.
    pub handle_create_timeshift_outcome :
        (req : Option CreateTimeshiftRequest) (c : Controller)
        → CreateAnswer shown id c
            (handle_create_timeshift f agents listed flush_ok id now shown req c)
    unfolding handle_create_timeshift
    handle_create_timeshift_outcome none c = rejected c
    handle_create_timeshift_outcome (some req) c = elim (Bool-cases (str_eq req.namespace "")) [
      | inl e ↦ rw (e, handle_create_timeshift) (rejected c)
      | inr with_ns ↦ elim (Bool-cases (str_eq req.label_selector "")) [
        | inl e ↦ rw (with_ns, e, handle_create_timeshift) (rejected c)
        | inr with_sel ↦ elim (Option-cases (f.parse req.time)) [
          | inl e ↦ rw (with_ns, with_sel, e, handle_create_timeshift) (rejected c)
          | inr (target, e) ↦ elim (Option-cases (parse_ttl f req.ttl)) [
            | inl t ↦ rw (with_ns, with_sel, e, t, handle_create_timeshift) (rejected c)
            | inr (ttl, t) ↦
                rw (with_ns, with_sel, e, t, handle_create_timeshift)
                  (answer_created shown id c _ (
                    create_timeshift-IsKept agents listed flush_ok id now req.namespace
                      req.label_selector target ttl req.freeze c))
          ]
        ]
      ]
    ]
