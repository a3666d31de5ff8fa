-- ===== src/Controller/Create/Exclusive.antt =====
-- The containers of the timeshift that createTimeshift of cmd/controller/controller.go makes, against those
-- that the registry tracks.
use epochd.Base.{
  ◌≡◌, refl, sym, ◌∙◌, str_eq_iff, String, Bool, true, Option, none, some, List, [], ◌∷◌, ◌++◌,
  arith, All, Option-cases, Bool-cases, inl, inr,
}
use epochd.Clock.{Time, Duration}
use epochd.Controller.{
  ContainerHandle, Timeshift, ContainerStatus, Pod, Agents, Timeshifts, Controller, Error,
  list_failed, not_found_error, no_containers, conflict_error, Result, ok, err,
}
use epochd.Controller.Registry.{lookup, lookup-insert}
use epochd.Controller.Create.{
  container_key, is_target, occupy, occupied_from, occupied_containers, pod_conflicts, conflicts,
  check_conflicts, Progress, inject_container, inject_containers, inject_pod, inject_pods,
  new_timeshift, finish_create, create_timeshift,
}

module _ (occupied : List (String × String)) (ns : String) where
  -- The map `occupied` has no entry for the handle's container.
  abbrev IsAbsent : ContainerHandle → Type 0
  IsAbsent h = lookup (container_key ns h.pod h.container) occupied ≡ none

  abbrev IsOpen : String → ContainerStatus → Type 0
  IsOpen pod cs = is_target cs ≡ true → lookup (container_key ns pod cs.name) occupied ≡ none

  append-nil_left :
      (xs ys : List (String × String × String)) → xs ++ ys ≡ [] → (xs ≡ []) × (ys ≡ [])
  append-nil_left [] ys e = (refl, e)
  append-nil_left (x ∷ xs) ys e = ground arith

  pod_conflicts-IsOpen :
      (pod : String) (css : List ContainerStatus)
      → pod_conflicts occupied ns pod css ≡ []
      → All (IsOpen pod) css
  unfolding pod_conflicts
  pod_conflicts-IsOpen pod [] e = tt
  pod_conflicts-IsOpen pod (cs ∷ css) e =
      ((λ t. ground (arith, t, e)), pod_conflicts-IsOpen pod css (ground (arith, e)))

  module _ (agents : Agents) (target : Time) (freeze : Bool) where
    append-All :
        (hs ks : List ContainerHandle) → All IsAbsent hs → All IsAbsent ks → All IsAbsent (hs ++ ks)
    append-All [] ks a b = b
    append-All (h ∷ hs) ks (x, a) b = (x, append-All hs ks a b)

    inject_container-IsAbsent :
        (pod : Pod) (cs : ContainerStatus) (p : Progress)
        → IsOpen pod.name cs
        → All IsAbsent p.handles
        → All IsAbsent (inject_container agents pod target freeze cs p).handles
    unfolding inject_container
    inject_container-IsAbsent pod cs p is_open a = elim (Bool-cases (is_target cs)) [
      | inr skipped ↦ rw (skipped, inject_container) a
      | inl yes_target ↦
          elim (Option-cases (agents.inject p.calls pod.host_ip cs.container_id target freeze)) [
            | inl failed ↦ rw (yes_target, failed, inject_container) a
            | inr (hid, given) ↦
                rw (yes_target, given, inject_container)
                  (append-All p.handles _ a (is_open yes_target, tt))
          ]
    ]

    inject_containers-IsAbsent :
        (pod : Pod) (css : List ContainerStatus) (p : Progress)
        → All (IsOpen pod.name) css
        → All IsAbsent p.handles
        → All IsAbsent (inject_containers agents pod target freeze css p).handles
    unfolding inject_containers
    inject_containers-IsAbsent pod [] p o a = a
    inject_containers-IsAbsent pod (cs ∷ css) p (o, os) a =
        inject_containers-IsAbsent pod css _ os (inject_container-IsAbsent pod cs p o a)

    inject_pods-IsAbsent :
        (pods : List Pod) (p : Progress)
        → conflicts occupied ns pods ≡ []
        → All IsAbsent p.handles
        → All IsAbsent (inject_pods agents pods target freeze p).handles
    unfolding inject_pods inject_pod conflicts
    inject_pods-IsAbsent [] p e a = a
    inject_pods-IsAbsent (pod ∷ pods) p e a =
        let (here, later) = append-nil_left (pod_conflicts occupied ns pod.name pod.statuses) _ e in
        inject_pods-IsAbsent pods _ later (
          inject_containers-IsAbsent pod pod.statuses p
            (pod_conflicts-IsOpen pod.name pod.statuses here) a)

-- No handle of the timeshift is in the namespace `ns` and has the pod and the container of `h`.
abbrev pub IsOther : String → ContainerHandle → Timeshift → Type 0
IsOther ns h s =
    All
      (λ (k : ContainerHandle).
        ¬ ((s.namespace ≡ ns) × (k.pod ≡ h.pod) × (k.container ≡ h.container)))
      s.handles

-- No timeshift of the registry tracks the container of `h` in the namespace `ns`.
abbrev pub IsUntracked : String → Timeshifts → ContainerHandle → Type 0
IsUntracked ns m h = All (λ (e : String × Timeshift). IsOther ns h e.1) m

occupy-IsAbsent :
    (ns : String) (h : ContainerHandle) (s : Timeshift) (ks : List ContainerHandle)
    (m : List (String × String))
    → IsAbsent (occupy s ks m) ns h
    → IsAbsent m ns h
      × All
          (λ (k : ContainerHandle).
            ¬ ((s.namespace ≡ ns) × (k.pod ≡ h.pod) × (k.container ≡ h.container)))
          ks
unfolding occupy
occupy-IsAbsent ns h s [] m a = (a, tt)
occupy-IsAbsent ns h s (k ∷ ks) m a =
    let key = container_key ns h.pod h.container in
    let key' = container_key s.namespace k.pod k.container in
    let (later, others) = occupy-IsAbsent ns h s ks _ a in
    let found = sym (lookup-insert key' key s.id m) ∙ later in
    (
      ground (arith, found),
      (
        λ same.
            let e : key' ≡ key = cc (same.0, same.1, same.2) in
            ground (arith, found, e, str_eq_iff key' key),
        others,
      ),
    )

occupied_from-IsAbsent :
    (ns : String) (h : ContainerHandle) (ts : Timeshifts) (m : List (String × String))
    → IsAbsent (occupied_from ts m) ns h
    → IsAbsent m ns h × IsUntracked ns ts h
unfolding occupied_from
occupied_from-IsAbsent ns h [] m a = (a, tt)
occupied_from-IsAbsent ns h ((id, s) ∷ ts) m a =
    let (here, later) = occupied_from-IsAbsent ns h ts (occupy s s.handles m) a in
    let (before, others) = occupy-IsAbsent ns h s s.handles m here in (before, (others, later))

absent-IsUntracked :
    (ns : String) (ts : Timeshifts) (hs : List ContainerHandle)
    → All (IsAbsent (occupied_containers ts) ns) hs
    → All (IsUntracked ns ts) hs
unfolding occupied_containers
absent-IsUntracked ns ts [] a = tt
absent-IsUntracked ns ts (h ∷ hs) (a, rest) =
    ((occupied_from-IsAbsent ns h ts [] a).1, absent-IsUntracked ns ts hs rest)

-- What createTimeshift may answer: a timeshift whose containers no timeshift of `c` tracks, or
-- an error; with a conflict, nothing changes and no agent is called.
abbrev pub CreateOutcome : String → Controller → Result Timeshift × Controller → Type 0
CreateOutcome ns c (ok s, c') = All (IsUntracked ns c.timeshifts) s.handles
CreateOutcome ns c (err (conflict_error es), c') = c' ≡ c
CreateOutcome ns c (err e, c') = c'.timeshifts ≡ c.timeshifts

finish_create-outcome :
    (flush_ok : Bool) (id : String) (now : Time) (ns sel : String) (target : Time) (ttl : Duration)
    (freeze : Bool) (p : Progress) (c : Controller) (hs : List ContainerHandle)
    → p.handles ≡ hs
    → All (IsUntracked ns c.timeshifts) hs
    → CreateOutcome ns c (finish_create flush_ok id now ns sel target ttl freeze p c)
unfolding finish_create new_timeshift
finish_create-outcome flush_ok id now ns sel target ttl freeze p c [] e a =
    rw (e, finish_create) refl
finish_create-outcome flush_ok id now ns sel target ttl freeze p c (h ∷ hs) e a =
    rw (e, finish_create) a

check_conflicts-none :
    (m : Timeshifts) (ns : String) (pods : List Pod)
    → check_conflicts m ns pods ≡ none
    → conflicts (occupied_containers m) ns pods ≡ []
unfolding check_conflicts
check_conflicts-none m ns pods e = ground (arith, e)

same_outcome : (ns : String) (c : Controller) (e : Error) → CreateOutcome ns c (err e, c)
same_outcome ns c list_failed = refl
same_outcome ns c not_found_error = refl
same_outcome ns c no_containers = refl
same_outcome ns c (conflict_error es) = refl

-- createTimeshift answers with a timeshift none of whose containers a timeshift of the same namespace
-- in the registry tracked before, or with an error and the registry unchanged; where the error is a conflict, the whole
-- controller is unchanged, so that no agent was called.
pub create_timeshift_outcome :
    (agents : Agents) (listed : Option (List Pod)) (flush_ok : Bool) (id : String) (now : Time)
    (ns sel : String) (target : Time) (ttl : Duration) (freeze : Bool) (c : Controller)
    → CreateOutcome ns c (create_timeshift agents listed flush_ok id now ns sel target ttl freeze c)
unfolding create_timeshift
create_timeshift_outcome agents none f id now ns sel target ttl freeze c = refl
create_timeshift_outcome agents (some []) f id now ns sel target ttl freeze c = refl
create_timeshift_outcome agents (some (pod ∷ pods)) f id now ns sel target ttl freeze c =
    elim (Option-cases (check_conflicts c.timeshifts ns (pod ∷ pods))) [
      | inl clear ↦
          rw (clear, create_timeshift)
            (finish_create-outcome f id now ns sel target ttl freeze _ c _ refl (
              absent-IsUntracked ns c.timeshifts _ (
                inject_pods-IsAbsent (occupied_containers c.timeshifts) ns agents target freeze
                  (pod ∷ pods) _ (check_conflicts-none c.timeshifts ns (pod ∷ pods) clear) tt)))
      | inr (e, found) ↦ rw (found, create_timeshift) (same_outcome ns c e)
    ]
