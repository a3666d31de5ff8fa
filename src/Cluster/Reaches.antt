-- ===== src/Cluster/Reaches.antt =====
-- An update of a timeshift (cmd/controller/controller.go) at the agents of its containers (cmd/agent/main.go).
use epochd.Base.{
  ℕ, suc, ◌≡◌, refl, sym, ap, ◌∙◌, inl, inr, String, Bool, false, some, List, [], ◌∷◌, ◌++◌,
  str_eq_iff, arith, All,
}
use epochd.Clock.{Time}
use epochd.Agent.{HandleEntry, lookup_handle}
use epochd.Controller.{ContainerHandle, Timeshift, Call, set_time_call, Controller}
use epochd.Controller.Registry.{lookup}
use epochd.Controller.Update.{Sent, send, send_all, update_timeshift}
use epochd.Controller.Remove.Deleted.{persist_same}
use epochd.Cluster.{Fleet, Servers, pool_set_time, after_call, served, agents_of}
use epochd.Cluster.Pool.{
  IsEntry, same_handle, AreApart, IsReached, served-append, status-same, pool_set_time-answer,
  pool_set_time-IsReached, pool_set_time-others,
}

module _ {A : Type 0} (P Q R : A → Type 0) (f : (x : A) → P x → Q x → R x) where
  All-both : (xs : List A) → All P xs → All Q xs → All R xs
  All-both [] ps qs = tt
  All-both (x ∷ xs) (p, ps) (q, qs) = (f x p q, All-both xs ps qs)

module _ {A : Type 0} (P Q : A → Type 0) (f : (x : A) → P x → Q x) where
  All-map : (xs : List A) → All P xs → All Q xs
  All-map [] ps = tt
  All-map (x ∷ xs) (p, ps) = (f x p, All-map xs ps)

same_handle_sym : (h h' : ContainerHandle) → same_handle h h' ≡ false → same_handle h' h ≡ false
same_handle_sym h h' e = ground (
  arith,
  e,
  str_eq_iff h.node_ip h'.node_ip,
  str_eq_iff h'.node_ip h.node_ip,
  str_eq_iff h.agent_handle h'.agent_handle,
  str_eq_iff h'.agent_handle h.agent_handle,
)

-- A handle that its node knows.
abbrev IsHeld : Servers → ContainerHandle → Type 0
IsHeld servers h = (e : HandleEntry) × IsEntry servers h e

-- `h'` keeps its entry from the servers `s` to the servers `s'`.
abbrev DoesKeep : Servers → Servers → ContainerHandle → Type 0
DoesKeep s s' h =
    lookup_handle h.agent_handle (s' h.node_ip) ≡ lookup_handle h.agent_handle (s h.node_ip)

-- What is reached from `s` is reached from the servers before, and what was reached stays so.
IsReached-from :
    (fleet : Fleet) (target : Time) (freeze : Bool) (s0 s s' : Servers) (h : ContainerHandle)
    → DoesKeep s0 s h
    → IsReached fleet target freeze s s' h
    → IsReached fleet target freeze s0 s' h
IsReached-from fleet target freeze s0 s s' h keeps (e, known, inl shown) =
    (e, sym keeps ∙ known, inl shown)
IsReached-from fleet target freeze s0 s s' h keeps (e, known, inr (kept, refused)) = (
  e,
  sym keeps ∙ known,
  inr (kept ∙ status-same h.agent_handle (s h.node_ip) (s0 h.node_ip) keeps, refused),
)

IsReached-to :
    (fleet : Fleet) (target : Time) (freeze : Bool) (s s' s'' : Servers) (h : ContainerHandle)
    → IsReached fleet target freeze s s' h
    → DoesKeep s' s'' h
    → IsReached fleet target freeze s s'' h
IsReached-to fleet target freeze s s' s'' h (e, known, inl shown) keeps =
    (e, known, inl (status-same h.agent_handle (s'' h.node_ip) (s' h.node_ip) keeps ∙ shown))
IsReached-to fleet target freeze s s' s'' h (e, known, inr (kept, refused)) keeps = (
  e,
  known,
  inr (status-same h.agent_handle (s'' h.node_ip) (s' h.node_ip) keeps ∙ kept, refused),
)

module _ (fleet : Fleet) (target : Time) (freeze : Bool) where
  -- The SetTime call of a handle.
  abbrev call_of : ContainerHandle → Call
  call_of h = set_time_call h.node_ip h.agent_handle target freeze

  send-calls :
      (i : ℕ) (h : ContainerHandle) (st : Sent) (e : HandleEntry)
      → IsEntry (served fleet st.calls) h e
      → (send (agents_of fleet) target freeze i h st).calls ≡ st.calls ++ call_of h ∷ []
  unfolding send agents_of
  send-calls i h st e known =
      elim (pool_set_time-answer fleet st.calls h target freeze (served fleet st.calls) e known) [
        | inl fine ↦ rw (fine, send) refl
        | inr bad ↦ rw (bad, send) refl
      ]

  -- The servers after one round of the loop.
  send-served :
      (i : ℕ) (h : ContainerHandle) (st : Sent) (e : HandleEntry)
      → IsEntry (served fleet st.calls) h e
      → served fleet (send (agents_of fleet) target freeze i h st).calls
        ≡ (pool_set_time fleet st.calls h.node_ip h.agent_handle target freeze
            (served fleet st.calls)).1
  unfolding after_call
  send-served i h st e known =
      ap (served fleet) (send-calls i h st e known) ∙ served-append fleet st.calls (call_of h)

  send-keeps :
      (i : ℕ) (h h' : ContainerHandle) (st : Sent) (e : HandleEntry)
      → IsEntry (served fleet st.calls) h e
      → same_handle h h' ≡ false
      → DoesKeep
          (served fleet st.calls)
          (served fleet (send (agents_of fleet) target freeze i h st).calls)
          h'
  send-keeps i h h' st e known apart =
      ap (λ s. lookup_handle h'.agent_handle (s h'.node_ip)) (send-served i h st e known)
      ∙ pool_set_time-others fleet st.calls h h' target freeze (served fleet st.calls) apart

  send_all-IsReached :
      (i : ℕ) (hs : List ContainerHandle) (st : Sent)
      → All (IsHeld (served fleet st.calls)) hs
      → AreApart hs
      → All
          (IsReached fleet target freeze
            (served fleet st.calls)
            (served fleet (send_all (agents_of fleet) target freeze i hs st).calls))
          hs
        × ((h' : ContainerHandle)
            → All (λ h. same_handle h h' ≡ false) hs
            → DoesKeep
                (served fleet st.calls)
                (served fleet (send_all (agents_of fleet) target freeze i hs st).calls)
                h')
  unfolding send_all
  send_all-IsReached i [] st held apart = (tt, λ h' away. refl)
  send_all-IsReached i (h ∷ hs) st ((e, known), held) (away, apart) =
      let st1 = send (agents_of fleet) target freeze i h st in
      let s = served fleet st.calls in
      let s1 = served fleet st1.calls in
      let first : IsReached fleet target freeze s s1 h =
        rw (send-served i h st e known)
          (pool_set_time-IsReached fleet st.calls h target freeze e known) in
      let held1 : All (IsHeld s1) hs =
        All-both _ _ (IsHeld s1) (λ h' (e', k) far. (e', send-keeps i h h' st e known far ∙ k)) hs
          held away in
      let s2 = served fleet (send_all (agents_of fleet) target freeze (suc i) hs st1).calls in
      let (reached, keeps) = send_all-IsReached (suc i) hs st1 held1 apart in
      (
        (
          IsReached-to fleet target freeze s s1 s2 h first
              (keeps h (All-map _ (λ h'. same_handle h' h ≡ false) (same_handle_sym h) hs away)),
          All-both _ _ _
              (λ h' far r.
                IsReached-from fleet target freeze s s1 s2 h' (send-keeps i h h' st e known far) r)
              hs away reached,
        ),
        λ h' (far, fars). keeps h' fars ∙ send-keeps i h h' st e known far,
      )

  update_timeshift-calls :
      (flush_ok : Bool) (now : Time) (id : String) (s : Timeshift) (c : Controller)
      → lookup id c.timeshifts ≡ some s
      → (update_timeshift (agents_of fleet) flush_ok now id target freeze c).1.calls
        ≡ (send_all
            (agents_of fleet)
            target
            freeze
            0
            s.handles
            (record { updates = []; calls = c.calls; met = c.met })).calls
  unfolding update_timeshift
  update_timeshift-calls flush_ok now id s c there =
      rw (there, update_timeshift) (persist_same flush_ok _).2

  -- An update of a timeshift whose handles their nodes know, no two of them alike, reaches every one of them whose node can be connected
  -- and whose agent does not refuse: after it, the Status of each handle at its node shows the target and the next
  -- generation, with the address and the pid unchanged; or it shows what it showed before, and the node cannot be connected or
  -- its agent, as some calls of the controller left it, answers that SetTime with an error.
  pub update_timeshift-IsReached :
      (flush_ok : Bool) (now : Time) (id : String) (s : Timeshift) (c : Controller)
      → lookup id c.timeshifts ≡ some s
      → All (λ h. (e : HandleEntry) × IsEntry (served fleet c.calls) h e) s.handles
      → AreApart s.handles
      → All
          (IsReached fleet target freeze (served fleet c.calls) (
            served fleet
              (update_timeshift (agents_of fleet) flush_ok now id target freeze c).1.calls))
          s.handles
  update_timeshift-IsReached flush_ok now id s c there held apart =
      rw (update_timeshift-calls flush_ok now id s c there)
        (send_all-IsReached 0 s.handles (record { updates = []; calls = c.calls; met = c.met }) held
          apart).0
