-- ===== src/Controller/Update/Reissued.antt =====
-- The handles that the loop of updateTimeshift and its deferred updates leave (controller.go), against a direct
-- description of what becomes of each handle.
use epochd.Base.{
  Option-cases, inl, inr, ℕ, suc, ◌≡◌, refl, sym, ap, ◌∙◌, String, Bool, none, some, List, [], ◌∷◌,
  ◌++◌, str_eq_iff, arith, length, append_assoc, length-append,
}
use epochd.Clock.{Time}
use epochd.Controller.{ContainerHandle, not_found, other, Call, inject_call, set_time_call, Agents}
use epochd.Controller.Update.{
  Sent, get_elem?, set_agent_handle, apply_update, apply_updates, reinject, send, send_all,
}

get_elem?-prefix :
    (pre hs : List ContainerHandle) (h : ContainerHandle)
    → get_elem? (pre ++ h ∷ hs) (length pre) ≡ some h
unfolding get_elem?
get_elem?-prefix [] hs h = refl
get_elem?-prefix (p ∷ pre) hs h = get_elem?-prefix pre hs h

set_agent_handle-prefix :
    (pre hs : List ContainerHandle) (h : ContainerHandle) (new : String)
    → set_agent_handle (length pre) new (pre ++ h ∷ hs)
      ≡ pre ++ record h { agent_handle = new } ∷ hs
unfolding set_agent_handle
set_agent_handle-prefix [] hs h new = refl
set_agent_handle-prefix (p ∷ pre) hs h new = ap (λ t. p ∷ t) (set_agent_handle-prefix pre hs h new)

apply_updates-append :
    (snap : List ContainerHandle) (us vs : List (ℕ × String)) (hs : List ContainerHandle)
    → apply_updates snap (us ++ vs) hs ≡ apply_updates snap vs (apply_updates snap us hs)
unfolding apply_updates
apply_updates-append snap [] vs hs = refl
apply_updates-append snap (u ∷ us) vs hs = apply_updates-append snap us vs (apply_update snap u hs)

apply_update-prefix :
    (full pre pre' hs : List ContainerHandle) (h : ContainerHandle) (i : ℕ) (new : String)
    → full ≡ pre ++ h ∷ hs
    → length pre ≡ i
    → length pre' ≡ i
    → apply_update full (i, new) (pre' ++ h ∷ hs) ≡ pre' ++ record h { agent_handle = new } ∷ hs
unfolding apply_update
apply_update-prefix full pre pre' hs h i new e at at' = ground (
  arith,
  get_elem?-prefix pre hs h,
  get_elem?-prefix pre' hs h,
  set_agent_handle-prefix pre' hs h new,
  str_eq_iff h.container_id h.container_id,
  e,
  at,
  at',
)

module _ (agents : Agents) (target : Time) (freeze : Bool) where
  -- A handle after the update, given the calls made before: the handle that the agent gave when it
  -- no longer knew the old one and the container was injected again, else the old one.
  abbrev reissued : List Call → ContainerHandle → ContainerHandle
  reissued calls h = elim (agents.set_time calls h.node_ip h.agent_handle target freeze) [
    | none ↦ h
    | some other ↦ h
    | some not_found ↦
        elim (agents.inject (calls ++ set_time_call h.node_ip h.agent_handle target freeze ∷ [])
          h.node_ip h.container_id target freeze) [
            | none ↦ h
            | some new ↦ record h { agent_handle = new }
          ]
  ]

  -- The calls made once a handle's turn is over.
  abbrev calls_after : List Call → ContainerHandle → List Call
  calls_after calls h =
      let tried = calls ++ set_time_call h.node_ip h.agent_handle target freeze ∷ [] in
      elim (agents.set_time calls h.node_ip h.agent_handle target freeze) [
        | some not_found ↦ tried ++ inject_call h.node_ip h.container_id target freeze ∷ []
        | _ ↦ tried
      ]

  abbrev pub reissued_all : List Call → List ContainerHandle → List ContainerHandle
  reissued_all calls [] = []
  reissued_all calls (h ∷ hs) = reissued calls h ∷ reissued_all (calls_after calls h) hs

  send-calls :
      (i : ℕ) (h : ContainerHandle) (st : Sent)
      → (send agents target freeze i h st).calls ≡ calls_after st.calls h
  unfolding send reinject
  send-calls i h st = ground arith

  module _ (full pre pre' hs : List ContainerHandle) (h : ContainerHandle) (i : ℕ) (st : Sent)
      (e : full ≡ pre ++ h ∷ hs) (at : length pre ≡ i) (at' : length pre' ≡ i)
      (before : apply_updates full st.updates full ≡ pre' ++ h ∷ hs) where
    added :
        (new : String)
        → apply_updates full (st.updates ++ (i, new) ∷ []) full
          ≡ pre' ++ record h { agent_handle = new } ∷ hs
    unfolding apply_updates
    added new =
        rw (apply_updates-append full st.updates ((i, new) ∷ []) full, before)
          (apply_update-prefix full pre pre' hs h i new e at at')

    send-updates :
        apply_updates full (send agents target freeze i h st).updates full
        ≡ pre' ++ reissued st.calls h ∷ hs
    unfolding send reinject
    send-updates =
        elim (Option-cases (
          agents.inject (st.calls ++ set_time_call h.node_ip h.agent_handle target freeze ∷ [])
            h.node_ip h.container_id target freeze)) [
              | inl failed ↦ ground (arith, failed, before)
              | inr (new, given) ↦ ground (arith, given, before, added new)
            ]

  send_all-updates :
      (full pre pre' hs : List ContainerHandle) (i : ℕ) (st : Sent)
      → full ≡ pre ++ hs
      → length pre ≡ i
      → length pre' ≡ i
      → apply_updates full st.updates full ≡ pre' ++ hs
      → apply_updates full (send_all agents target freeze i hs st).updates full
        ≡ pre' ++ reissued_all st.calls hs
  unfolding send_all
  send_all-updates full pre pre' [] i st e at at' before = before
  send_all-updates full pre pre' (h ∷ hs) i st e at at' before =
      rw
        (
          sym (send-calls i h st),
          sym (
              append_assoc pre' (reissued st.calls h ∷ [])
                (reissued_all (send agents target freeze i h st).calls hs)),
        )
        (send_all-updates full (pre ++ h ∷ []) (pre' ++ reissued st.calls h ∷ []) hs (suc i)
          (send agents target freeze i h st) (e ∙ sym (append_assoc pre (h ∷ []) hs))
          (omega (arith, length-append pre (h ∷ [])))
          (omega (arith, length-append pre' (reissued st.calls h ∷ [])))
          (send-updates full pre pre' hs h i st e at at' before
            ∙ sym (append_assoc pre' (reissued st.calls h ∷ []) hs)))

  -- The handles after the loop, started without updates, and its deferred updates by index are
  -- those of the direct description, when nothing else changes the timeshift in between.
  pub apply_updates-send_all :
      (hs : List ContainerHandle) (st : Sent)
      → st.updates ≡ []
      → apply_updates hs (send_all agents target freeze 0 hs st).updates hs
        ≡ reissued_all st.calls hs
  unfolding apply_updates
  apply_updates-send_all hs st e = send_all-updates hs [] [] hs 0 st refl refl refl (rw e refl)
