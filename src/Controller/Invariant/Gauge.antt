-- ===== src/Controller/Invariant/Gauge.antt =====
-- The gauge of active timeshifts in the loops of cmd/controller/controller.go over containers and handles.
use epochd.Base.{ℕ, suc, ◌≡◌, refl, ◌∙◌, Bool, List, [], ◌∷◌, arith}
use epochd.Clock.{Time}
use epochd.Controller.{ContainerHandle, ContainerStatus, Pod, Agents}
use epochd.Controller.Create.{
  inject_container, inject_containers, inject_pod, inject_pods, Progress,
}
use epochd.Controller.Update.{Sent, reinject, send, send_all}

pub inject_container-active :
    (agents : Agents) (pod : Pod) (target : Time) (freeze : Bool) (cs : ContainerStatus)
    (p : Progress)
    → (inject_container agents pod target freeze cs p).met.active ≡ p.met.active
unfolding inject_container
inject_container-active agents pod target freeze cs p = ground arith

pub inject_containers-active :
    (agents : Agents) (pod : Pod) (target : Time) (freeze : Bool) (css : List ContainerStatus)
    (p : Progress)
    → (inject_containers agents pod target freeze css p).met.active ≡ p.met.active
unfolding inject_containers
inject_containers-active agents pod target freeze [] p = refl
inject_containers-active agents pod target freeze (cs ∷ css) p =
    inject_containers-active agents pod target freeze css _
    ∙ inject_container-active agents pod target freeze cs p

pub inject_pods-active :
    (agents : Agents) (pods : List Pod) (target : Time) (freeze : Bool) (p : Progress)
    → (inject_pods agents pods target freeze p).met.active ≡ p.met.active
unfolding inject_pods inject_pod
inject_pods-active agents [] target freeze p = refl
inject_pods-active agents (pod ∷ pods) target freeze p =
    inject_pods-active agents pods target freeze _
    ∙ inject_containers-active agents pod target freeze pod.statuses p

pub send-active :
    (agents : Agents) (target : Time) (freeze : Bool) (i : ℕ) (h : ContainerHandle) (st : Sent)
    → (send agents target freeze i h st).met.active ≡ st.met.active
unfolding send reinject
send-active agents target freeze i h st = ground arith

pub send_all-active :
    (agents : Agents) (target : Time) (freeze : Bool) (i : ℕ) (hs : List ContainerHandle)
    (st : Sent)
    → (send_all agents target freeze i hs st).met.active ≡ st.met.active
unfolding send_all
send_all-active agents target freeze i [] st = refl
send_all-active agents target freeze i (h ∷ hs) st =
    send_all-active agents target freeze (suc i) hs _ ∙ send-active agents target freeze i h st
