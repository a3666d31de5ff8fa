-- ===== src/Controller/Handlers/Status.antt =====
-- handleTimeshiftStatus and handleResolve of cmd/controller/handlers.go.
use epochd.Base.{
  String, Option, none, some, List, [], ◌∷◌, map, ◌⊎◌, inl, inr, if◌then◌else◌, str_eq,
}
use epochd.Api.{
  ResolvedPod, HandleStatus, ContainerStatusEntry, Response, status_body, resolve_body,
}
use epochd.Controller.{ContainerHandle, ContainerStatus, Pod, Controller, ok, err}
use epochd.Controller.Handlers.{Formats, failure, error_code, get_timeshift}

-- One entry of handleTimeshiftStatus; `get_status` is what the agent's GetStatus answers: a status, or
-- an error by its text.
unfoldable pub status_entry :
    (String → String → HandleStatus ⊎ String) → ContainerHandle → ContainerStatusEntry
status_entry get_status h =
    let entry : Option HandleStatus → String → ContainerStatusEntry = λ status text. record {
      pod = h.pod;
      container = h.container;
      node_ip = h.node_ip;
      status = status;
      error = text;
    } in
    elim (get_status h.node_ip h.agent_handle) [
      | inl hs ↦ entry (some hs) ""
      | inr text ↦ entry none text
    ]

-- handleTimeshiftStatus
unfoldable pub handle_timeshift_status :
    (String → String → HandleStatus ⊎ String) → String → Controller → Response
unfolding status_entry get_timeshift error_code
handle_timeshift_status get_status id c = elim (get_timeshift id c) [
  | err e ↦ failure (error_code e)
  | ok s ↦ record {
    code = 200;
    body = status_body (record {
      id = s.id;
      namespace = s.namespace;
      containers = map (status_entry get_status) s.handles;
    });
  }
]

-- The names of the running containers of a pod.
unfoldable pub running_containers : List ContainerStatus → List String
running_containers [] = []
running_containers (cs ∷ css) =
    let rest = running_containers css in if cs.running then cs.name ∷ rest else rest

-- The loop of handleResolve over the pods.
unfoldable pub resolve_pods : Formats → List Pod → List ResolvedPod
unfolding running_containers
resolve_pods f [] = []
resolve_pods f (pod ∷ pods) =
    let rest = resolve_pods f pods in
    elim (running_containers pod.statuses) [
      | [] ↦ rest
      | c ∷ cs ↦
          record {
            name = pod.name;
            namespace = pod.namespace;
            node_ip = pod.host_ip;
            containers = f.sort_strings (c ∷ cs);
          }
          ∷ rest
    ]

-- handleResolve
unfoldable pub handle_resolve : Formats → Option (List Pod) → String → String → Response
unfolding resolve_pods
handle_resolve f listed ns sel =
    if str_eq ns ""
    then failure 400
    else (if str_eq sel "" then failure 400 else elim listed [
      | none ↦ failure 500
      | some pods ↦ record {
        code = 200;
        body = resolve_body (f.sort_pods (λ p q. f.less p.name q.name) (resolve_pods f pods));
      }
    ])
