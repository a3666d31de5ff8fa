-- ===== src/Controller/Store.antt =====
-- cmd/controller/store.go, and restore of controller.go: the registry in a ConfigMap. encoding/json and the
-- Kubernetes API are parameters.
pub mod Restart
use epochd.Base.{
  ℕ, String, Bool, true, false, Option, none, some, List, [], ◌∷◌, map, if◌then◌else◌, length,
}
use epochd.Base.Int.{ℤ, pos}
use epochd.Clock.{Time, Duration}
use epochd.Controller.{ContainerHandle, Timeshift, Timeshifts, Metrics, Controller}
use epochd.Controller.Registry.{lookup, insert}

pub record StoredHandle : Type 0 where
  pub pod : String
  pub container : String
  pub node_ip : String
  pub container_id : String
  pub agent_handle : String

pub record StoredTimeshift : Type 0 where
  pub id : String
  pub namespace : String
  pub label_selector : String
  pub offset : ℤ
  pub frozen_at : Time
  pub frozen : Bool
  pub ttl : Duration
  pub expires_at : Time
  pub created_at : Time
  pub handles : List StoredHandle

-- json.Marshal and json.Unmarshal at the stored form; text is a list of bytes.
pub record Json : Type 0 where
  pub marshal : List StoredTimeshift → Option (List ℕ)
  pub unmarshal : List ℕ → Option (List StoredTimeshift)

-- The ConfigMap epochd-state, if it exists, as its Data.
abbrev pub ConfigMap : Type 0
ConfigMap = Option (List (String × List ℕ))

-- Which requests of the Kubernetes API fail, apart from a Get of what is not there.
pub record Api : Type 0 where
  pub get_fails : Bool
  pub create_fails : Bool
  pub update_fails : Bool

unfoldable pub store_handle : ContainerHandle → StoredHandle
store_handle h = record {
  pod = h.pod;
  container = h.container;
  node_ip = h.node_ip;
  container_id = h.container_id;
  agent_handle = h.agent_handle;
}

unfoldable pub store_timeshift : Timeshift → StoredTimeshift
unfolding store_handle
store_timeshift s = record {
  id = s.id;
  namespace = s.namespace;
  label_selector = s.label_selector;
  offset = s.offset;
  frozen_at = s.frozen_at;
  frozen = s.frozen;
  ttl = s.ttl;
  expires_at = s.expires_at;
  created_at = s.created_at;
  handles = map store_handle s.handles;
}

unfoldable pub load_handle : StoredHandle → ContainerHandle
load_handle h = record {
  pod = h.pod;
  container = h.container;
  node_ip = h.node_ip;
  container_id = h.container_id;
  agent_handle = h.agent_handle;
}

unfoldable pub load_timeshift : StoredTimeshift → Timeshift
unfolding load_handle
load_timeshift s = record {
  id = s.id;
  namespace = s.namespace;
  label_selector = s.label_selector;
  offset = s.offset;
  frozen_at = s.frozen_at;
  frozen = s.frozen;
  ttl = s.ttl;
  expires_at = s.expires_at;
  created_at = s.created_at;
  handles = map load_handle s.handles;
}

-- encode, for the entries of the map in the order in which the loop meets them.
unfoldable pub encode : Json → Timeshifts → Option (List ℕ)
unfolding store_timeshift
encode json entries = json.marshal (map (λ e. store_timeshift e.1) entries)

-- flush: the ConfigMap behind it, or its error.
unfoldable pub flush : Api → List ℕ → ConfigMap → Option ConfigMap
flush api bytes cm =
    let written : Option ConfigMap = some (some (("state", bytes) ∷ [])) in
    if api.get_fails then none else elim cm [
      | none ↦ if api.create_fails then none else written
      | some _ ↦ if api.update_fails then none else written
    ]

-- The loop of load over the stored timeshifts.
unfoldable pub load_all : List StoredTimeshift → Timeshifts → Timeshifts
unfolding load_timeshift
load_all [] m = m
load_all (st ∷ sts) m = load_all sts (insert st.id (load_timeshift st) m)

abbrev decoded : Option (List StoredTimeshift) → Option Timeshifts
decoded none = none
decoded (some sts) = some (load_all sts [])

abbrev read_state : Json → Option (List ℕ) → Option Timeshifts
read_state json none = some []
read_state json (some []) = some []
read_state json (some (b ∷ bs)) = decoded (json.unmarshal (b ∷ bs))

abbrev read_map : Json → ConfigMap → Option Timeshifts
read_map json none = some []
read_map json (some fields) = read_state json (lookup "state" fields)

-- load; `none` is its error.
unfoldable pub load : Json → Api → ConfigMap → Option Timeshifts
unfolding load_all
load json api cm = if api.get_fails then none else read_map json cm

abbrev adopt_loaded : Controller → Option Timeshifts → Controller
adopt_loaded c none = c
adopt_loaded c (some []) = c
adopt_loaded c (some (e ∷ es)) = record c {
  timeshifts = e ∷ es;
  met = record c.met { active = pos (length (e ∷ es)) };
}

-- restore
unfoldable pub restore : Json → Api → ConfigMap → Controller → Controller
unfolding load
restore json api cm c =
    let restored = adopt_loaded c (load json api cm) in if c.has_store then restored else c
