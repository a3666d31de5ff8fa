-- ===== src/Cluster/Connections.antt =====
-- The connections of the Pool of pkg/agentclient/agentclient.go.
use Prim.Native.String.{◌++◌ as str_append}
use epochd.Base.{
  ◌≡◌, String, Bool, false, Option, none, some, List, [], ◌∷◌, if◌then◌else◌, str_eq, some_pass,
  Bool-cases, inl, inr,
}

-- Pool: the addresses that it has a connection to, and the port of the agents.
pub record Pool : Type 0 where
  pub conns : List String
  pub port : String

-- NewPool
unfoldable pub new_pool : String → Pool
new_pool port = record { conns = []; port = port }

-- clientFor: the address of the client, or nothing where no connection can be made; `connects` is what
-- grpc.NewClient says.
unfoldable pub client_for : (String → Bool) → String → Pool → Option String × Pool
client_for connects ip p =
    let addr = str_append ip (str_append ":" p.port) in
    if some_pass (str_eq addr) p.conns
    then (some addr, p)
    else if connects addr
    then (some addr, record p { conns = addr ∷ p.conns })
    else (none, p)

-- Close
unfoldable pub close : Pool → Pool
close p = record p { conns = [] }

-- No address stands twice.
abbrev pub IsSingle : List String → Type 0
IsSingle [] = Unit
IsSingle (a ∷ rest) = (some_pass (str_eq a) rest ≡ false) × IsSingle rest

-- The pool keeps at most one connection to an address.
client_for-IsSingle :
    (connects : String → Bool) (ip : String) (p : Pool)
    → IsSingle p.conns
    → IsSingle (client_for connects ip p).1.conns
unfolding client_for
client_for-IsSingle connects ip p one =
    let addr = str_append ip (str_append ":" p.port) in
    elim (Bool-cases (some_pass (str_eq addr) p.conns)) [
      | inl known ↦ rw (known, client_for) one
      | inr new ↦ elim (Bool-cases (connects addr)) [
        | inl there ↦ rw (new, there, client_for) (new, one)
        | inr away ↦ rw (new, away, client_for) one
      ]
    ]
