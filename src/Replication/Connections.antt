-- ===== src/Replication/Connections.antt =====
-- internal/replication/coordinator.go: the peers that a node is connected to. A connection is closed
-- without effect on the model.
use Prim.Native.String.{◌++◌ as str_append}
use acp_kv.Prelude.{
  ◌≡◌, Bool, List, Option, String, [], false, if◌then◌else◌, is_some, none, some, str_eq, ℤ, ◌||◌,
  ◌∷◌,
}
use acp_kv.Failure.{Error}
use acp_kv.Prelude.Map.{Map, lookup, insert, remove, keys}

-- A gRPC client or connection stands for its target address.
pub record Coordinator : Type 0 where
  pub node_id : String
  pub peers : Map String
  pub conns : Map String
  pub configured_peers : List String
  pub timeout : ℤ

-- grpc.NewClient of a target: its error, if any.
abbrev pub Dial : Type 0
Dial = String → Option Error

-- "dns:///" + addr
abbrev pub target : String → String
target addr = str_append "dns:///" addr

-- Coordinator.addPeer
unfoldable pub add_peer : Dial → String → Coordinator → Option Error × Coordinator
add_peer dial addr c = elim (lookup addr c.peers) [
  | some _ ↦ (none, c)
  | none ↦ elim (dial (target addr)) [
    | some e ↦ (some e, c)
    | none ↦ (
      none,
      record c {
        peers = insert addr (target addr) c.peers;
        conns = insert addr (target addr) c.conns;
      },
    )
  ]
]

-- Coordinator.removePeer
unfoldable pub remove_peer : String → Coordinator → Coordinator
remove_peer addr c = elim (lookup addr c.conns) [
  | none ↦ c
  | some _ ↦ record c { peers = remove addr c.peers; conns = remove addr c.conns }
]

-- The loop of `NewCoordinator`: a failed connection is logged.
unfoldable pub add_peers : Dial → List String → Coordinator → Coordinator
add_peers dial [] c = c
add_peers dial (addr ∷ addrs) c = add_peers dial addrs (add_peer dial addr c).1

unfoldable pub new_coordinator : Dial → String → List String → ℤ → Coordinator
unfolding add_peers
new_coordinator dial node_id peer_addrs timeout = add_peers dial peer_addrs (record {
  node_id = node_id;
  peers = [];
  conns = [];
  configured_peers = peer_addrs;
  timeout = timeout;
})

unfoldable pub contains : String → List String → Bool
contains addr [] = false
contains addr (x ∷ xs) = str_eq x addr || contains addr xs

-- No text is listed twice.
abbrev pub IsDuplicateFree : List String → Type 0
IsDuplicateFree [] = Unit
IsDuplicateFree (a ∷ peers) = (contains a peers ≡ false) × IsDuplicateFree peers

-- "remove peers that no longer exist", over a list of the current ones
unfoldable pub remove_absent : List String → List String → Coordinator → Coordinator
remove_absent new_addrs [] c = c
remove_absent new_addrs (addr ∷ addrs) c =
    remove_absent new_addrs addrs (if contains addr new_addrs then c else remove_peer addr c)

-- "add new peers"; an address that is listed again is found connected.
unfoldable pub add_missing : Dial → List String → Coordinator → Coordinator
add_missing dial [] c = c
add_missing dial (addr ∷ addrs) c =
    add_missing dial addrs (if is_some (lookup addr c.peers) then c else (add_peer dial addr c).1)

-- Coordinator.reconcilePeers
unfoldable pub reconcile_peers : Dial → List String → Coordinator → Coordinator
unfolding remove_absent add_missing
reconcile_peers dial new_peer_addrs c =
    add_missing dial new_peer_addrs (remove_absent new_peer_addrs (keys c.peers) c)

unfoldable pub get_peer_addresses : Coordinator → List String
get_peer_addresses c = c.configured_peers

unfoldable pub get_connected_peer_addresses : Coordinator → List String
get_connected_peer_addresses c = keys c.peers
