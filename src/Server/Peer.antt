-- ===== src/Server/Peer.antt =====
-- What a node does for its peers: `Replicate` (internal/server/server.go).
use acp_kv.Storage
use acp_kv.Prelude.{String, if◌then◌else◌, refl, some, str_eq, true, ◌∙◌, ◌≡◌}
use acp_kv.Hlc.{from_proto}
use acp_kv.Hlc.Order.{Before}
use acp_kv.Prelude.Map.{str_eq_refl}
use acp_kv.Proto.{ReplicateRequest}
use acp_kv.Server.{Server, World, accept}
use acp_kv.Storage.{VersionedValue, stamped}
use acp_kv.Storage.Laws.{get-put_with_hlc}

-- `Replicate` always reports success and stores the write of the request under the request's
-- timestamp, whatever the clock said to that timestamp. Every other key keeps what it held.
pub get-accept :
    (x : World) (req : ReplicateRequest) (s : Server) (j : String)
    → ((accept x req s).0.success ≡ true)
      × (Storage.get j (accept x req s).1.store ≡ (
          if str_eq req.key j
          then some (stamped x.second req.value req.source_node_id (from_proto req.hlc))
          else Storage.get j s.store))
unfolding accept
get-accept x req s j = (
  refl,
  get-put_with_hlc x.second req.key j req.value req.source_node_id (from_proto req.hlc) s.store,
)

-- `Replicate` does not compare timestamps: a request that arrives late replaces a value with a later
-- timestamp, and the store goes back.
pub accept_goes_back :
    (x : World) (req : ReplicateRequest) (s : Server) (v : VersionedValue)
    → Storage.get req.key s.store ≡ some v
    → Before (from_proto req.hlc) v.hlc
    → (v' : VersionedValue) × (Storage.get req.key (accept x req s).1.store ≡ some v')
      × Before v'.hlc v.hlc
accept_goes_back x req s v found older = (
  stamped x.second req.value req.source_node_id (from_proto req.hlc),
  (get-accept x req s req.key).1 ∙ rw (str_eq_refl req.key),
  unfold stamped in older,
)
