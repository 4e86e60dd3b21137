-- ===== src/Client.antt =====
-- pkg/client/client.go: the client library. A connection stands for its address; `Service` is what the
-- calls of a node reply, and how they change what answers them.
use acp_kv.Prelude.{String, inl, inr, none, some, ℤ, ◌⊎◌}
use acp_kv.Failure.{Error, client_failure}
use acp_kv.Proto.{
  GetRequest, GetResponse, HealthRequest, HealthResponse, PutRequest, PutResponse, Reply,
}
use acp_kv.Replication.{Dial}
use acp_kv.Storage.{Bytes}

pub record Service (S : Type 0) : Type 0 where
  pub on_put : PutRequest → S → Reply PutResponse × S
  pub on_get : GetRequest → S → Reply GetResponse × S
  pub on_health : HealthRequest → S → Reply HealthResponse × S

-- NewClient: the address that the connection goes to.
unfoldable pub new_client : Dial → String → Error ⊎ String
new_client dial addr = elim (dial addr) [ some e ↦ inl (client_failure e) | none ↦ inr addr ]

module _ {S : Type 0} (node : Service S) where
  unfoldable pub put : String → Bytes → S → Reply PutResponse × S
  put key value s = node.on_put (record { key = key; value = value }) s

  unfoldable pub get : String → S → Reply GetResponse × S
  get key s = node.on_get (record { key = key }) s

  unfoldable pub health_check : ℤ → String → S → Reply HealthResponse × S
  health_check now source_node_id s =
      node.on_health (record { source_node_id = source_node_id; timestamp = now; hlc = none }) s
