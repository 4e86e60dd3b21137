-- ===== src/Bench/Pool.antt =====
-- benchmark/adaptive/client_pool.go: the connections of the load generator, used in turn. A connection
-- stands for its endpoint; what a call replies is an argument.
use acp_kv.Prelude.{
  List, Option, String, [], get_elem?, if◌then◌else◌, inl, inr, length, none, some, str_eq, ℕ, ℤ,
  ◌%◌, ◌+◌, ◌++◌, ◌==◌, ◌^◌, ◌∷◌, ◌⊎◌,
}
use acp_kv.Failure.{Error, connect_failure, no_clients, no_endpoints, unhealthy_client}
use acp_kv.Proto.{GetResponse, PutResponse, Reply, answered, failed}
use acp_kv.Replication.{Dial}
use acp_kv.Storage.{Bytes}

-- `index` is a uint32.
pub record ClientPool : Type 0 where
  pub clients : List String
  pub index : ℕ

-- The loop of `NewClientPool`, with the connections opened so far.
unfoldable pub open_all : Dial → List String → List String → Error ⊎ ClientPool
open_all dial opened [] = inr (record { clients = opened; index = 0 })
open_all dial opened (endpoint ∷ endpoints) =
    let rest = open_all dial (opened ++ endpoint ∷ []) endpoints in
    elim (dial endpoint) [ some e ↦ inl (connect_failure endpoint e) | none ↦ rest ]

unfoldable pub new_client_pool : Dial → List String → Error ⊎ ClientPool
unfolding open_all
new_client_pool dial [] = inl no_endpoints
new_client_pool dial (endpoint ∷ endpoints) = open_all dial [] (endpoint ∷ endpoints)

-- ClientPool.Get: the connection at `index.Add(1) % uint32(len(p.clients))`; `none` where there is none.
unfoldable pub next_client : ClientPool → Option String × ClientPool
next_client p =
    if length p.clients == 0
    then (none, p)
    else (let index = (p.index + 1) % 2 ^ 32 in
        (get_elem? p.clients (index % length p.clients), record p { index = index }))

-- The loop of `HealthCheck` from the i-th client on; `text` is what `Error` prints.
unfoldable pub check_clients :
    (Error → String) → (String → Reply GetResponse) → ℕ → List String → Option Error
check_clients text call i [] = none
check_clients text call i (client ∷ clients) =
    let rest = check_clients text call (i + 1) clients in
    elim (call client) [
      | answered resp ↦ rest
      | failed e ↦
          if str_eq (text e) "rpc error: code = Unknown desc = key not found"
          then rest
          else some (unhealthy_client i e)
    ]

unfoldable pub pool_health :
    (Error → String) → (String → Reply GetResponse) → ClientPool → Option Error
unfolding check_clients
pool_health text call p =
    if length p.clients == 0 then some no_clients else check_clients text call 0 p.clients

-- ClientPool.Close
unfoldable pub close_pool : ClientPool → ClientPool
close_pool p = record p { clients = [] }

-- grpcClient.Get and grpcClient.Put, from the reply.
unfoldable pub grpc_get : Reply GetResponse → Error ⊎ Bytes
grpc_get (failed e) = inl e
grpc_get (answered resp) = inr resp.value

unfoldable pub grpc_put : Reply PutResponse → Error ⊎ ℤ
grpc_put (failed e) = inl e
grpc_put (answered resp) = inr resp.version
