-- ===== src/Cluster/Values.antt =====
-- The values that a quorum read compares (internal/replication/coordinator.go and
-- internal/server/server.go).
use acp_kv.Prelude.{
  Bool-cases, List, Option, String, [], arith, false, inl, inr, none, pos, refl, some, str_eq,
  str_eq_iff, true, ℤ, ◌++◌, ◌∷◌, ◌≡◌, ◌≤ℤ◌, ◌⊎◌, subst, sym, ◌+◌,
}
use acp_kv.Hlc.{happens_after, happens_before}
use acp_kv.Metrics.{Metrics}
use acp_kv.Proto.{GetRequest, GetResponse, Reply, answered, failed}
use acp_kv.Replication.{
  Coordinator, ReplicaValue, collect_values, contains, query_replicas, replica_of,
}
use acp_kv.Replication.Counting.{responders, has_key, query_replicas_lem}
use acp_kv.Replication.Recent.{IsLatest, IsOneOf}
use acp_kv.Server.{local_replica, with_local}
use acp_kv.Storage.{VersionedValue}

pub IsLatest-IsOneOf :
    (r y : ReplicaValue) (xs : List ReplicaValue)
    → IsLatest r xs
    → IsOneOf y xs
    → happens_before r.hlc y.hlc ≡ false
unfolding happens_after
IsLatest-IsOneOf r y [] l h = absurd h
IsLatest-IsOneOf r y (x ∷ xs) l (inl e) = rw e l.0
IsLatest-IsOneOf r y (x ∷ xs) l (inr h) = IsLatest-IsOneOf r y xs l.1 h

IsOneOf-append :
    (y : ReplicaValue) (xs ys : List ReplicaValue)
    → IsOneOf y xs ⊎ IsOneOf y ys
    → IsOneOf y (xs ++ ys)
IsOneOf-append y [] ys (inl h) = absurd h
IsOneOf-append y [] ys (inr h) = h
IsOneOf-append y (x ∷ xs) ys (inl (inl e)) = inl e
IsOneOf-append y (x ∷ xs) ys (inl (inr h)) = inr (IsOneOf-append y xs ys (inl h))
IsOneOf-append y (x ∷ xs) ys (inr h) = inr (IsOneOf-append y xs ys (inr h))

-- The local value, and that of each peer that answers with one, are compared.
pub IsOneOf-local :
    (v : VersionedValue) (xs : List ReplicaValue)
    → IsOneOf (local_replica v) (with_local (some v) xs)
unfolding with_local
IsOneOf-local v xs = IsOneOf-append (local_replica v) xs (local_replica v ∷ []) (inr (inl refl))

pub IsOneOf-with_local :
    (y : ReplicaValue) (o : Option VersionedValue) (xs : List ReplicaValue)
    → IsOneOf y xs
    → IsOneOf y (with_local o xs)
unfolding with_local
IsOneOf-with_local y none xs h = h
IsOneOf-with_local y (some v) xs h = IsOneOf-append y xs (local_replica v ∷ []) (inl h)

-- What the first peer adds to the values.
collect_values-cases :
    (call : String → Reply GetResponse) (addr : String) (addrs : List String) (m : Metrics)
    → ((n : Metrics) × ((collect_values call (addr ∷ addrs) m).0 ≡ (collect_values call addrs n).0)
        × (has_key (call addr) ≡ false))
      ⊎ ((resp : GetResponse) × (call addr ≡ answered resp)
          × ((collect_values call (addr ∷ addrs) m).0
              ≡ replica_of addr resp ∷ (collect_values call addrs m).0))
unfolding collect_values
collect_values-cases call addr addrs m = go (call addr) refl
  where
    go :
        (r : Reply GetResponse)
        → call addr ≡ r
        → ((n : Metrics) × ((collect_values call (addr ∷ addrs) m).0
              ≡ (collect_values call addrs n).0)
            × (has_key (call addr) ≡ false))
          ⊎ ((resp : GetResponse) × (call addr ≡ answered resp)
              × ((collect_values call (addr ∷ addrs) m).0
                  ≡ replica_of addr resp ∷ (collect_values call addrs m).0))
    go (failed e) h =
        inl (record m { errors_rpc = m.errors_rpc + 1 }, rw (h, collect_values) refl, rw h refl)
    go (answered resp) h = elim (Bool-cases resp.found) [
      | inl found ↦ inr (resp, h, rw (h, collect_values) (ground arith))
      | inr absent ↦ inl (m, rw (h, collect_values) (ground arith), rw h absent)
    ]

pub IsOneOf-collect_values :
    (call : String → Reply GetResponse) (a : String) (addrs : List String) (m : Metrics)
    (resp : GetResponse)
    → call a ≡ answered resp
    → resp.found ≡ true
    → contains a addrs ≡ true
    → IsOneOf (replica_of a resp) (collect_values call addrs m).0
unfolding contains
IsOneOf-collect_values call a [] m resp e f h = cc
IsOneOf-collect_values call a (x ∷ xs) m resp e f h = elim (collect_values-cases call x xs m) [
  | inl (n, skip, absent) ↦
      subst (IsOneOf (replica_of a resp)) (sym skip)
        (IsOneOf-collect_values call a xs n resp e f (ground (arith, str_eq_iff x a)))
  | inr (resp', e', first) ↦
      subst (IsOneOf (replica_of a resp)) (sym first) (elim (Bool-cases (str_eq x a)) [
        | inl same ↦ inl (ground (arith, str_eq_iff x a))
        | inr other ↦ inr (IsOneOf-collect_values call a xs m resp e f (ground arith))
      ])
]

pub query_replicas-values :
    (call : GetRequest → String → Reply GetResponse) (arrivals : List String) (key : String)
    (required : ℤ) (c : Coordinator) (m : Metrics)
    → pos 2 ≤ℤ required
    → (query_replicas call arrivals key required c m).1 ≡ none
    → ((query_replicas call arrivals key required c m).0
        ≡ (collect_values (call (record { key = key })) arrivals m).0)
      × (required ≤ℤ pos (responders call arrivals key required c m))
unfolding query_replicas
query_replicas-values call arrivals key required c m two ok =
    (ground arith, ground (arith, query_replicas_lem call arrivals key required c m))
