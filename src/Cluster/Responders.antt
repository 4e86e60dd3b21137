-- ===== src/Cluster/Responders.antt =====
-- The nodes that answer a quorum read (`Get` and `GetLocal` of internal/server/server.go).
use acp_kv.Storage
use acp_kv.Prelude.{
  Bool-cases, List, String, [], arith, false, inl, inr, refl, some, str_eq, str_eq_iff, true, ◌∷◌,
  ◌≡◌, subst, sym, Bool, ◌||◌, suc, ◌≤◌,
}
use acp_kv.Cluster.{Network, Fate, lost, served, unanswered, on_get_local}
use acp_kv.Cluster.Values.{
  IsLatest-IsOneOf, IsOneOf-collect_values, IsOneOf-local, IsOneOf-with_local,
}
use acp_kv.Hlc.{happens_before, from_proto, to_proto}
use acp_kv.Prelude.Map.{str_eq_refl}
use acp_kv.Proto.{GetRequest, GetResponse, answered, failed}
use acp_kv.Replication.{ReplicaValue, collect_values, contains, query_replicas, replica_of}
use acp_kv.Replication.Counting.{has_key, count_peers}
use acp_kv.Replication.Recent.{IsLatest, IsOneOf}
use acp_kv.Server.{local_replica, with_local, World, Server, get_local, get_r}
use acp_kv.Server.Read.{candidates, local_value}
use acp_kv.Storage.{VersionedValue, stamped}

-- What the `Get` at a reader meets.
abbrev pub read_world : Network → World → List String → World
read_world net y peers = record y { arrivals = peers; on_get_local = on_get_local net }

abbrev pub get_request : String → GetRequest
get_request key = record { key = key }

-- The reader, and the peers that answer with the key.
abbrev pub responds : Network → String → List String → String → String → Bool
responds net reader peers key a = str_eq a reader || has_key (on_get_local net (get_request key) a)

pub responders-le-count :
    (net : Network) (reader : String) (peers : List String) (key : String)
    → suc (count_peers (λ a. has_key (on_get_local net (get_request key) a)) peers)
      ≤ count_peers (responds net reader peers key) (reader ∷ peers)
responders-le-count net reader peers key = ground (arith, str_eq_refl reader, le_of_implies peers)
  where
    le_of_implies :
        (xs : List String)
        → count_peers (λ a. has_key (on_get_local net (get_request key) a)) xs
          ≤ count_peers (responds net reader peers key) xs
    le_of_implies [] = omega arith
    le_of_implies (z ∷ xs) = ground (arith, le_of_implies xs)

-- A peer that answers with the key answers with the value in its store.
on_get_local-found :
    (net : Network) (key : String) (a : String) (v : VersionedValue)
    → Storage.get key (net.nodes a).store ≡ some v
    → has_key (on_get_local net (get_request key) a) ≡ true
    → (resp : GetResponse) × (on_get_local net (get_request key) a ≡ answered resp)
      × (resp.found ≡ true)
      × (resp.hlc ≡ some v.hlc)
unfolding on_get_local
on_get_local-found net key a v found h = go (net.fates a) refl
  where
    failed_absurd : on_get_local net (get_request key) a ≡ failed net.timed_out → ⊥
    failed_absurd e = cc (rw e at h)

    go :
        (f : Fate)
        → net.fates a ≡ f
        → (resp : GetResponse) × (on_get_local net (get_request key) a ≡ answered resp)
          × (resp.found ≡ true)
          × (resp.hlc ≡ some v.hlc)
    go served e = (
      get_local (net.worlds a).first (get_request key) (net.nodes a),
      rw (e, on_get_local) refl,
      unfold get_local in rw (found, get_local) refl,
      unfold get_local to_proto in rw (found, get_local) refl,
    )
    go unanswered e = absurd (failed_absurd (rw (e, on_get_local) refl))
    go lost e = absurd (failed_absurd (rw (e, on_get_local) refl))

-- A latest candidate of a reader that has the write, or hears of it, is not before the write.
pub candidate-written :
    (net : Network) (y : World) (reader : String) (peers : List String) (key : String) (a : String)
    (v : VersionedValue) (r : ReplicaValue)
    → let s = net.nodes reader in
      let world = read_world net y peers in
      Storage.get key (net.nodes a).store ≡ some v
      → contains a (reader ∷ peers) ≡ true
      → responds net reader peers key a ≡ true
      → (query_replicas world.on_get_local world.arrivals key
          (get_r s.quorum_provider)
          s.coordinator
          s.metrics).0
        ≡ (collect_values (on_get_local net (get_request key)) peers s.metrics).0
      → IsLatest r (candidates world (get_request key) s)
      → happens_before r.hlc v.hlc ≡ false
unfolding contains
candidate-written net y reader peers key a v r found c answers values latest =
    elim (Bool-cases (str_eq a reader)) [
      | inl self ↦
          let here : local_value (get_request key) s ≡ some v =
            subst (λ n. Storage.get key (net.nodes n).store ≡ some v) ((str_eq_iff a reader).0 self)
              found in
          IsLatest-IsOneOf r (local_replica v) (candidates world (get_request key) s) latest (
            subst (λ o. IsOneOf (local_replica v) (with_local o queried)) (sym here)
              (IsOneOf-local v queried))
      | inr other ↦
          let (resp, call, f, h) = on_get_local-found net key a v found (ground arith) in
          let one : IsOneOf (replica_of a resp) queried =
            subst (IsOneOf (replica_of a resp)) (sym values) (
              IsOneOf-collect_values (on_get_local net (get_request key)) a peers s.metrics resp
                call f (ground (arith, str_eq_iff a reader, str_eq_iff reader a))) in
          let hlc_same : from_proto resp.hlc ≡ v.hlc = unfold from_proto in rw h in
          rw (← hlc_same) (
            IsLatest-IsOneOf r (replica_of a resp) (candidates world (get_request key) s) latest (
              IsOneOf-with_local (replica_of a resp) (local_value (get_request key) s) queried one))
    ]
  where
    s : Server
    s = net.nodes reader

    world : World
    world = read_world net y peers

    queried : List ReplicaValue
    queried =
        (query_replicas world.on_get_local world.arrivals key (get_r s.quorum_provider)
          s.coordinator s.metrics).0
