-- ===== src/Server/Read/Quorum.antt =====
-- What a quorum read answers (`Get` of internal/server/server.go).
use acp_kv.Prelude.{
  List, Option, arith, false, is_some, none, pos, refl, some, true, ℤ, ◌≡◌, ◌≤ℤ◌, ◌⊎◌, String, [],
  inl, inr, Option-cases, ap, length, length-append, sym, ◌<◌, ◌∙◌, ◌∷◌, ◌≤◌,
}
use acp_kv.Failure.{Error}
use acp_kv.Metrics.{Metrics}
use acp_kv.Proto.{GetRequest, GetResponse}
use acp_kv.Replication.{ReplicaValue, query_replicas, get_most_recent}
use acp_kv.Replication.Counting.{query_replicas_lem}
use acp_kv.Replication.Recent.{IsLatest, IsOneOf, get_most_recent_lem}
use acp_kv.Server.{
  get, get_r, Server, World, answer_value, with_local, get_quorum, answer_recent, local_replica,
}
use acp_kv.Server.Read.{IsValueAnswer, answer_value_lem, candidates, get_of_many, local_value}
use acp_kv.Staleness.{check_strict, Detector}
use acp_kv.Storage.{VersionedValue, zero_value}

answer_recent-some :
    (now : ℤ) (id : String) (d : Detector) (r : ReplicaValue) (m : Metrics)
    → let resp = (answer_recent now id d (some r) m).0 in
      (resp.found ≡ true) × (resp.error ≡ none → (resp.hlc ≡ some r.hlc) × (resp.value ≡ r.value))
answer_recent-some now id d r m = unfold answer_recent in (found, λ e. rest (sym same ∙ e))
  where
    checked : Option Error × Metrics
    checked =
        check_strict now d
          (record zero_value { value = r.value; version = r.version; hlc = r.hlc; node_id = id }) m

    found : (answer_value r.value r.version r.timestamp r.hlc checked).0.found ≡ true
    found = (answer_value_lem r.value r.version r.timestamp r.hlc checked).0

    same : (answer_value r.value r.version r.timestamp r.hlc checked).0.error ≡ checked.0
    same = (answer_value_lem r.value r.version r.timestamp r.hlc checked).1

    rest :
        checked.0 ≡ none
        → ((answer_value r.value r.version r.timestamp r.hlc checked).0.hlc ≡ some r.hlc)
          × ((answer_value r.value r.version r.timestamp r.hlc checked).0.value ≡ r.value)
    rest = (answer_value_lem r.value r.version r.timestamp r.hlc checked).2

get_quorum-eq :
    (now : ℤ) (id : String) (d : Detector) (local : Option VersionedValue)
    (values : List ReplicaValue) (m : Metrics)
    → get_quorum now id d local (values, none, m)
      ≡ answer_recent now id d (get_most_recent (with_local local values)) m
unfolding get_quorum
get_quorum-eq now id d local values m = refl

get_quorum_failed :
    (now : ℤ) (id : String) (d : Detector) (local : Option VersionedValue)
    (q : List ReplicaValue × Option Error × Metrics)
    → is_some q.1 ≡ true
    → ((get_quorum now id d local q).0.found ≡ false)
      × (is_some (get_quorum now id d local q).0.error ≡ true)
unfolding get_quorum
get_quorum_failed now id d local (values, some e, m) h = (refl, refl)
get_quorum_failed now id d local (values, none, m) h = cc

-- What a quorum read answers from the values that it compares.
get_quorum-some :
    (now : ℤ) (id : String) (d : Detector) (local : Option VersionedValue)
    (q : List ReplicaValue × Option Error × Metrics) (r : ReplicaValue)
    → q.1 ≡ none
    → get_most_recent (with_local local q.0) ≡ some r
    → let resp = (get_quorum now id d local q).0 in
      (resp.found ≡ true) × (resp.error ≡ none → (resp.hlc ≡ some r.hlc) × (resp.value ≡ r.value))
get_quorum-some now id d local (values, some e, m) r h k = cc
get_quorum-some now id d local (values, none, m) r h k =
    rw (get_quorum-eq, k) (answer_recent-some now id d r m)

length-with_local :
    (o : Option VersionedValue) (values : List ReplicaValue)
    → length values ≤ length (with_local o values)
unfolding with_local
length-with_local none values = omega arith
length-with_local (some v) values = omega (arith, length-append values (local_replica v ∷ []))

-- A successful query for two or more has a value.
values_of_many :
    (x : World) (req : GetRequest) (s : Server)
    → pos 2 ≤ℤ get_r s.quorum_provider
    → (query_replicas x.on_get_local x.arrivals req.key
        (get_r s.quorum_provider)
        s.coordinator
        s.metrics).1
      ≡ none
    → 0 < length (candidates x req s)
values_of_many x req s two ok = ground (
  arith,
  query_replicas_lem x.on_get_local x.arrivals req.key (get_r s.quorum_provider) s.coordinator
      s.metrics,
  length-with_local (local_value req s)
      (query_replicas x.on_get_local x.arrivals req.key (get_r s.quorum_provider) s.coordinator
        s.metrics).0,
)

-- How a quorum read of two or more ends: it fails, or it has a latest value to answer from.
pub get_quorum_cases :
    (x : World) (req : GetRequest) (s : Server)
    → pos 2 ≤ℤ get_r s.quorum_provider
    → (((get x req s).0.found ≡ false) × (is_some (get x req s).0.error ≡ true))
      ⊎ ((r : ReplicaValue) × IsOneOf r (candidates x req s)
          × IsLatest r (candidates x req s)
          × ((get x req s).0.found ≡ true)
          × ((get x req s).0.error ≡ none
              → ((get x req s).0.hlc ≡ some r.hlc) × ((get x req s).0.value ≡ r.value))
          × ((query_replicas x.on_get_local x.arrivals req.key
                (get_r s.quorum_provider)
                s.coordinator
                s.metrics).1
              ≡ none))
get_quorum_cases x req s two =
    rw (get_of_many x req s two) (go (Option-cases q.1) (get_most_recent_lem (candidates x req s)))
  where
    q : List ReplicaValue × Option Error × Metrics
    q =
        query_replicas x.on_get_local x.arrivals req.key (get_r s.quorum_provider) s.coordinator
          s.metrics

    resp : GetResponse
    resp = (get_quorum x.first s.node_id s.staleness_detector (local_value req s) q).0

    go :
        ((q.1 ≡ none) ⊎ ((e : Error) × (q.1 ≡ some e)))
        → ((candidates x req s ≡ []) × (get_most_recent (candidates x req s) ≡ none))
          ⊎ ((v : ReplicaValue) × (get_most_recent (candidates x req s) ≡ some v)
              × IsOneOf v (candidates x req s)
              × IsLatest v (candidates x req s))
        → ((resp.found ≡ false) × (is_some resp.error ≡ true))
          ⊎ ((r : ReplicaValue) × IsOneOf r (candidates x req s)
              × IsLatest r (candidates x req s)
              × (resp.found ≡ true)
              × (resp.error ≡ none → (resp.hlc ≡ some r.hlc) × (resp.value ≡ r.value))
              × (q.1 ≡ none))
    go (inr (e, h)) c =
        inl (
          get_quorum_failed x.first s.node_id s.staleness_detector (local_value req s) q
            (rw h refl))
    go (inl h) (inl (empty, _)) =
        absurd (omega (arith, values_of_many x req s two h, ap length empty))
    go (inl h) (inr (r, e, one, latest)) =
        let (found, rest) =
          get_quorum-some x.first s.node_id s.staleness_detector (local_value req s) q r h e in
        inr (r, one, latest, found, rest, h)

-- A quorum read of two or more never answers that a key is absent: an answer without a value is an
-- error.
pub get_quorum_found :
    (x : World) (req : GetRequest) (s : Server)
    → pos 2 ≤ℤ get_r s.quorum_provider
    → (get x req s).0.found ≡ false
    → is_some (get x req s).0.error ≡ true
get_quorum_found x req s two absent = elim (get_quorum_cases x req s two) [
  | inl (_, e) ↦ e
  | inr (r, _, _, found, _, _) ↦ cc
]

-- A quorum read that answers with a value answers with one of those that it compared, and none of them
-- has a later timestamp.
pub get_quorum-IsLatest :
    (x : World) (req : GetRequest) (s : Server)
    → pos 2 ≤ℤ get_r s.quorum_provider
    → IsValueAnswer (get x req s).0
    → (r : ReplicaValue) × ((get x req s).0.hlc ≡ some r.hlc)
      × ((get x req s).0.value ≡ r.value)
      × IsOneOf r (candidates x req s)
      × IsLatest r (candidates x req s)
get_quorum-IsLatest x req s two ok = elim (get_quorum_cases x req s two) [
  | inl (absent, _) ↦ absurd (cc)
  | inr (r, one, latest, found, rest, _) ↦ (r, (rest ok.1).0, (rest ok.1).1, one, latest)
]
