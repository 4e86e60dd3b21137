-- ===== src/Server/Read.antt =====
-- What `Get` answers (internal/server/server.go): the local read.
pub mod Quorum
use acp_kv.Storage
use acp_kv.Prelude.{
  List, Option, arith, false, is_some, none, pos, refl, some, true, ℤ, ◌≡◌, ◌≤ℤ◌, ◌⊎◌, Bool-cases,
  [], inl, inr, ltb_ℤ,
}
use acp_kv.Failure.{Error}
use acp_kv.Hlc.{age, Hlc, to_proto}
use acp_kv.Metrics.{Metrics}
use acp_kv.Proto.{GetRequest, GetResponse}
use acp_kv.Replication.{ReplicaValue, query_replicas, get_most_recent}
use acp_kv.Replication.Counting.{query_replicas_lem}
use acp_kv.Replication.Recent.{IsLatest, IsOneOf, get_most_recent_lem}
use acp_kv.Server.{
  get, get_r, Server, World, answer_value, get_alone, not_found, with_local, get_quorum,
  answer_recent, local_replica,
}
use acp_kv.Staleness.{check_strict, is_stale, Detector}
use acp_kv.Storage.{Bytes, VersionedValue, zero_value}

-- The value that the node itself has for the key.
abbrev pub local_value : GetRequest → Server → Option VersionedValue
local_value req s = Storage.get req.key s.store

-- The values that a quorum read of the key compares: the connected peers' and the local one.
abbrev pub candidates : World → GetRequest → Server → List ReplicaValue
candidates x req s =
    with_local (local_value req s)
      (query_replicas x.on_get_local x.arrivals req.key (get_r s.quorum_provider) s.coordinator
        s.metrics).0

-- The value of an answer that carries one: it was found, and it is not too old.
abbrev pub IsValueAnswer : GetResponse → Type 0
IsValueAnswer resp = (resp.found ≡ true) × (resp.error ≡ none)

pub answer_value_lem :
    (value : Bytes) (version timestamp : ℤ) (hlc : Hlc) (checked : Option Error × Metrics)
    → ((answer_value value version timestamp hlc checked).0.found ≡ true)
      × ((answer_value value version timestamp hlc checked).0.error ≡ checked.0)
      × (checked.0 ≡ none
          → ((answer_value value version timestamp hlc checked).0.hlc ≡ some hlc)
            × ((answer_value value version timestamp hlc checked).0.value ≡ value))
unfolding answer_value to_proto
answer_value_lem value version timestamp hlc (none, m) = (refl, refl, λ e. (refl, refl))
answer_value_lem value version timestamp hlc (some e, m) = (refl, refl, λ p. cc)

-- The answer with a staleness error.
abbrev pub IsStaleAnswer : GetResponse → Type 0
IsStaleAnswer resp =
    (resp.found ≡ true) × (resp.is_stale ≡ true) × (resp.value ≡ []) × (is_some resp.error ≡ true)

-- What a read from one value answers at time `now`.
abbrev pub AnswersFrom : ℤ → Detector → Option VersionedValue → GetResponse → Type 0
AnswersFrom now d o resp =
    ((o ≡ none) × (resp ≡ not_found))
    ⊎ ((v : VersionedValue) × (o ≡ some v) × (is_stale d v.hlc now ≡ true) × IsStaleAnswer resp)
    ⊎ ((v : VersionedValue) × (o ≡ some v)
        × (is_stale d v.hlc now ≡ false)
        × IsValueAnswer resp
        × (resp.value ≡ v.value)
        × (resp.hlc ≡ some v.hlc))

get_alone_lem :
    (now : ℤ) (d : Detector) (o : Option VersionedValue) (m : Metrics)
    → AnswersFrom now d o (get_alone now d o m).0
unfolding get_alone answer_value to_proto check_strict is_stale
get_alone_lem now d none m = inl (refl, refl)
get_alone_lem now d (some v) m = elim (Bool-cases (ltb_ℤ d.max_age (age v.hlc now))) [
  | inl e ↦ inr (inl (v, refl, e, rw e (refl, refl, refl, refl)))
  | inr e ↦ inr (inr (v, refl, e, rw e (refl, refl), rw e, rw e))
]

pub get_of_one :
    (x : World) (req : GetRequest) (s : Server)
    → get_r s.quorum_provider ≡ pos 1
    → (get x req s).0 ≡ (get_alone x.first s.staleness_detector (local_value req s) s.metrics).0
unfolding get
get_of_one x req s one = ground arith

pub get_of_many :
    (x : World) (req : GetRequest) (s : Server)
    → pos 2 ≤ℤ get_r s.quorum_provider
    → (get x req s).0
      ≡ (get_quorum x.first s.node_id s.staleness_detector (local_value req s) (
          query_replicas x.on_get_local x.arrivals req.key
            (get_r s.quorum_provider)
            s.coordinator
            s.metrics)).0
unfolding get
get_of_many x req s two = ground arith

pub get_alone_answer :
    (x : World) (req : GetRequest) (s : Server)
    → get_r s.quorum_provider ≡ pos 1
    → AnswersFrom x.first s.staleness_detector (local_value req s) (get x req s).0
get_alone_answer x req s one =
    rw (get_of_one x req s one)
      (get_alone_lem x.first s.staleness_detector (local_value req s) s.metrics)
