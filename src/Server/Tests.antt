-- ===== src/Server/Tests.antt =====
-- Instances for the handlers, on the node of the example cluster.
use acp_kv.Storage
use acp_kv.Prelude.{
  [], arith, if◌then◌else◌, is_some, length, pos, refl, some, str_eq, true, ◌<ℤ◌, ◌∷◌, ◌≡◌, ◌≢◌,
  ◌≤ℤ◌, ◌⊎◌, false, none,
}
use acp_kv.Config.{Config}
use acp_kv.Examples.{reads_alone, server, reads_alone, world, put_k, get_k, old_value, store}
use acp_kv.Failure.{insufficient_acks}
use acp_kv.Hlc.{update, reading, from_proto}
use acp_kv.Hlc.Monotone.{Room}
use acp_kv.Hlc.Order.{Before}
use acp_kv.Proto.{ReplicateRequest, answered}
use acp_kv.Replication.{ReplicaValue}
use acp_kv.Replication.Recent.{IsLatest, IsOneOf}
use acp_kv.Server.{get_r, get_w, get, put, World, accept, failed_put, not_found}
use acp_kv.Server.Causal.{stamp_of-Before, stamp_of_refused}
use acp_kv.Server.Read.{candidates, IsValueAnswer}
use acp_kv.Server.Read.Quorum.{get_quorum_found, get_quorum-IsLatest}
use acp_kv.Server.Write.{put_answer, put_acks, stamp_of}
use acp_kv.Storage.{VersionedValue, stamped}

abbrev answering : World
answering = record world {
  on_get_local = λ req a. answered (record not_found {
    found = true;
    value = 6 ∷ [];
    hlc = some (record { physical = pos 880; logical = pos 0; node_id = "n3" });
  });
}

-- A write older than the one in the store.
abbrev late : ReplicateRequest
late = record {
  key = "k";
  value = 5 ∷ [];
  version = pos 800;
  timestamp = pos 800;
  source_node_id = "n3";
  hlc = some (record { physical = pos 800; logical = pos 0; node_id = "n3" });
}

reads_two : pos 2 ≤ℤ get_r server.quorum_provider
unfolding get_r acp_kv.Config.get_r
reads_two = omega arith

no_value : (get world get_k server).0.found ≡ false
unfolding get get_r acp_kv.Config.get_r acp_kv.Replication.query_replicas
    acp_kv.Replication.collect_values
no_value = refl

a_value : IsValueAnswer (get answering get_k server).0
unfolding get get_r acp_kv.Config.get_r acp_kv.Replication.query_replicas
    acp_kv.Replication.collect_values acp_kv.Replication.get_most_recent Storage.get
    acp_kv.Prelude.Map.lookup acp_kv.Staleness.check_strict acp_kv.Hlc.age acp_kv.Hlc.happens_after
    from_proto stamped acp_kv.Prelude.sub64
a_value = (refl, refl)

old_found : Storage.get "k" store ≡ some old_value
unfolding Storage.get acp_kv.Prelude.Map.lookup
old_found = refl

late_Before : Before (from_proto late.hlc) old_value.hlc
unfolding from_proto acp_kv.Hlc.happens_before stamped
late_Before = refl

put_answer_example :
    ((length server.coordinator.peers ≡ 0)
      × ((put world put_k server).0.success ≡ true)
      × ((put world put_k server).0.hlc ≡ some (stamp_of world server)))
    ⊎ ((length server.coordinator.peers ≢ 0)
        × (get_w server.quorum_provider ≤ℤ pos (put_acks world put_k server))
        × ((put world put_k server).0.success ≡ true)
        × ((put world put_k server).0.hlc ≡ some (stamp_of world server)))
    ⊎ ((length server.coordinator.peers ≢ 0)
        × (pos (put_acks world put_k server) <ℤ get_w server.quorum_provider)
        × ((put world put_k server).0
            ≡ failed_put (
                insufficient_acks
                  (pos (put_acks world put_k server))
                  (get_w server.quorum_provider))))
put_answer_example = put_answer world put_k server

get_quorum_found_example : is_some (get world get_k server).0.error ≡ true
get_quorum_found_example = get_quorum_found world get_k server reads_two no_value

get_quorum-IsLatest_example :
    (r : ReplicaValue) × ((get answering get_k server).0.hlc ≡ some r.hlc)
    × ((get answering get_k server).0.value ≡ r.value)
    × IsOneOf r (candidates answering get_k server)
    × IsLatest r (candidates answering get_k server)
get_quorum-IsLatest_example = get_quorum-IsLatest answering get_k server reads_two a_value

-- A write of n3 that the clock of n1 accepts.
abbrev recent : ReplicateRequest
recent = record late {
  hlc = some (record { physical = pos 1300; logical = pos 2; node_id = "n3" });
}

recent-Room : Room 2 (from_proto recent.hlc).logical
unfolding from_proto
recent-Room = (omega arith, omega arith)

recent_accepted : (update (pos 1010) (from_proto recent.hlc) server.hlc_clock).0 ≡ none
unfolding update acp_kv.Prelude.sub64 from_proto
recent_accepted = refl

stamp_of-Before_example :
    Before (from_proto recent.hlc) (stamp_of world (accept world recent server).1)
    × Before (reading server.hlc_clock) (stamp_of world (accept world recent server).1)
stamp_of-Before_example =
    stamp_of-Before world world recent server (omega arith, omega arith) recent-Room recent_accepted

-- A write of n3 whose clock is far ahead of the time of n1.
abbrev ahead : ReplicateRequest
ahead = record late { hlc = some (record { physical = pos 5000; logical = pos 0; node_id = "n3" }) }

ahead_refused : (update (pos 1010) (from_proto ahead.hlc) server.hlc_clock).0 ≢ none
unfolding update acp_kv.Prelude.sub64 from_proto
ahead_refused = grind arith

ahead_of_clock : server.hlc_clock.physical <ℤ (from_proto ahead.hlc).physical
unfolding from_proto
ahead_of_clock = omega arith

ahead_of_time : world.first <ℤ (from_proto ahead.hlc).physical
unfolding from_proto
ahead_of_time = omega arith

stamp_of_refused_example :
    Before (stamp_of world (accept world ahead server).1) (from_proto ahead.hlc)
    × (Storage.get "k" (accept world ahead server).1.store
        ≡ some (stamped world.second (5 ∷ []) "n3" (from_proto ahead.hlc)))
stamp_of_refused_example =
    stamp_of_refused world world ahead server ahead_refused ahead_of_clock ahead_of_time
