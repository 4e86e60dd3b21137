-- ===== src/Cluster/Async/Tests.antt =====
-- Instances of runs of a system: n1 takes a write, its call reaches n2, and the one to n3 stays on its way.
use acp_kv.Storage
use acp_kv.Prelude.{pos, true, String, [], arith, none, some, inr, refl, ◌∷◌, ◌≡◌, List, ℤ, ◌++◌}
use acp_kv.Cluster.Async.{
  Call, Pending, Run, Running, System, accept_storing, advance, advances, arrives, begins, draw,
  draws, goes_on, put_logging, put_sending, put_storing, overwrites, settling, receive, request_for,
  runs_at, send_all, set_node, write_of,
}
use acp_kv.Cluster.Async.Agreement.{IsFresh, stores-agree, stores-IsIssued}
use acp_kv.Cluster.Async.Inv.{IsIssued}
use acp_kv.Cluster.Async.Overtaken.{first, overtaken, overtaken_lem, second}
use acp_kv.Examples.{server, put_k, clock_of, entry, old_value}
use acp_kv.Prelude.Map.{keys}
use acp_kv.Cluster.Async.Overwritten.{overwritten, overwritten_lem}
use acp_kv.Hlc.{reading}
use acp_kv.Hlc.Order.{Before}
use acp_kv.Proto.{PutRequest}
use acp_kv.Reconcile.Engine.{five_minutes, new_engine}
use acp_kv.Reconcile.Log.{new_recent_write_log}
use acp_kv.Reconcile.Log.Inv.{new_recent_write_log-IsValid}
use acp_kv.Server.{Server}
use acp_kv.Storage.{new_store, VersionedValue, stamped}

abbrev node : String → Server
node a = record server {
  node_id = a;
  hlc_clock = clock_of a;
  store = new_store;
  reconciler = some (new_engine (pos 30) true);
}

abbrev start : System
start = record { nodes = node; calls = []; tasks = [] }

start-IsFresh : IsFresh 6 start
unfolding new_engine new_recent_write_log new_store Storage.get acp_kv.Prelude.Map.lookup
start-IsFresh = record {
  apart = λ a b e. e;
  room = λ a. omega arith;
  quiet = refl;
  idle = refl;
  empty = λ a key. refl;
  logs = λ a. ((new_recent_write_log-IsValid 1000 five_minutes (omega arith)).0, refl);
}

-- The write, with the timestamp that n1 draws.
abbrev pending : Pending
pending = (draw (pos 1010) put_k (node "n1")).1

-- What runs first makes its next access.
abbrev after : ℤ → Running → System → System
after now r s = record {
  nodes = set_node r.at (advance now r.task (s.nodes r.at)).0 s.nodes;
  calls = (advance now r.task (s.nodes r.at)).2 ++ s.calls;
  tasks = runs_at r.at (advance now r.task (s.nodes r.at)).1 ++ [];
}

abbrev drawn : System
drawn = record {
  nodes = set_node "n1" (draw (pos 1010) put_k (node "n1")).0 node;
  calls = [];
  tasks = record { at = "n1"; task = put_storing pending } ∷ [];
}

abbrev sent : System
sent =
    after (pos 1013) (record { at = "n1"; task = put_sending pending })
      (after (pos 1012) (record { at = "n1"; task = put_logging pending })
        (after (pos 1011) (record { at = "n1"; task = put_storing pending }) drawn))

-- The call to n2, and the one to n3.
abbrev call : String → Call
call a = record { to = a; request = request_for pending (node "n1") }

abbrev received : System
received = record {
  nodes = set_node "n2" (receive (pos 1014) (call "n2").request (sent.nodes "n2")).0 sent.nodes;
  calls = call "n3" ∷ [];
  tasks = record { at = "n2"; task = accept_storing pending } ∷ [];
}

abbrev delivered : System
delivered = after (pos 1015) (record { at = "n2"; task = accept_storing pending }) received

run : Run start 6 (write_of "n1" pending ∷ []) delivered
unfolding draw advance send_all receive set_node acp_kv.Prelude.Map.keys acp_kv.Hlc.now_hlc
    acp_kv.Hlc.from_proto
run =
    goes_on
      (goes_on
        (goes_on
          (goes_on
            (goes_on (goes_on begins (draws "n1" (pos 1010) put_k) refl)
              (advances (pos 1011) [] (record { at = "n1"; task = put_storing pending }) [] refl)
              refl)
            (advances (pos 1012) [] (record { at = "n1"; task = put_logging pending }) [] refl)
            refl)
          (advances (pos 1013) [] (record { at = "n1"; task = put_sending pending }) [] refl) refl)
        (arrives (pos 1014) [] (call "n2") (call "n3" ∷ []) refl) refl)
      (advances (pos 1015) [] (record { at = "n2"; task = accept_storing pending }) [] refl) refl

abbrev held : ℤ → VersionedValue
held now = stamped now put_k.value "n1" pending.hlc

held_first : Storage.get "k" (delivered.nodes "n1").store ≡ some (held (pos 1011))
unfolding set_node advance draw receive Storage.get acp_kv.Prelude.Map.lookup
    acp_kv.Storage.put_with_hlc acp_kv.Prelude.Map.insert stamped acp_kv.Hlc.from_proto
    acp_kv.Hlc.now_hlc new_store
held_first = refl

held_second : Storage.get "k" (delivered.nodes "n2").store ≡ some (held (pos 1015))
unfolding set_node advance draw receive Storage.get acp_kv.Prelude.Map.lookup
    acp_kv.Storage.put_with_hlc acp_kv.Prelude.Map.insert stamped acp_kv.Hlc.from_proto
    acp_kv.Hlc.now_hlc new_store
held_second = refl

stores-agree_example : (put_k.key ≡ put_k.key) × ((held (pos 1011)).value ≡ (held (pos 1015)).value)
unfolding stamped
stores-agree_example =
    stores-agree 6 start delivered (write_of "n1" pending ∷ []) "n1" "n2" "k" "k" (held (pos 1011))
      (held (pos 1015)) start-IsFresh run held_first held_second refl

stores-IsIssued_example :
    IsIssued (write_of "n1" pending ∷ []) "k" (held (pos 1015)).value (held (pos 1015)).hlc
stores-IsIssued_example =
    stores-IsIssued 6 start delivered (write_of "n1" pending ∷ []) "n2" "k" (held (pos 1015))
      start-IsFresh run held_second

-- Another write of the same key.
abbrev put_again : PutRequest
put_again = record { key = "k"; value = 9 ∷ [] }

overtaken_lem_example :
    let t = overtaken start "n1" (pos 1010) put_k (pos 1011) put_again (pos 1012) (pos 1013) in
    let p = first (pos 1010) put_k (node "n1") in
    let p' = second (pos 1010) put_k (pos 1011) put_again (node "n1") in
    Run start 4 (write_of "n1" p' ∷ write_of "n1" p ∷ []) t
    × Before p.hlc p'.hlc
    × (Storage.get "k" (t.nodes "n1").store ≡ some (stamped (pos 1013) (8 ∷ []) "n1" p.hlc))
overtaken_lem_example =
    overtaken_lem start "n1" (pos 1010) (pos 1011) (pos 1012) (pos 1013) put_k put_again refl
      (omega arith)

-- The engine of n1 is about to compare a logged write with an older value.
abbrev settles : System
settles = record {
  nodes = λ a. server;
  calls = [];
  tasks = record { at = "n1"; task = settling (entry ∷ []) } ∷ [];
}

holds_old : Storage.get "k" server.store ≡ some old_value
unfolding Storage.get acp_kv.Prelude.Map.lookup
holds_old = refl

old_loses : overwrites entry old_value ≡ true
unfolding overwrites stamped acp_kv.Hlc.happens_after acp_kv.Hlc.happens_before
old_loses = refl

entry_past : Before entry.hlc (reading server.hlc_clock)
unfolding acp_kv.Hlc.happens_before
entry_past = refl

overwritten_lem_example :
    let t = overwritten settles "n1" (pos 1010) put_k (pos 1012) (pos 1013) entry [] [] in
    let p = first (pos 1010) put_k server in
    Run settles 4 (write_of "n1" p ∷ []) t
    × Before entry.hlc p.hlc
    × (Storage.get "k" (t.nodes "n1").store ≡ some (stamped (pos 1013) (9 ∷ []) "n3" entry.hlc))
overwritten_lem_example =
    overwritten_lem settles "n1" (pos 1010) (pos 1011) (pos 1012) (pos 1013) put_k entry [] []
      old_value refl holds_old old_loses refl (inr entry_past) (omega arith)
