-- ===== src/Cluster/Async.antt =====
-- Nodes that run at the same time: the handlers and the engine of each, one access under a mutex at a time
-- and in any order, and the `Replicate` calls that are on their way (internal/server/server.go,
-- internal/reconcile/engine.go and internal/replication/coordinator.go).
pub mod Inv
pub mod Logs
pub mod Keeps
pub mod Advances
pub mod Starts
pub mod Steps
pub mod Agreement
pub mod Whole
pub mod Overtaken
pub mod Overwritten
mod Tests
use acp_kv.Storage
use acp_kv.Prelude.{
  Bool, Option, false, some, true, ℤ, String, [], if◌then◌else◌, none, suc, str_eq, str_gt, ℕ, ◌++◌,
  ◌∷◌, ◌≡◌, List,
}
use acp_kv.Hlc.{Hlc, equal, from_proto, happens_after, now_hlc, update}
use acp_kv.Prelude.Map.{keys}
use acp_kv.Proto.{HealthRequest, PutRequest, ReplicateRequest}
use acp_kv.Replication.Counting.{request_of}
use acp_kv.Server.{Server, World, health_check, log_write}
use acp_kv.Reconcile.Engine.{Engine}
use acp_kv.Reconcile.Log.{RecentWriteLog, WriteEntry, get_all}
use acp_kv.Storage.{Bytes, VersionedValue, put_with_hlc}

-- A call of `Replicate` that has not been served: the address that it goes to, and its request.
pub record Call : Type 0 where
  pub to : String
  pub request : ReplicateRequest

-- What a handler carries from one access to the next: the arguments of the store and of the log.
pub record Pending : Type 0 where
  pub key : String
  pub value : Bytes
  pub node_id : String
  pub hlc : Hlc

-- What runs at a node, and where it stands: a `Put` before the store, the log, and its calls; a `Replicate`
-- before the store and the log; the engine before it reads the log, before a write that it read there, and
-- before it overwrites the value that it compared with one.
pub data Task : Type 0 where
  put_storing : Pending → Task
  put_logging : Pending → Task
  put_sending : Pending → Task
  accept_storing : Pending → Task
  accept_logging : Pending → Task
  waking : Task
  settling : List WriteEntry → Task
  overwriting : WriteEntry → List WriteEntry → Task

pub record Running : Type 0 where
  pub at : String
  pub task : Task

-- The nodes by address, the calls on their way, and what runs.
pub record System : Type 0 where
  pub nodes : String → Server
  pub calls : List Call
  pub tasks : List Running

-- A write that a client asked for: where, what, and the timestamp that it was given.
pub record Write : Type 0 where
  pub origin : String
  pub key : String
  pub value : Bytes
  pub hlc : Hlc

-- The log of the engine, if there is one.
abbrev pub log_of : Option Engine → Option RecentWriteLog
log_of none = none
log_of (some e) = some e.recent_writes

unfoldable pub set_node : String → Server → (String → Server) → String → Server
set_node a s nodes b = if str_eq b a then s else nodes b

-- A request to each of the peers.
unfoldable pub send_all : ReplicateRequest → List String → List Call
send_all r [] = []
send_all r (a ∷ addrs) = record { to = a; request = r } ∷ send_all r addrs

-- `Put` up to its timestamp.
unfoldable pub draw : ℤ → PutRequest → Server → Server × Pending
draw now req s =
    let (timestamp, clock) = now_hlc now s.hlc_clock in
    (
      record s { hlc_clock = clock },
      record { key = req.key; value = req.value; node_id = s.node_id; hlc = timestamp },
    )

-- `Replicate` up to the update of the clock.
unfoldable pub receive : ℤ → ReplicateRequest → Server → Server × Pending
receive now req s =
    let remote = from_proto req.hlc in
    (
      record s { hlc_clock = (update now remote s.hlc_clock).1 },
      record { key = req.key; value = req.value; node_id = req.source_node_id; hlc = remote },
    )

abbrev pub write_of : String → Pending → Write
write_of a p = record { origin = a; key = p.key; value = p.value; hlc = p.hlc }

-- s.store.PutWithHLC
abbrev pub store_pending : ℤ → Pending → Server → Server
store_pending now p s = record s {
  store = (put_with_hlc now p.key p.value p.node_id p.hlc s.store).1;
}

-- "record write in reconciliation log"
abbrev pub log_pending : ℤ → Pending → Server → Server
log_pending now p s = record s {
  reconciler = log_write now p.key p.value p.node_id p.hlc s.reconciler;
}

-- The request that `Replicate` sends to each peer.
abbrev pub request_for : Pending → Server → ReplicateRequest
request_for p s = request_of p.key p.value p.hlc.physical p.hlc.physical p.hlc s.coordinator

abbrev pub pending_of : WriteEntry → Pending
pending_of w = record { key = w.key; value = w.value; node_id = w.node_id; hlc = w.hlc }

-- The branches of `reconcileWithPeer` that overwrite the local value.
unfoldable pub overwrites : WriteEntry → VersionedValue → Bool
overwrites w local =
    if happens_after w.hlc local.hlc
    then true
    else if happens_after local.hlc w.hlc
    then false
    else if equal w.hlc local.hlc
    then str_gt w.node_id local.node_id
    else false

-- The reads of the engine: the next write of the log with the local value.
unfoldable pub compare_next : WriteEntry → List WriteEntry → Option VersionedValue → Task
compare_next w ws none = settling ws
compare_next w ws (some local) = if overwrites w local then overwriting w ws else settling ws

-- What the engine does with the log that it read; where that is a panic, nothing. The engine's log is
-- consistent, so that no panic is reached.
unfoldable pub begin_settling : Option (List WriteEntry) → List Task
begin_settling none = []
begin_settling (some ws) = settling ws ∷ []

-- writes := e.recentWrites.GetAll()
unfoldable pub read_log : ℤ → Option Engine → List Task
unfolding begin_settling
read_log now none = []
read_log now (some e) = begin_settling (get_all now e.recent_writes)

-- The next access of what runs: the node after it, what goes on, and the calls that it makes. The counters
-- are left to `rests`.
unfoldable pub advance : ℤ → Task → Server → Server × List Task × List Call
unfolding read_log compare_next
advance now (put_storing p) s = (store_pending now p s, put_logging p ∷ [], [])
advance now (put_logging p) s = (log_pending now p s, put_sending p ∷ [], [])
advance now (put_sending p) s = (s, [], send_all (request_for p s) (keys s.coordinator.peers))
advance now (accept_storing p) s = (store_pending now p s, accept_logging p ∷ [], [])
advance now (accept_logging p) s = (log_pending now p s, [], [])
advance now waking s = (s, read_log now s.reconciler, [])
advance now (settling []) s = (s, [], [])
advance now (settling (w ∷ ws)) s = (s, compare_next w ws (Storage.get w.key s.store) ∷ [], [])
advance now (overwriting w ws) s = (store_pending now (pending_of w) s, settling ws ∷ [], [])

abbrev pub runs_at : String → List Task → List Running
runs_at a [] = []
runs_at a (t ∷ ts) = record { at = a; task = t } ∷ runs_at a ts

-- A step of the system, with the writes that it issues.
pub data Step (s : System) : List Write → System → Type 0 where
  -- A client's `Put` at `a` draws its timestamp.
  draws :
      (a : String) (now : ℤ) (req : PutRequest)
      → Step s (write_of a (draw now req (s.nodes a)).1 ∷ []) (record {
        nodes = set_node a (draw now req (s.nodes a)).0 s.nodes;
        calls = s.calls;
        tasks = record { at = a; task = put_storing (draw now req (s.nodes a)).1 } ∷ s.tasks;
      })
  -- A call arrives, in any order.
  arrives :
      (now : ℤ) (before : List Call) (c : Call) (after : List Call)
      → s.calls ≡ before ++ c ∷ after
      → Step s [] (record {
        nodes = set_node c.to (receive now c.request (s.nodes c.to)).0 s.nodes;
        calls = before ++ after;
        tasks =
            record { at = c.to; task = accept_storing (receive now c.request (s.nodes c.to)).1 }
            ∷ s.tasks;
      })
  -- A call is lost.
  loses :
      (before : List Call) (c : Call) (after : List Call)
      → s.calls ≡ before ++ c ∷ after
      → Step s [] (record s { calls = before ++ after })
  -- The engine takes the report of a healed partition from its queue.
  wakes :
      (a : String) (e : Engine) (peer : String) (rest : List String)
      → (s.nodes a).reconciler ≡ some e
      → e.healing_events ≡ peer ∷ rest
      → Step s [] (record {
        nodes =
            set_node a
              (record (s.nodes a) { reconciler = some (record e { healing_events = rest }) })
              s.nodes;
        calls = s.calls;
        tasks = record { at = a; task = waking } ∷ s.tasks;
      })
  -- Something that runs makes its next access.
  advances :
      (now : ℤ) (before : List Running) (r : Running) (after : List Running)
      → s.tasks ≡ before ++ r ∷ after
      → Step s [] (record {
        nodes = set_node r.at (advance now r.task (s.nodes r.at)).0 s.nodes;
        calls = (advance now r.task (s.nodes r.at)).2 ++ s.calls;
        tasks = before ++ runs_at r.at (advance now r.task (s.nodes r.at)).1 ++ after;
      })
  -- A health check, which the probe and the client send without a timestamp.
  checks :
      (a : String) (x : World) (req : HealthRequest)
      → req.hlc ≡ none
      → Step s [] (record s { nodes = set_node a (health_check x req (s.nodes a)).1 s.nodes })
  -- Whatever leaves the store, the clock and the log of a node alone: reads, the end of a `Put`, discovery, the
  -- controller, the probe, and the counters.
  rests :
      (a : String) (t : Server)
      → t.store ≡ (s.nodes a).store
      → t.hlc_clock ≡ (s.nodes a).hlc_clock
      → log_of t.reconciler ≡ log_of (s.nodes a).reconciler
      → Step s [] (record s { nodes = set_node a t s.nodes })

-- Runs of a number of steps, with the writes issued, the youngest first.
pub data Run (s : System) : ℕ → List Write → System → Type 0 where
  begins : Run s 0 [] s
  goes_on :
      {n : ℕ} {ws : List Write} {t : System} {new : List Write} {u : System} {vs : List Write}
      → Run s n ws t
      → Step t new u
      → vs ≡ new ++ ws
      → Run s (suc n) vs u
