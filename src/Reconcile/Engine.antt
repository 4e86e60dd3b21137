-- ===== src/Reconcile/Engine.antt =====
-- internal/reconcile/engine.go: the engine that settles conflicts after a partition has healed.
-- `clock i` is the physical time that the i-th reading of a call returns, and `elapsed` the
-- duration that the call measures. Logging is left out.
pub mod Settle
pub mod Queue
mod Tests
use acp_kv.Reconcile.Log
use acp_kv.Prelude.{
  Bool, List, Option, String, [], if◌then◌else◌, length, ltb, none, pos, some, str_gt, ℕ, ℤ, ◌++◌,
  ◌+◌, ◌>>=◌, ◌∷◌,
}
use acp_kv.Hlc.{equal, Hlc, happens_after}
use acp_kv.Metrics.{Metrics}
use acp_kv.Reconcile.Log.{RecentWriteLog, WriteEntry}
use acp_kv.Storage.{get, Bytes, Store, VersionedValue, put_with_hlc}

pub record Engine : Type 0 where
  pub recent_writes : RecentWriteLog
  pub interval : ℤ
  pub enabled : Bool
  pub healing_events : List String

-- 5 * time.Minute
abbrev pub five_minutes : ℤ
five_minutes = pos 300_000_000_000

unfoldable pub new_engine : ℤ → Bool → Engine
new_engine interval enabled = record {
  recent_writes = Log.new_recent_write_log 1000 five_minutes;
  interval = interval;
  enabled = enabled;
  healing_events = [];
}

-- The capacity of the channel `healingEvents`.
abbrev pub queue_capacity : ℕ
queue_capacity = 100

-- Engine.NotifyHealingEvent: a full queue drops the event.
unfoldable pub notify_healing_event : String → Engine → Engine
notify_healing_event peer e =
    if ltb (length e.healing_events) queue_capacity
    then record e { healing_events = e.healing_events ++ peer ∷ [] }
    else e

-- Engine.RecordWrite
unfoldable pub record_write : ℤ → String → Bytes → String → Hlc → Engine → Engine
record_write now key value node_id timestamp e = record e {
  recent_writes = Log.add now key value node_id timestamp e.recent_writes;
}

-- What the loop of `reconcileWithPeer` changes.
pub record Progress : Type 0 where
  pub store : Store
  pub metrics : Metrics
  pub keys_reconciled : ℕ

abbrev pub count_resolved : Metrics → Metrics
count_resolved m = record m { conflicts_resolved = m.conflicts_resolved + 1 }

abbrev pub count_detected : Metrics → Metrics
count_detected m = record m { conflicts_detected = m.conflicts_detected + 1 }

-- The writes to the store and to the counters where the logged write wins.
abbrev pub take_write : ℤ → WriteEntry → Progress → Progress
take_write now write p = record {
  store = (put_with_hlc now write.key write.value write.node_id write.hlc p.store).1;
  metrics = count_resolved p.metrics;
  keys_reconciled = p.keys_reconciled + 1;
}

-- The body of the loop once the key was found locally.
unfoldable pub resolve : ℤ → WriteEntry → VersionedValue → Progress → Progress
resolve now write local p =
    if happens_after write.hlc local.hlc
    then take_write now write p
    else if happens_after local.hlc write.hlc
    then p
    else if equal write.hlc local.hlc
    then (let p' : Progress = record p { metrics = count_detected p.metrics } in
        if str_gt write.node_id local.node_id then take_write now write p' else p')
    else p

-- One round of the loop of `reconcileWithPeer`.
unfoldable pub reconcile_write : ℤ → WriteEntry → Progress → Progress
reconcile_write now write p = elim (get write.key p.store) [
  | none ↦ p
  | some local ↦ resolve now write local p
]

-- The loop over the writes, from the i-th reading of the clock on.
unfoldable pub reconcile_from : (ℕ → ℤ) → ℕ → List WriteEntry → Progress → Progress
reconcile_from clock i [] p = p
reconcile_from clock i (write ∷ writes) p =
    reconcile_from clock (i + 1) writes (reconcile_write (clock i) write p)

-- The counters and histograms that a finished run updates.
unfoldable pub count_run : ℤ → Progress → Metrics
count_run elapsed p =
    let m = p.metrics in
    record m {
      reconciliation_runs = m.reconciliation_runs + 1;
      reconciliation_keys = p.keys_reconciled ∷ m.reconciliation_keys;
      reconciliation_latency = elapsed ∷ m.reconciliation_latency;
    }

-- Engine.reconcileWithPeer; the peer appears in log lines only. `none` is a panic in `GetAll`.
unfoldable pub reconcile_with_peer :
    (ℕ → ℤ) → ℤ → String → Engine → Store → Metrics → Option (Store × Metrics)
reconcile_with_peer clock elapsed peer e s m = do
  writes ← Log.get_all (clock 0) e.recent_writes
  let p = reconcile_from clock 1 writes (record { store = s; metrics = m; keys_reconciled = 0 })
  some (p.store, count_run elapsed p)

-- One event of the loop of `Start`: a healed peer taken from the queue. A tick of the timer and an
-- empty queue change nothing.
unfoldable pub serve_event :
    (ℕ → ℤ) → ℤ → Engine → Store → Metrics → Option (Engine × Store × Metrics)
serve_event clock elapsed e s m = elim e.healing_events [
  | [] ↦ some (e, s, m)
  | peer ∷ rest ↦
      let m' = record m { partition_healing = m.partition_healing + 1 } in
      let e' = record e { healing_events = rest } in
      (reconcile_with_peer clock elapsed peer e' s m') >>= λ r. some (e', r.0, r.1)
]
