-- ===== src/Reconcile/Engine/Tests.antt =====
-- Instances for the reconciliation engine.
use mathlib.Core.List.{Perm}
use acp_kv.Prelude.{
  All, List, String, [], arith, length, pos, refl, select, some, true, ℕ, ℤ, ◌+◌, ◌∷◌, ◌≡◌, ◌≤◌,
}
use acp_kv.Examples.{entry, store}
use acp_kv.Metrics.{Metrics, no_metrics}
use acp_kv.Reconcile.Engine.{Engine, queue_capacity, reconcile_with_peer}
use acp_kv.Reconcile.Engine.Settle.{Advances, IsNotBeaten, reconcile_with_peer_lem}
use acp_kv.Reconcile.Log.{WriteEntry}
use acp_kv.Reconcile.Log.Inv.{IsValid, writes}
use acp_kv.Reconcile.Log.Writes.{fresh}
use acp_kv.Storage.{get, Store}

-- An engine that has logged a write of n3 under a key that the store has.
abbrev engine : Engine
engine = record {
  recent_writes = record {
    entries = entry ∷ [];
    timestamps = pos 950 ∷ [];
    max_size = 1;
    index = 0;
    count = 1;
    max_age = pos 100;
  };
  interval = pos 30;
  enabled = true;
  healing_events = "n2" ∷ [];
}

engine-IsValid : IsValid engine.recent_writes
engine-IsValid = record { sized = refl; stamped = refl; ring = omega arith }

abbrev ticks : ℕ → ℤ
ticks i = pos (1000 + i)

reconcile_with_peer_lem_example :
    (s' : Store) × (m' : Metrics) × (ws : List WriteEntry) × (reconcile_with_peer ticks
        (pos 4)
        "n2"
        engine
        store
        no_metrics
      ≡ some (s', m'))
    × Perm ws (select (fresh (pos 1000) engine.recent_writes) (writes engine.recent_writes))
    × All (λ w. IsNotBeaten (get w.key s') w) ws
    × ((j : String) → Advances (get j store) (get j s'))
reconcile_with_peer_lem_example =
    reconcile_with_peer_lem ticks (pos 4) "n2" engine store no_metrics engine-IsValid

room : length engine.healing_events ≤ queue_capacity
room = omega arith
