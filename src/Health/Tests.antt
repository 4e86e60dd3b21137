-- ===== src/Health/Tests.antt =====
-- Instances for the probe.
use acp_kv.Prelude.{
  ℕ, str_eq_iff, All, List, get_elem?, refl, ◌≢◌, [], false, if◌then◌else◌, none, pos, some, str_eq,
  true, ◌∷◌, ◌≡◌,
}
use acp_kv.Health.{Probe}
use acp_kv.Examples.{server}
use acp_kv.Failure.{rpc}
use acp_kv.Health.{reconcile_probes}
use acp_kv.Health.Peers.{links, links-reconcile_probes}
use acp_kv.Replication.{Dial, reconcile_peers}
use acp_kv.Health.Probers.{
  Event, Probes, adds, checking, legacy_prober, moves, new_prober, removes, returns, serve_all,
  ticks,
}
use acp_kv.Health.Probers.Doubled.{checks_twice}
use acp_kv.Health.Probers.Quiet.{IsGone, IsNotOf, serve_all-Keeps}
use acp_kv.Prelude.Map.{lookup}
use acp_kv.Metrics.{no_metrics}
use acp_kv.Proto.{HealthResponse, Reply, answered}
use acp_kv.Reconcile.Engine.{new_engine}

abbrev probe : Probe
probe = record {
  peers = ("n2", "dns:///n2") ∷ [];
  conns = ("n2", "dns:///n2") ∷ [];
  probes = "n2" ∷ [];
  peer_status = ("n2", false) ∷ [];
  healing_listener = some (new_engine (pos 30) true);
  metrics = no_metrics;
}

abbrev healthy : Reply HealthResponse
healthy = answered (record { healthy = true; node_id = "n2"; timestamp = pos 5; hlc = none })

-- n4 cannot be dialled, and n2 is gone.
abbrev dial : Dial
dial = λ a. if str_eq a "dns:///n4" then some (rpc "no such host") else none

links-reconcile_probes_example :
    links server.coordinator (reconcile_probes dial ("n3" ∷ "n4" ∷ []) probe)
    ≡ reconcile_peers dial ("n3" ∷ "n4" ∷ []) (links server.coordinator probe)
links-reconcile_probes_example =
    links-reconcile_probes server.coordinator dial ("n3" ∷ "n4" ∷ []) probe

-- The probe starts with n2, and its goroutine waits for its tick.
abbrev probes : Probes
probes = record {
  probe = probe;
  cancels = [];
  stopped = false;
  finished = false;
  probers = legacy_prober "n2" ∷ [];
}

n2_connected : lookup "n2" probe.conns ≡ some "dns:///n2"
unfolding lookup
n2_connected = refl

no_cancel : lookup "n2" probes.cancels ≡ none
unfolding lookup
no_cancel = refl

checks_twice_example :
    let q =
      serve_all
        (removes "n2" ∷ adds dial "n2" ∷ moves 1 ticks ∷ moves 1 ticks ∷ moves 0 ticks ∷ [])
        probes in
    (◌≢◌ {A = ℕ} 0 1)
    × (get_elem? q.probers 0 ≡ some (record (legacy_prober "n2") { phase = checking }))
    × (get_elem? q.probers 1 ≡ some (record (new_prober "n2") { phase = checking }))
checks_twice_example =
    checks_twice dial "n2" "dns:///n2" 0 (legacy_prober "n2") probes refl refl refl no_cancel
      n2_connected refl

-- n2 is removed while its goroutine waits; then that ticks, and n3 comes.
abbrev removed : Probes
removed = record probes { probe = record probe { peers = []; conns = [] } }

abbrev later : List Event
later =
    moves 0 ticks
    ∷ adds dial "n3"
    ∷ moves 1 ticks
    ∷ moves 1 ticks
    ∷ moves 1 (returns healthy (pos 3))
    ∷ []

n2_removed : IsGone "n2" removed
unfolding lookup
n2_removed = (refl, (λ e c. cc (c), tt))

later_other : All (IsNotOf "n2") later
later_other = (tt, (λ e. cc ((str_eq_iff "n3" "n2").1 e), (tt, (tt, (tt, tt)))))

serve_all-Keeps_example :
    IsGone "n2" (serve_all later removed)
    × (lookup "n2" (serve_all later removed).probe.peer_status
        ≡ lookup "n2" removed.probe.peer_status)
serve_all-Keeps_example = serve_all-Keeps "n2" later removed later_other n2_removed
