-- ===== src/Node.antt =====
-- cmd/acp-node/main.go: the parts that a node starts with and how they are put together. The gRPC and
-- metrics servers, signals and logging are left out. The reconciliation engine, the adaptive quorum and the
-- metrics, which the parts share, stand in each of them as they are at the start.
pub mod Boot
mod Tests
use acp_kv.Adaptive.Quorum
use acp_kv.Prelude.{Option, String, if◌then◌else◌, inl, inr, none, some, str_eq, ℤ, ◌⊎◌}
use acp_kv.Adaptive.Adjuster.{Adjuster, Gauges, new_adjuster}
use acp_kv.Adaptive.Ccs.{new_ccs_computer}
use acp_kv.Adaptive.Quorum.{AdaptiveQuorum, new_adaptive_quorum}
use acp_kv.Config.{Config}
use acp_kv.Config.Load.{Environment, Loaded, get_env, load_config}
use acp_kv.Failure.{Error}
use acp_kv.Health.{Probe, new_probe, set_healing_listener}
use acp_kv.Hlc.{new_clock}
use acp_kv.Metrics.{Metrics, no_metrics}
use acp_kv.Prelude.Float64.{Float64}
use acp_kv.Reconcile.Engine.{Engine, new_engine}
use acp_kv.Replication.{Dial, new_coordinator}
use acp_kv.Server.{QuorumProvider, Server, adaptive, fixed, new_server}
use acp_kv.Staleness.{new_detector}
use acp_kv.Storage.{new_store}

-- The gauges of the static sizes.
abbrev pub first_metrics : Config → Metrics
first_metrics c = record no_metrics { current_r = c.r; current_w = c.w }

-- "initialize reconciliation engine"
unfoldable pub first_engine : Config → Option Engine
first_engine c =
    if c.reconciliation_enabled
    then some (new_engine c.reconciliation_interval c.reconciliation_enabled)
    else none

-- "set reconciler as healing listener on probe"
unfoldable pub listen : Option Engine → Probe → Probe
listen none p = p
listen (some e) p = set_healing_listener e p

abbrev pub first_quorum : Config → AdaptiveQuorum
first_quorum c = new_adaptive_quorum c.r c.w c.n c.min_r c.max_r c.min_w c.max_w

-- "initialize quorum provider (static or adaptive)"
unfoldable pub first_provider : Config → QuorumProvider
first_provider c = if c.adaptive_enabled then adaptive (first_quorum c) else fixed c

module _ (F : Float64) where
  open F use {Carrier}

  pub record Node : Type 0 where
    pub server : Server
    pub probe : Probe
    pub adjuster : Option (Adjuster F)
    -- The headless service and the namespace that discovery asks for, if it runs.
    pub discovery : Option (String × String)

  -- The controller, where the configuration asks for it.
  unfoldable pub first_adjuster : Loaded F → Gauges F → Option (Adjuster F)
  first_adjuster l gauges =
      if l.config.adaptive_enabled
      then some (
          new_adjuster F (first_quorum l.config) (new_ccs_computer F) l.ccs_relax_threshold
            l.ccs_tighten_threshold (first_metrics l.config) gauges)
      else none

  -- "start dynamic peer discovery if in kubernetes"
  unfoldable pub first_discovery : Environment F → Option (String × String)
  first_discovery env =
      let headless_svc = env.getenv "HEADLESS_SERVICE" in
      if str_eq headless_svc ""
      then none
      else some (headless_svc, get_env F env "NAMESPACE" "default")

  unfoldable pub assemble : Environment F → Dial → ℤ → Gauges F → Loaded F → Node
  unfolding first_engine listen first_provider first_adjuster first_discovery
  assemble env dial now gauges l =
      let c = l.config in
      let m = first_metrics c in
      let engine = first_engine c in
      let coordinator = new_coordinator dial c.node_id c.peers c.replication_timeout in
      record {
        server =
            new_server c.node_id new_store coordinator (first_provider c) m
              (new_clock now c.node_id c.hlc_max_drift) (new_detector c.max_staleness) engine;
        probe = listen engine (new_probe dial c.peers m);
        adjuster = first_adjuster l gauges;
        discovery = first_discovery env;
      }

  unfoldable pub started : Environment F → Dial → ℤ → Gauges F → Error ⊎ Loaded F → Error ⊎ Node
  unfolding assemble
  started env dial now gauges (inl e) = inl e
  started env dial now gauges (inr l) = inr (assemble env dial now gauges l)

  -- main, up to the servers: it exits with the error of `LoadConfig`. `Validate`, which it calls once
  -- more, was called there.
  unfoldable pub start : Environment F → Dial → ℤ → Gauges F → Error ⊎ Node
  unfolding started
  start env dial now gauges = started env dial now gauges (load_config F env)
