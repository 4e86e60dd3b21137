-- ===== src/Config/Asked.antt =====
-- Which variable of the environment sets which field, and where `LoadConfig` fails (internal/config/config.go).
use acp_kv.Prelude.{[], false, length, map, pos, some, ◌+◌, ◌≡◌, ◌≢◌}
use acp_kv.Config.Load.{Environment, Loaded, discover_kubernetes_peers}
use acp_kv.Config.Loads.{IsSetting}
use acp_kv.Prelude.Float64.{Float64}

-- What the environment asks for, by the name and the default of each variable.
pub record IsAsked (F : Float64) (env : Environment F) (l : Loaded F) : Type 0 where
  pub node_id :
      IsSetting (env.getenv "NODE_ID") (some (env.getenv "NODE_ID")) "node1" l.config.node_id
  pub listen_addr :
      IsSetting
        (env.getenv "LISTEN_ADDR")
        (some (env.getenv "LISTEN_ADDR"))
        ":8080"
        l.config.listen_addr
  pub r : IsSetting (env.getenv "QUORUM_R") (env.atoi (env.getenv "QUORUM_R")) (pos 2) l.config.r
  pub w : IsSetting (env.getenv "QUORUM_W") (env.atoi (env.getenv "QUORUM_W")) (pos 2) l.config.w
  pub replication_timeout :
      IsSetting
        (env.getenv "REPLICATION_TIMEOUT")
        (env.parse_duration (env.getenv "REPLICATION_TIMEOUT"))
        (pos 500_000_000)
        l.config.replication_timeout
  pub health_probe_interval :
      IsSetting
        (env.getenv "HEALTH_PROBE_INTERVAL")
        (env.parse_duration (env.getenv "HEALTH_PROBE_INTERVAL"))
        (pos 500_000_000)
        l.config.health_probe_interval
  pub metrics_addr :
      IsSetting
        (env.getenv "METRICS_ADDR")
        (some (env.getenv "METRICS_ADDR"))
        ":9090"
        l.config.metrics_addr
  pub adaptive_enabled :
      IsSetting
        (env.getenv "ADAPTIVE_ENABLED")
        (env.parse_bool (env.getenv "ADAPTIVE_ENABLED"))
        false
        l.config.adaptive_enabled
  pub min_r : IsSetting (env.getenv "MIN_R") (env.atoi (env.getenv "MIN_R")) (pos 1) l.config.min_r
  pub max_r :
      IsSetting (env.getenv "MAX_R") (env.atoi (env.getenv "MAX_R")) l.config.n l.config.max_r
  pub min_w : IsSetting (env.getenv "MIN_W") (env.atoi (env.getenv "MIN_W")) (pos 1) l.config.min_w
  pub max_w :
      IsSetting (env.getenv "MAX_W") (env.atoi (env.getenv "MAX_W")) l.config.n l.config.max_w
  pub adaptive_interval :
      IsSetting
        (env.getenv "ADAPTIVE_INTERVAL")
        (env.parse_duration (env.getenv "ADAPTIVE_INTERVAL"))
        (pos 2_000_000_000)
        l.config.adaptive_interval
  pub hlc_max_drift :
      IsSetting
        (env.getenv "HLC_MAX_DRIFT")
        (env.parse_duration (env.getenv "HLC_MAX_DRIFT"))
        (pos 500_000_000)
        l.config.hlc_max_drift
  pub max_staleness :
      IsSetting
        (env.getenv "MAX_STALENESS")
        (env.parse_duration (env.getenv "MAX_STALENESS"))
        (pos 3_000_000_000)
        l.config.max_staleness
  pub reconciliation_enabled :
      IsSetting
        (env.getenv "RECONCILIATION_ENABLED")
        (env.parse_bool (env.getenv "RECONCILIATION_ENABLED"))
        false
        l.config.reconciliation_enabled
  pub reconciliation_interval :
      IsSetting
        (env.getenv "RECONCILIATION_INTERVAL")
        (env.parse_duration (env.getenv "RECONCILIATION_INTERVAL"))
        (pos 30_000_000_000)
        l.config.reconciliation_interval
  pub ccs_relax_threshold :
      IsSetting
        (env.getenv "CCS_RELAX_THRESHOLD")
        (env.parse_float (env.getenv "CCS_RELAX_THRESHOLD"))
        (F.decimal 45 2)
        l.ccs_relax_threshold
  pub ccs_tighten_threshold :
      IsSetting
        (env.getenv "CCS_TIGHTEN_THRESHOLD")
        (env.parse_float (env.getenv "CCS_TIGHTEN_THRESHOLD"))
        (F.decimal 75 2)
        l.ccs_tighten_threshold
  -- No other node, those that PEERS lists, or the pods of the headless service.
  pub alone : env.getenv "HEADLESS_SERVICE" ≡ "" → env.getenv "PEERS" ≡ "" → l.config.peers ≡ []
  pub listed :
      env.getenv "HEADLESS_SERVICE" ≡ ""
      → env.getenv "PEERS" ≢ ""
      → l.config.peers ≡ map env.trim_space (env.split (env.getenv "PEERS") ",")
  pub pods :
      env.getenv "HEADLESS_SERVICE" ≢ ""
      → l.config.peers
        ≡ discover_kubernetes_peers F env l.config.node_id (env.getenv "HEADLESS_SERVICE")
  pub n : l.config.n ≡ pos (length l.config.peers + 1)
