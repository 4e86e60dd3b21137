-- ===== src/Config/Load.antt =====
-- LoadConfig of internal/config/config.go: the configuration that the environment asks for. The
-- environment and the parsers of the Go library are parameters.
use Prim.Native.String.{◌++◌ as str_append}
use acp_kv.Prelude.{
  Bool, List, Option, String, [], false, if◌then◌else◌, none, pos, some, str_eq, ℕ, ℤ, ◌∷◌, ◌+◌,
  suc, zero, map, length, pos_part, ◌⊎◌, inl, inr, ◌*◌,
}
use acp_kv.Config.{Config, validate}
use acp_kv.Failure.{Error}
use acp_kv.Prelude.Float64.{Float64}

abbrev milliseconds : ℕ → ℤ
milliseconds n = pos (n * 1_000_000)

abbrev seconds : ℕ → ℤ
seconds n = pos (n * 1_000_000_000)

-- A parsed value, or the default where the text does not parse.
unfoldable pub or_default {ℓ} : {A : Type ℓ} → A → Option A → A
or_default d none = d
or_default d (some a) = a

-- fmt.Sprintf("%s.%s.%s.svc.cluster.local:8080", peerName, headlessSvc, namespace)
abbrev pub pod_addr : String → String → String → String
pod_addr peer_name headless_svc namespace = str_append peer_name (
    str_append "."
      (str_append headless_svc (str_append "." (str_append namespace ".svc.cluster.local:8080"))))

module _ (F : Float64) where
  open F use {Carrier}

  -- os.Getenv, whose answer for a name that is not set is "", and what `strconv`, `time` and `strings`
  -- make of a text; `print_int` is how `%d` prints.
  pub record Environment : Type 0 where
    pub getenv : String → String
    pub atoi : String → Option ℤ
    pub parse_duration : String → Option ℤ
    pub parse_bool : String → Option Bool
    pub parse_float : String → Option Carrier
    pub split : String → String → List String
    pub trim_space : String → String
    pub print_int : ℕ → String

  unfoldable pub get_env : Environment → String → String → String
  get_env env key default_value =
      let value = env.getenv key in if str_eq value "" then default_value else value

  unfoldable pub get_int_env : Environment → String → ℤ → ℤ
  unfolding or_default
  get_int_env env key default_value =
      let value = env.getenv key in
      if str_eq value "" then default_value else or_default default_value (env.atoi value)

  unfoldable pub get_duration_env : Environment → String → ℤ → ℤ
  unfolding or_default
  get_duration_env env key default_value =
      let value = env.getenv key in
      if str_eq value "" then default_value else or_default default_value (env.parse_duration value)

  unfoldable pub get_bool_env : Environment → String → Bool → Bool
  unfolding or_default
  get_bool_env env key default_value =
      let value = env.getenv key in
      if str_eq value "" then default_value else or_default default_value (env.parse_bool value)

  unfoldable pub get_float_env : Environment → String → Carrier → Carrier
  unfolding or_default
  get_float_env env key default_value =
      let value = env.getenv key in
      if str_eq value "" then default_value else or_default default_value (env.parse_float value)

  -- fmt.Sprintf("acp-node-%d", i)
  abbrev pub pod_name : Environment → ℕ → String
  pod_name env i = str_append "acp-node-" (env.print_int i)

  -- The loop of `discoverKubernetesPeers` from the i-th pod on, of which `left` are left.
  unfoldable pub pods_from : Environment → String → String → String → ℕ → ℕ → List String
  pods_from env node_id headless_svc namespace i zero = []
  pods_from env node_id headless_svc namespace i (suc left) =
      let rest = pods_from env node_id headless_svc namespace (suc i) left in
      if str_eq (pod_name env i) node_id
      then rest
      else pod_addr (pod_name env i) headless_svc namespace ∷ rest

  -- A cluster size that is not positive runs the loop no times.
  unfoldable pub discover_kubernetes_peers : Environment → String → String → List String
  unfolding pods_from
  discover_kubernetes_peers env node_id headless_svc =
      let cluster_size = get_int_env env "CLUSTER_SIZE" (pos 3) in
      let namespace = get_env env "NAMESPACE" "default" in
      pods_from env node_id headless_svc namespace 0 (pos_part cluster_size)

  -- The peers: of the headless service where there is one, else those that PEERS lists.
  unfoldable pub read_peers : Environment → String → List String
  unfolding discover_kubernetes_peers
  read_peers env node_id =
      let headless_svc = env.getenv "HEADLESS_SERVICE" in
      let peers_str = get_env env "PEERS" "" in
      if str_eq headless_svc ""
      then (if str_eq peers_str "" then [] else map env.trim_space (env.split peers_str ","))
      else discover_kubernetes_peers env node_id headless_svc

  pub record Loaded : Type 0 where
    pub config : Config
    pub ccs_relax_threshold : Carrier
    pub ccs_tighten_threshold : Carrier

  -- LoadConfig up to the check.
  unfoldable pub read_config : Environment → Loaded
  unfolding read_peers get_env get_int_env get_duration_env get_bool_env get_float_env
  read_config env =
      let node_id = get_env env "NODE_ID" "node1" in
      let peers = read_peers env node_id in
      let n = pos (length peers + 1) in
      record {
        config = record {
          node_id = node_id;
          listen_addr = get_env env "LISTEN_ADDR" ":8080";
          peers = peers;
          n = n;
          r = get_int_env env "QUORUM_R" (pos 2);
          w = get_int_env env "QUORUM_W" (pos 2);
          replication_timeout = get_duration_env env "REPLICATION_TIMEOUT" (milliseconds 500);
          health_probe_interval = get_duration_env env "HEALTH_PROBE_INTERVAL" (milliseconds 500);
          metrics_addr = get_env env "METRICS_ADDR" ":9090";
          adaptive_enabled = get_bool_env env "ADAPTIVE_ENABLED" false;
          min_r = get_int_env env "MIN_R" (pos 1);
          max_r = get_int_env env "MAX_R" n;
          min_w = get_int_env env "MIN_W" (pos 1);
          max_w = get_int_env env "MAX_W" n;
          adaptive_interval = get_duration_env env "ADAPTIVE_INTERVAL" (seconds 2);
          hlc_max_drift = get_duration_env env "HLC_MAX_DRIFT" (milliseconds 500);
          max_staleness = get_duration_env env "MAX_STALENESS" (seconds 3);
          reconciliation_enabled = get_bool_env env "RECONCILIATION_ENABLED" false;
          reconciliation_interval = get_duration_env env "RECONCILIATION_INTERVAL" (seconds 30);
        };
        ccs_relax_threshold = get_float_env env "CCS_RELAX_THRESHOLD" (F.decimal 45 2);
        ccs_tighten_threshold = get_float_env env "CCS_TIGHTEN_THRESHOLD" (F.decimal 75 2);
      }

  -- The configuration, or the error that the check found.
  unfoldable pub checked : Loaded → Option Error → Error ⊎ Loaded
  checked loaded (some e) = inl e
  checked loaded none = inr loaded

  -- LoadConfig
  unfoldable pub load_config : Environment → Error ⊎ Loaded
  unfolding checked
  load_config env = checked (read_config env) (validate (read_config env).config)
