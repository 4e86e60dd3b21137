-- ===== src/Examples.antt =====
-- A cluster of three nodes, as the configuration of `cmd/acp-node` would set it up, on which the tests
-- of the other modules run.
use Prim.Native.String.{◌++◌ as str_append}
use acp_kv.Prelude.{
  some, suc, zero, List, String, [], if◌then◌else◌, none, pos, str_eq, true, ◌∷◌, ltb, not, ℕ, ◌*◌,
  ◌+◌, ◌-◌, ◌/◌, ◌==◌, ◌^◌,
}
use acp_kv.Adaptive.Quorum.{AdaptiveQuorum}
use acp_kv.Config.{Config}
use acp_kv.Config.Load.{Environment}
use acp_kv.Failure.{Error, rpc}
use acp_kv.Hlc.{Clock, Hlc}
use acp_kv.Metrics.{no_metrics}
use acp_kv.Prelude.Float64.{Float64}
use acp_kv.Proto.{GetRequest, PutRequest, answered, failed}
use acp_kv.Reconcile.Log.{WriteEntry}
use acp_kv.Replication.{Coordinator, new_coordinator}
use acp_kv.Server.{Server, World, fixed, not_found}
use acp_kv.Staleness.{Detector}
use acp_kv.Storage.{Store, VersionedValue, stamped}

-- N = 3, R = 2, W = 2.
abbrev pub config : Config
config = record {
  node_id = "n1";
  listen_addr = ":8080";
  peers = "n2" ∷ "n3" ∷ [];
  n = pos 3;
  r = pos 2;
  w = pos 2;
  replication_timeout = pos 500_000_000;
  health_probe_interval = pos 500_000_000;
  metrics_addr = ":9090";
  adaptive_enabled = true;
  min_r = pos 1;
  max_r = pos 3;
  min_w = pos 1;
  max_w = pos 3;
  adaptive_interval = pos 2_000_000_000;
  hlc_max_drift = pos 500_000_000;
  max_staleness = pos 3_000_000_000;
  reconciliation_enabled = true;
  reconciliation_interval = pos 30_000_000_000;
}

abbrev pub clock_of : String → Clock
clock_of id = record { physical = pos 1000; logical = pos 3; node_id = id; max_drift = pos 500 }

abbrev pub old_stamp : Hlc
old_stamp = record { physical = pos 900; logical = pos 0; node_id = "n2" }

abbrev pub old_value : VersionedValue
old_value = stamped (pos 900) (7 ∷ []) "n2" old_stamp

-- A store with one key.
abbrev pub store : Store
store = record { entries = ("k", old_value) ∷ [] }

abbrev pub peers_of : List String → Coordinator
peers_of addrs = new_coordinator (λ a. none) "n1" addrs (pos 500)

abbrev pub entry : WriteEntry
entry = record {
  key = "k";
  value = 9 ∷ [];
  node_id = "n3";
  hlc = record { physical = pos 950; logical = pos 0; node_id = "n3" };
  timestamp = pos 950;
}

abbrev pub detector : Detector
detector = record { max_age = pos 300 }

abbrev pub server : Server
server = record {
  node_id = "n1";
  store = store;
  coordinator = record {
    node_id = "n1";
    peers = ("n2", "dns:///n2") ∷ ("n3", "dns:///n3") ∷ [];
    conns = ("n2", "dns:///n2") ∷ ("n3", "dns:///n3") ∷ [];
    configured_peers = "n2" ∷ "n3" ∷ [];
    timeout = pos 500;
  };
  quorum_provider = fixed config;
  metrics = no_metrics;
  hlc_clock = clock_of "n1";
  staleness_detector = detector;
  reconciler = none;
}

-- The same node with a read quorum of one.
abbrev pub reads_alone : Server
reads_alone = record server { quorum_provider = fixed (record config { r = pos 1; w = pos 3 }) }

abbrev pub timed_out : Error
timed_out = rpc "deadline exceeded"

-- One peer acknowledges a write, and answers a read without a value; the other does not answer.
abbrev pub world : World
world = record {
  first = pos 1010;
  second = pos 1011;
  third = pos 1012;
  elapsed = pos 5;
  arrivals = "n2" ∷ "n3" ∷ [];
  on_replicate = λ req a. record {
    reply =
        if str_eq a "n2"
        then answered (record { success = true; error = none; node_id = a })
        else failed timed_out;
    latency = pos 3;
  };
  on_get_local = λ req a. if str_eq a "n2" then answered not_found else failed timed_out;
}

abbrev pub put_k : PutRequest
put_k = record { key = "k"; value = 8 ∷ [] }

abbrev pub get_k : GetRequest
get_k = record { key = "k" }

-- Numbers in thousandths, as an instance of the operations of `float64`.
abbrev pub thousandths : Float64
thousandths = record {
  Carrier = ℕ;
  add = λ a b. a + b;
  sub = λ a b. a - b;
  mul = λ a b. a * b / 1000;
  div = λ a b. a * 1000 / b;
  least = λ a b. if ltb a b then a else b;
  less = ltb;
  at_most = λ a b. not (ltb b a);
  is_equal = λ a b. a == b;
  from_nat = λ n. n * 1000;
  decimal = λ n k. n * 1000 / 10 ^ k;
}

abbrev pub quorum : AdaptiveQuorum
quorum = record {
  current_r = pos 2;
  current_w = pos 2;
  n = pos 3;
  min_r = pos 1;
  max_r = pos 3;
  min_w = pos 1;
  max_w = pos 3;
  last_adjust_time = pos 0;
  lockout_duration = pos 5_000_000_000;
}

-- Numbers in strokes.
abbrev pub strokes : ℕ → String
strokes zero = ""
strokes (suc n) = str_append "i" (strokes n)

-- The environment of a pod with the controller on; the rest has its defaults.
abbrev pub pods : Environment thousandths
pods = record {
  getenv = λ key.
      if str_eq key "HEADLESS_SERVICE"
      then "acp-headless"
      else if str_eq key "NODE_ID"
      then "acp-node-i"
      else if str_eq key "ADAPTIVE_ENABLED"
      then "true"
      else "";
  atoi = λ text. none;
  parse_duration = λ text. none;
  parse_bool = λ text. if str_eq text "true" then some true else none;
  parse_float = λ text. none;
  split = λ text separator. text ∷ [];
  trim_space = λ text. text;
  print_int = strokes;
}
