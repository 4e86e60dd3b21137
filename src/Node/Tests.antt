-- ===== src/Node/Tests.antt =====
-- Instances for a node.
use acp_kv.Prelude.{
  List, String, [], arith, inr, length, none, pos, refl, some, ◌+ℤ◌, ◌+◌, ◌<◌, ◌^◌, ◌∷◌, ◌≡◌,
}
use acp_kv.Adaptive.Adjuster.{Adjuster, Gauges, Times, new_adjuster, run_cycles}
use acp_kv.Adaptive.Adjuster.Laws.{IsTuned, total}
use acp_kv.Adaptive.Ccs.{new_ccs_computer}
use acp_kv.Adaptive.Quorum.Safe.{HasBounds, IsInBounds}
use acp_kv.Config.Load.{Loaded, load_config, read_config}
use acp_kv.Examples.{pods, thousandths}
use acp_kv.Metrics.Reader.{Registry}
use acp_kv.Node.{Node, assemble, first_metrics, first_quorum, start}
use acp_kv.Node.Boot.{IsReady, start-IsReady, start-IsTuned}
use acp_kv.Replication.{Dial}

abbrev dial : Dial
dial = λ a. none

abbrev gauges : Gauges thousandths
gauges = record {
  rtt_variance = [];
  ccs_raw = 0;
  ccs_smoothed = 0;
  ccs_components = record {
    rtt_health = 0;
    avail_health = 0;
    var_health = 0;
    error_health = 0;
    clock_health = 0;
  };
}

abbrev loaded : Loaded thousandths
loaded = read_config thousandths pods

abbrev node : Node thousandths
node = assemble thousandths pods dial (pos 1000) gauges loaded

few : length (read_config thousandths pods).config.peers + 1 < 2 ^ 62
unfolding read_config
few = omega arith

starts : start thousandths pods dial (pos 1000) gauges ≡ inr node
unfolding start load_config acp_kv.Config.validate acp_kv.Prelude.add64 read_config
starts = refl

start-IsReady_example : IsReady thousandths loaded.config dial node
start-IsReady_example = start-IsReady thousandths pods dial (pos 1000) gauges node few starts

abbrev controller : Adjuster thousandths
controller =
    new_adjuster thousandths (first_quorum loaded.config) (new_ccs_computer thousandths)
      loaded.ccs_relax_threshold loaded.ccs_tighten_threshold (first_metrics loaded.config) gauges

controls : node.adjuster ≡ some controller
unfolding assemble read_config
controls = refl

bounds : HasBounds (first_quorum loaded.config)
unfolding read_config acp_kv.Adaptive.Quorum.new_adaptive_quorum
bounds = (omega arith, omega arith, omega arith, omega arith)

inside : IsInBounds (first_quorum loaded.config)
unfolding read_config acp_kv.Adaptive.Quorum.new_adaptive_quorum
inside = (omega arith, omega arith, omega arith, omega arith)

-- Nothing was measured yet.
abbrev no_registry : Registry thousandths
no_registry = record {
  write_success = none;
  write_failure = none;
  replicate_latency = λ peer. none;
  health_rtt = λ peer. none;
  hlc_drift = λ peer. none;
}

abbrev times : Times
times = record { gauged = pos 10; checked = pos 11; applied = pos 12; adjusted = pos 13 }

abbrev cycles : List (Times × Registry thousandths × List String)
cycles = (times, no_registry, loaded.config.peers) ∷ []

start-IsTuned_example :
    let q = (run_cycles thousandths cycles controller).quorum in
    IsTuned q × (total q ≡ loaded.config.r +ℤ loaded.config.w)
start-IsTuned_example =
    start-IsTuned thousandths pods dial (pos 1000) gauges node controller cycles few starts controls
      bounds inside
