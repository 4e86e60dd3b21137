-- ===== src/Node/Boot.antt =====
-- What a node that starts is like (cmd/acp-node/main.go).
use acp_kv.Storage
use acp_kv.Prelude.{
  List, String, Option, Bool-cases, arith, inl, inr, length, none, refl, some, ◌&&◌, ◌+◌, ◌+ℤ◌, ◌<◌,
  ◌<ℤ◌, ◌^◌, ◌≡◌, ℤ, ◌⊎◌, ap, sym, ◌∙◌, subst,
}
use acp_kv.Adaptive.Adjuster.{Adjuster, Gauges, Times, run_cycles, new_adjuster}
use acp_kv.Adaptive.Adjuster.Laws.{IsTuned, total, run_cycles-IsTuned}
use acp_kv.Adaptive.Quorum.{new_adaptive_quorum, AdaptiveQuorum}
use acp_kv.Adaptive.Quorum.Safe.{HasBounds, IsInBounds}
use acp_kv.Config.{Config}
use acp_kv.Config.Load.{Environment, Loaded, load_config, read_config}
use acp_kv.Config.Loads.{load_config_iff}
use acp_kv.Config.Valid.{IsSound}
use acp_kv.Failure.{Error}
use acp_kv.Health.{new_probe, Probe, set_healing_listener}
use acp_kv.Health.Peers.{links-new_probe}
use acp_kv.Metrics.Reader.{Registry}
use acp_kv.Node.{
  Node, start, started, assemble, listen, first_provider, first_adjuster, first_quorum,
  first_engine, first_metrics,
}
use acp_kv.Prelude.Float64.{Float64}
use acp_kv.Reconcile.Engine.{Engine}
use acp_kv.Replication.{Dial, contains}
use acp_kv.Replication.Peers.{IsPaired, can_dial, is_connected, new_coordinator_lem}
use acp_kv.Storage.{new_store}
use acp_kv.Server.{new_server, get_r, get_w}

-- The node serves with the sizes of a sound configuration, which intersect; nothing is stored; and it
-- is connected, and its probe too, to exactly the peers that the configuration lists and that can be dialled.
pub record IsReady (F : Float64) (c : Config) (dial : Dial) (node : Node F) : Type 0 where
  pub sound : IsSound c
  pub reads : get_r node.server.quorum_provider ≡ c.r
  pub writes : get_w node.server.quorum_provider ≡ c.w
  pub empty : (key : String) → Storage.get key node.server.store ≡ none
  pub paired : IsPaired node.server.coordinator
  pub connected :
      (a : String)
      → is_connected a node.server.coordinator ≡ (contains a c.peers && can_dial dial a)
  pub probed : node.probe.peers ≡ node.server.coordinator.peers

first_sizes : (c : Config) → (get_r (first_provider c) ≡ c.r) × (get_w (first_provider c) ≡ c.w)
unfolding first_provider get_r get_w new_adaptive_quorum acp_kv.Adaptive.Quorum.get_r
    acp_kv.Adaptive.Quorum.get_w acp_kv.Config.get_r acp_kv.Config.get_w
first_sizes c = elim (Bool-cases c.adaptive_enabled) [
  | inl on ↦ rw on (refl, refl)
  | inr off ↦ rw off (refl, refl)
]

listen_peers : (o : Option Engine) (p : Probe) → (listen o p).peers ≡ p.peers
unfolding listen set_healing_listener
listen_peers none p = refl
listen_peers (some e) p = refl

assemble-IsReady :
    (F : Float64) (env : Environment F) (dial : Dial) (now : ℤ) (gauges : Gauges F) (l : Loaded F)
    → IsSound l.config
    → IsReady F l.config dial (assemble F env dial now gauges l)
unfolding assemble new_server new_store Storage.get acp_kv.Prelude.Map.lookup
assemble-IsReady F env dial now gauges l sound =
    let c = l.config in
    let (r, w) = first_sizes c in
    record {
      sound = sound;
      reads = r;
      writes = w;
      empty = λ key. refl;
      paired = (new_coordinator_lem dial c.node_id c.peers c.replication_timeout "").1;
      connected = λ a. (new_coordinator_lem dial c.node_id c.peers c.replication_timeout a).0;
      probed =
          listen_peers (first_engine c) (new_probe dial c.peers (first_metrics c))
          ∙ links-new_probe dial c.node_id c.peers c.replication_timeout (first_metrics c);
    }

-- A node that starts is put together from the configuration that was loaded.
start_assembles :
    (F : Float64) (env : Environment F) (dial : Dial) (now : ℤ) (gauges : Gauges F)
    (o : Error ⊎ Loaded F) (node : Node F)
    → started F env dial now gauges o ≡ inr node
    → (l : Loaded F) × (o ≡ inr l) × (node ≡ assemble F env dial now gauges l)
unfolding started
start_assembles F env dial now gauges (inl x) node e = absurd (cc (e))
start_assembles F env dial now gauges (inr l) node e = (l, refl, cc (e))

-- A node that starts is ready, with the configuration that the environment asks for. There are fewer
-- than 2^62 - 1 peers.
pub start-IsReady :
    (F : Float64) (env : Environment F) (dial : Dial) (now : ℤ) (gauges : Gauges F) (node : Node F)
    → length (read_config F env).config.peers + 1 < 2 ^ 62
    → start F env dial now gauges ≡ inr node
    → IsReady F (read_config F env).config dial node
unfolding start
start-IsReady F env dial now gauges node small e =
    let (l, loaded, same) = start_assembles F env dial now gauges (load_config F env) node e in
    let (read, sound) = (load_config_iff F env l small).0.0 loaded in
    subst (λ n. IsReady F (read_config F env).config dial n) (sym same)
      (subst (λ (k : Loaded F). IsReady F k.config dial (assemble F env dial now gauges l)) read
        (assemble-IsReady F env dial now gauges l sound))

-- The quorum of a controller, if there is one.
abbrev quorum_or : {F : Float64} → AdaptiveQuorum → Option (Adjuster F) → AdaptiveQuorum
quorum_or q none = q
quorum_or q (some a) = a.quorum

first_adjuster_quorum :
    (F : Float64) (l : Loaded F) (gauges : Gauges F) (a : Adjuster F)
    → first_adjuster F l gauges ≡ some a
    → a.quorum ≡ first_quorum l.config
unfolding first_adjuster new_adjuster
first_adjuster_quorum F l gauges a e = elim (Bool-cases l.config.adaptive_enabled) [
  | inl on ↦
      ap (λ (o : Option (Adjuster F)). quorum_or (first_quorum l.config) o) (sym e) ∙ rw on refl
  | inr off ↦ absurd (cc (rw off at e))
]

first_quorum-IsTuned :
    (c : Config)
    → IsSound c
    → HasBounds (first_quorum c)
    → IsInBounds (first_quorum c)
    → IsTuned (first_quorum c)
unfolding new_adaptive_quorum
first_quorum-IsTuned c sound bounds inside = record {
  bounds = bounds;
  safe = record {
    intersects = sound.intersects;
    r_fits = ground (arith, bounds, inside);
    w_fits = ground (arith, bounds, inside);
  };
  inside = inside;
}

first_total : (c : Config) → total (first_quorum c) ≡ c.r +ℤ c.w
unfolding new_adaptive_quorum
first_total c = refl

-- Where the configured bounds lie in range and the configured sizes lie in the bounds, the controller of a
-- node that starts keeps R and W intersecting and in their bounds, and R + W as configured, over any number
-- of cycles. `LoadConfig` does not check these two conditions. There are fewer than 2^62 - 1 peers.
pub start-IsTuned :
    (F : Float64) (env : Environment F) (dial : Dial) (now : ℤ) (gauges : Gauges F) (node : Node F)
    (a : Adjuster F) (cycles : List (Times × Registry F × List String))
    → length (read_config F env).config.peers + 1 < 2 ^ 62
    → start F env dial now gauges ≡ inr node
    → node.adjuster ≡ some a
    → HasBounds (first_quorum (read_config F env).config)
    → IsInBounds (first_quorum (read_config F env).config)
    → let q = (run_cycles F cycles a).quorum in
      IsTuned q × (total q ≡ (read_config F env).config.r +ℤ (read_config F env).config.w)
unfolding start assemble first_adjuster
start-IsTuned F env dial now gauges node a cycles small e there bounds inside =
    let (l, loaded, same) = start_assembles F env dial now gauges (load_config F env) node e in
    let (read, sound) = (load_config_iff F env l small).0.0 loaded in
    let c = (read_config F env).config in
    let adjusts : first_adjuster F l gauges ≡ some a =
      ap (λ (n : Node F). n.adjuster) (sym same) ∙ there in
    let q : a.quorum ≡ first_quorum c =
      first_adjuster_quorum F l gauges a adjusts
      ∙ ap (λ (k : Loaded F). first_quorum k.config) read in
    let tuned =
      first_quorum-IsTuned c (subst (λ (k : Loaded F). IsSound k.config) read sound) bounds
        inside in
    let (kept, sum) = run_cycles-IsTuned F cycles a (subst IsTuned (sym q) tuned) in
    (kept, sum ∙ ap total q ∙ first_total c)
