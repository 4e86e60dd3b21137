-- ===== src/Metrics/Reader/Laws.antt =====
-- What the adjuster takes for the number of reachable peers (internal/metrics/reader.go).
use acp_kv.Prelude.{
  Bool, List, Option-cases, String, [], arith, if◌then◌else◌, inl, inr, is_some, length, refl,
  select, ◌%◌, ◌+◌, ◌^◌, ◌∷◌, ◌≡◌,
}
use acp_kv.Metrics.Reader.{
  Registry, Totals, get_all_peers_latency_stats, get_histogram_stats, get_peer_latency_stats,
  total_from,
}
use acp_kv.Prelude.Float64.{Float64}

-- The registry has statistics of the peer.
abbrev pub has_stats : {F : Float64} → Registry F → String → Bool
has_stats reg peer = is_some (reg.replicate_latency peer)

successful_peers-total_from :
    (F : Float64) (reg : Registry F) (peers : List String) (t : Totals F)
    → (total_from F reg peers t).successful_peers
      ≡ t.successful_peers + length (select (has_stats reg) peers)
unfolding total_from get_peer_latency_stats
successful_peers-total_from F reg [] t = omega arith
successful_peers-total_from F reg (peer ∷ peers) t =
    elim (Option-cases (reg.replicate_latency peer)) [
      | inl absent ↦ rw (absent, total_from) (successful_peers-total_from F reg peers t)
      | inr (h, there) ↦
          rw (there, total_from)
            (ground (
              arith,
              successful_peers-total_from F reg peers (record {
                total_count = (t.total_count + (get_histogram_stats F h).samples) % 2 ^ 64;
                total_sum = F.add t.total_sum (get_histogram_stats F h).sum;
                max_p95 =
                    if F.less t.max_p95 (get_histogram_stats F h).p95
                    then (get_histogram_stats F h).p95
                    else t.max_p95;
                successful_peers = t.successful_peers + 1;
              }),
            ))
    ]

-- The number of samples that the statistics over all peers report is the number of peers that the
-- registry has statistics of.
pub get_all_peers_latency_stats_lem :
    (F : Float64) (reg : Registry F) (peers : List String)
    → (get_all_peers_latency_stats F reg peers).samples ≡ length (select (has_stats reg) peers)
unfolding get_all_peers_latency_stats
get_all_peers_latency_stats_lem F reg [] = refl
get_all_peers_latency_stats_lem F reg (peer ∷ peers) = ground (
  arith,
  successful_peers-total_from F reg (peer ∷ peers) (record {
    total_count = 0;
    total_sum = F.from_nat 0;
    max_p95 = F.from_nat 0;
    successful_peers = 0;
  }),
)
