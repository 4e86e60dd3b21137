-- ===== src/Config/Valid.antt =====
-- What an accepted configuration guarantees (internal/config/config.go).
use acp_kv.Prelude.{
  +ℤ_parts, add64_parts, arith, none, pos, str_eq_iff, ◌+ℤ◌, ◌<ℤ◌, ◌^◌, ◌↔◌, ◌≡◌, ◌≢◌, ◌≤ℤ◌,
}
use acp_kv.Config.{validate, Config}

-- A named node and quorums that share a node, in a cluster of at least three.
pub record IsSound (c : Config) : Type 0 where
  pub named : c.node_id ≢ ""
  pub nodes : pos 3 ≤ℤ c.n
  pub r_low : pos 1 ≤ℤ c.r
  pub r_high : c.r ≤ℤ c.n
  pub w_low : pos 1 ≤ℤ c.w
  pub w_high : c.w ≤ℤ c.n
  pub intersects : c.n <ℤ c.r +ℤ c.w

-- `Validate` accepts exactly the sound configurations. The cluster has fewer than 2^62 nodes, so that
-- `R + W` does not overflow.
pub validate_iff : (c : Config) → c.n <ℤ pos (2 ^ 62) → (validate c ≡ none) ↔ IsSound c
unfolding validate
validate_iff c small = (
  λ e. record {
    named = λ q. ground (arith, str_eq_iff c.node_id "");
    nodes = ground arith;
    r_low = ground arith;
    r_high = ground arith;
    w_low = ground arith;
    w_high = ground arith;
    intersects = ground (arith, add64_parts c.r c.w, +ℤ_parts c.r c.w);
  },
  λ s. ground (
    arith,
    str_eq_iff c.node_id "",
    add64_parts c.r c.w,
    +ℤ_parts c.r c.w,
    s.named,
    s.intersects,
  ),
)
