-- ===== src/Config.antt =====
-- internal/config/config.go: the node's configuration and its check.
pub mod Valid
pub mod Load
pub mod Loads
pub mod Asked
pub mod Pods
pub mod PodAddr
mod Tests
use acp_kv.Prelude.{
  Bool, List, Option, String, add64, if◌then◌else◌, leb_ℤ, ltb_ℤ, none, pos, some, str_eq, ℤ, ◌||◌,
}
use acp_kv.Failure.{
  Error, empty_node_id, no_intersection, r_out_of_range, too_few_nodes, w_out_of_range,
}

-- The two thresholds of the controller, which are floats, stand beside it in `Config.Load`. Durations
-- are in nanoseconds.
pub record Config : Type 0 where
  pub node_id : String
  pub listen_addr : String
  pub peers : List String
  pub n : ℤ
  pub r : ℤ
  pub w : ℤ
  pub replication_timeout : ℤ
  pub health_probe_interval : ℤ
  pub metrics_addr : String
  pub adaptive_enabled : Bool
  pub min_r : ℤ
  pub max_r : ℤ
  pub min_w : ℤ
  pub max_w : ℤ
  pub adaptive_interval : ℤ
  pub hlc_max_drift : ℤ
  pub max_staleness : ℤ
  pub reconciliation_enabled : Bool
  pub reconciliation_interval : ℤ

-- Config.Validate; Go's `<` and `<=` on `int`.
unfoldable pub validate : Config → Option Error
validate c =
    if str_eq c.node_id ""
    then some empty_node_id
    else if ltb_ℤ c.n (pos 3)
    then some (too_few_nodes c.n)
    else if ltb_ℤ c.r (pos 1) || ltb_ℤ c.n c.r
    then some (r_out_of_range c.n c.r)
    else if ltb_ℤ c.w (pos 1) || ltb_ℤ c.n c.w
    then some (w_out_of_range c.n c.w)
    else if leb_ℤ (add64 c.r c.w) c.n
    then some no_intersection
    else none

unfoldable pub get_r : Config → ℤ
get_r c = c.r

unfoldable pub get_w : Config → ℤ
get_w c = c.w

unfoldable pub get_n : Config → ℤ
get_n c = c.n
