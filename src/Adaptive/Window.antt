-- ===== src/Adaptive/Window.antt =====
-- internal/adaptive/ccs.go: MetricsWindow, a circular buffer of samples.
pub mod Laws
mod Tests
use acp_kv.Prelude.{List, [], replicate, if◌then◌else◌, ltb, set, take, ℕ, ◌%◌, ◌+◌, ◌==◌, ◌∷◌}
use acp_kv.Prelude.Float64.{Float64}

module _ (F : Float64) where
  open F use {Carrier}

  pub record MetricsWindow : Type 0 where
    pub samples : List Carrier
    pub size : ℕ
    pub index : ℕ
    pub count : ℕ

  unfoldable pub new_metrics_window : ℕ → MetricsWindow
  new_metrics_window size = record {
    samples = replicate size (F.from_nat 0);
    size = size;
    index = 0;
    count = 0;
  }

  -- MetricsWindow.Add. A write out of range would be a panic; `IsRing` rules it out.
  unfoldable pub add_sample : Carrier → MetricsWindow → MetricsWindow
  add_sample value mw = record mw {
    samples = set mw.samples mw.index value;
    index = (mw.index + 1) % mw.size;
    count = if ltb mw.count mw.size then mw.count + 1 else mw.count;
  }

  -- The loop that adds up samples.
  unfoldable pub sum_from : Carrier → List Carrier → Carrier
  sum_from sum [] = sum
  sum_from sum (x ∷ xs) = sum_from (F.add sum x) xs

  -- MetricsWindow.GetAverage; the loop reads the first `count` samples.
  unfoldable pub get_average : MetricsWindow → Carrier
  unfolding sum_from
  get_average mw =
      if mw.count == 0
      then F.from_nat 0
      else F.div (sum_from (F.from_nat 0) (take mw.count mw.samples)) (F.from_nat mw.count)

  -- The loop that adds up squared differences.
  unfoldable pub squares_from : Carrier → Carrier → List Carrier → Carrier
  squares_from mean variance [] = variance
  squares_from mean variance (x ∷ xs) =
      let diff = F.sub x mean in squares_from mean (F.add variance (F.mul diff diff)) xs

  -- MetricsWindow.GetVariance
  unfoldable pub get_variance : MetricsWindow → Carrier
  unfolding sum_from squares_from
  get_variance mw =
      let used = take mw.count mw.samples in
      let mean = F.div (sum_from (F.from_nat 0) used) (F.from_nat mw.count) in
      if mw.count == 0
      then F.from_nat 0
      else F.div (squares_from mean (F.from_nat 0) used) (F.from_nat mw.count)
