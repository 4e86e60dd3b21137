-- ===== src/Adaptive/Ccs.antt =====
-- internal/adaptive/ccs.go: the consistency confidence score of the cluster.
use acp_kv.Adaptive.Window.{MetricsWindow, add_sample, get_average, new_metrics_window}
use acp_kv.Prelude.Float64.{Float64}

module _ (F : Float64) where
  open F use {Carrier}

  pub record CcsComponents : Type 0 where
    pub rtt_health : Carrier
    pub avail_health : Carrier
    pub var_health : Carrier
    pub error_health : Carrier
    pub clock_health : Carrier

  pub record CcsComputer : Type 0 where
    pub rtt_window : MetricsWindow F
    pub success_window : MetricsWindow F
    pub variance_window : MetricsWindow F
    pub error_window : MetricsWindow F
    pub clock_window : MetricsWindow F
    pub ccs_history : MetricsWindow F
    pub alpha_rtt : Carrier
    pub beta_avail : Carrier
    pub gamma_var : Carrier
    pub delta_error : Carrier
    pub epsilon_clock : Carrier
    pub rtt_bad_threshold : Carrier
    pub var_bad_threshold : Carrier
    pub clock_bad_threshold : Carrier

  unfoldable pub new_ccs_computer : CcsComputer
  new_ccs_computer = record {
    rtt_window = new_metrics_window F 10;
    success_window = new_metrics_window F 10;
    variance_window = new_metrics_window F 10;
    error_window = new_metrics_window F 10;
    clock_window = new_metrics_window F 10;
    ccs_history = new_metrics_window F 10;
    alpha_rtt = F.decimal 20 2;
    beta_avail = F.decimal 40 2;
    gamma_var = F.decimal 15 2;
    delta_error = F.decimal 15 2;
    epsilon_clock = F.decimal 10 2;
    rtt_bad_threshold = F.decimal 2 1;
    var_bad_threshold = F.decimal 25 4;
    clock_bad_threshold = F.decimal 1 1;
  }

  -- CCSComputer.RecordMetrics
  unfoldable pub record_metrics :
      Carrier → Carrier → Carrier → Carrier → Carrier → CcsComputer → CcsComputer
  record_metrics avg_rtt success_rate variance error_rate drift cc' = record cc' {
    rtt_window = add_sample F avg_rtt cc'.rtt_window;
    success_window = add_sample F success_rate cc'.success_window;
    variance_window = add_sample F variance cc'.variance_window;
    error_window = add_sample F error_rate cc'.error_window;
    clock_window = add_sample F drift cc'.clock_window;
  }

  -- 1 - min(value / bad, 1)
  abbrev pub health_of : Carrier → Carrier → Carrier
  health_of value bad = F.sub (F.decimal 1 0) (F.least (F.div value bad) (F.decimal 1 0))

  -- The components that `ComputeCCS` derives from the averages of the windows.
  unfoldable pub components_of : CcsComputer → CcsComponents
  components_of cc' = record {
    rtt_health = health_of (get_average F cc'.rtt_window) cc'.rtt_bad_threshold;
    avail_health = get_average F cc'.success_window;
    var_health = health_of (get_average F cc'.variance_window) cc'.var_bad_threshold;
    error_health = F.sub (F.decimal 1 0) (get_average F cc'.error_window);
    clock_health = health_of (get_average F cc'.clock_window) cc'.clock_bad_threshold;
  }

  -- The weighted sum of the components, added from the left.
  unfoldable pub weighted_sum : CcsComputer → CcsComponents → Carrier
  weighted_sum cc' h =
      F.add
        (F.add
          (F.add (F.add (F.mul cc'.alpha_rtt h.rtt_health) (F.mul cc'.beta_avail h.avail_health))
            (F.mul cc'.gamma_var h.var_health))
          (F.mul cc'.delta_error h.error_health))
        (F.mul cc'.epsilon_clock h.clock_health)

  -- CCSComputer.ComputeCCS
  unfoldable pub compute_ccs : CcsComputer → Carrier × CcsComponents
  unfolding components_of weighted_sum
  compute_ccs cc' = (weighted_sum cc' (components_of cc'), components_of cc')

  unfoldable pub add_to_ccs_history : Carrier → CcsComputer → CcsComputer
  add_to_ccs_history ccs cc' = record cc' { ccs_history = add_sample F ccs cc'.ccs_history }

  unfoldable pub get_smoothed_ccs : CcsComputer → Carrier
  get_smoothed_ccs cc' = get_average F cc'.ccs_history
