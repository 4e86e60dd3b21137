-- ===== src/Adaptive/Window/Laws.antt =====
-- A window holds the youngest samples (MetricsWindow of internal/adaptive/ccs.go).

use acp_kv.Prelude.{List, [], arith, length, length-replicate, length-set, ℕ, ◌<◌, ◌≡◌}
use acp_kv.Adaptive.Window.{MetricsWindow, add_sample, new_metrics_window}
use acp_kv.Prelude.Float64.{Float64}
use acp_kv.Prelude.Window.{IsRing, oldest_first, oldest_first-write, push_bounded, write-IsRing}

module _ (F : Float64) where
  open F use {Carrier}

  pub record IsValid (mw : MetricsWindow F) : Type 0 where
    pub sized : length mw.samples ≡ mw.size
    pub ring : IsRing mw.samples mw.index mw.count

  -- The samples of the window, oldest first.
  abbrev pub window_of : MetricsWindow F → List Carrier
  window_of mw = oldest_first mw.samples mw.index mw.count

  -- A new window of at least one slot is consistent and empty. `Add` keeps a window consistent and
  -- makes its sample the youngest of at most `size`, dropping the oldest where all slots are in use.
  pub add_sample-window_of :
      (n : ℕ) (value : Carrier) (mw : MetricsWindow F)
      → 0 < n
      → IsValid mw
      → (IsValid (new_metrics_window F n) × (window_of (new_metrics_window F n) ≡ []))
        × IsValid (add_sample F value mw)
        × (window_of (add_sample F value mw) ≡ push_bounded mw.size (window_of mw) value)
  unfolding add_sample new_metrics_window
  add_sample-window_of n value mw h v = rw (← v.sized) (
    (
      record {
        sized = length-replicate n (F.from_nat 0);
        ring = omega (arith, length-replicate n (F.from_nat 0));
      },
      ground (arith, length-replicate n (F.from_nat 0)),
    ),
    record {
      sized = length-set mw.samples mw.index value;
      ring = write-IsRing mw.samples mw.index mw.count value v.ring;
    },
    oldest_first-write mw.samples mw.index mw.count value v.ring,
  )
