-- ===== src/Adaptive/Window/Tests.antt =====
-- A window of three slots that has gone round: the next sample takes the place of the oldest.
use acp_kv.Prelude.{[], arith, refl, ◌∷◌, ◌≡◌}
use acp_kv.Adaptive.Window.{MetricsWindow, add_sample, new_metrics_window}
use acp_kv.Adaptive.Window.Laws.{IsValid, add_sample-window_of, window_of}
use acp_kv.Examples.{thousandths}
use acp_kv.Prelude.Window.{push_bounded}

abbrev window : MetricsWindow thousandths
window = record { samples = 400 ∷ 200 ∷ 300 ∷ []; size = 3; index = 1; count = 3 }

window-IsValid : IsValid thousandths window
window-IsValid = record { sized = refl; ring = omega arith }

add_sample-window_of_example :
    (IsValid thousandths (new_metrics_window thousandths 3)
      × (window_of thousandths (new_metrics_window thousandths 3) ≡ []))
    × IsValid thousandths (add_sample thousandths 500 window)
    × (window_of thousandths (add_sample thousandths 500 window)
        ≡ push_bounded window.size (window_of thousandths window) 500)
add_sample-window_of_example =
    add_sample-window_of thousandths 3 500 window (omega arith) window-IsValid

youngest : window_of thousandths (add_sample thousandths 500 window) ≡ 300 ∷ 400 ∷ 500 ∷ []
unfolding add_sample
youngest = refl
