-- ===== src/Health/Laws.antt =====
-- What a health check records and when it reports a healed partition (internal/health/probe.go).
use acp_kv.Prelude.{
  Bool, String, false, if◌then◌else◌, not, refl, str_eq, ℤ, ◌&&◌, ◌≡◌, Bool-cases, arith, inl, inr,
  true, Option, none, some, sym,
}
use acp_kv.Health.{Probe, check_peer, notify, was_down, mark}
use acp_kv.Prelude.Map.{lookup-insert}
use acp_kv.Proto.{HealthResponse, Reply, answered, failed}
use acp_kv.Reconcile.Engine.{Engine}

-- Whether a check found the peer healthy.
abbrev pub finds_healthy : Reply HealthResponse → Bool
finds_healthy (failed e) = false
finds_healthy (answered resp) = resp.healthy

was_down-mark :
    (addr j : String) (up : Bool) (p : Probe)
    → was_down j (mark addr up p) ≡ (if str_eq addr j then not up else was_down j p)
unfolding was_down
was_down-mark addr j up p = rw (was_down, lookup-insert addr j up p.peer_status) (ground arith)

notify-false : (addr : String) (l : Option Engine) → notify false addr l ≡ l
unfolding notify
notify-false addr none = refl
notify-false addr (some e) = refl

-- A check marks its peer as up exactly where the peer answered that it is healthy, and leaves the
-- status of the others alone. The listener hears of it exactly where that peer was not up before; so
-- a peer that stays up is reported once.
pub check_peer_lem :
    (reply : Reply HealthResponse) (rtt : ℤ) (addr j : String) (p : Probe)
    → (was_down j (check_peer reply rtt addr p)
        ≡ (if str_eq addr j then not (finds_healthy reply) else was_down j p))
      × ((check_peer reply rtt addr p).healing_listener
          ≡ notify (finds_healthy reply && was_down addr p) addr p.healing_listener)
      × ((check_peer reply rtt addr p).peers ≡ p.peers)
unfolding check_peer notify
check_peer_lem (failed e) rtt addr j p =
    (was_down-mark addr j false p, sym (notify-false addr p.healing_listener), refl)
check_peer_lem (answered resp) rtt addr j p = elim (Bool-cases resp.healthy) [
  | inl up ↦ rw up (was_down-mark addr j true p, refl, refl)
  | inr down ↦
      rw down (was_down-mark addr j false p, sym (notify-false addr p.healing_listener), refl)
]
