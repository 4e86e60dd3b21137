-- ===== src/Server/Causal.antt =====
-- Clocks carry causality between nodes (`Replicate` and `Put` of internal/server/server.go).
use acp_kv.Storage
use acp_kv.Prelude.{arith, inl, inr, none, refl, some, ◌<ℤ◌, ◌≡◌, ◌≢◌, ◌∙◌}
use acp_kv.Hlc.{update, reading, from_proto, now_hlc}
use acp_kv.Hlc.Monotone.{Room, Room-update, now_hlc-Before, update-Before, update_cases}
use acp_kv.Hlc.Order.{Before, Before-trans}
use acp_kv.Prelude.Map.{str_eq_refl}
use acp_kv.Server.Peer.{get-accept}
use acp_kv.Storage.{stamped}
use acp_kv.Proto.{ReplicateRequest}
use acp_kv.Server.{Server, World, accept}
use acp_kv.Server.Write.{stamp_of}

pub accept-clock :
    (x : World) (req : ReplicateRequest) (s : Server)
    → (accept x req s).1.hlc_clock ≡ (update x.first (from_proto req.hlc) s.hlc_clock).1
unfolding accept
accept-clock x req s = refl

-- A write that a node takes from a client after it took one from a peer has the later timestamp, where
-- the clock accepted the peer's timestamp. The logical parts must have room for two increments.
pub stamp_of-Before :
    (x y : World) (req : ReplicateRequest) (s : Server)
    → Room 2 s.hlc_clock.logical
    → Room 2 (from_proto req.hlc).logical
    → (update x.first (from_proto req.hlc) s.hlc_clock).0 ≡ none
    → Before (from_proto req.hlc) (stamp_of y (accept x req s).1)
      × Before (reading s.hlc_clock) (stamp_of y (accept x req s).1)
unfolding acp_kv.Hlc.happens_before from_proto now_hlc
stamp_of-Before x y req s room room' ok =
    let remote = from_proto req.hlc in
    let c = (update x.first remote s.hlc_clock).1 in
    let (own, theirs) =
      update-Before x.first remote s.hlc_clock (omega arith, room.1) (omega arith, room'.1) ok in
    let (_, next, _) =
      now_hlc-Before y.first c (Room-update 1 x.first remote s.hlc_clock room room') in
    rw accept-clock (
      Before-trans remote (reading c) (now_hlc y.first c).0 theirs next,
      Before-trans (reading s.hlc_clock) (reading c) (now_hlc y.first c).0 own next,
    )

-- A write that a node takes from a client after it took one from a peer has the earlier timestamp, where the
-- clock refused the peer's timestamp and neither the clock nor the physical time has come up to it: the
-- refusal keeps the clock back, and the peer's write is stored all the same.
pub stamp_of_refused :
    (x y : World) (req : ReplicateRequest) (s : Server)
    → (update x.first (from_proto req.hlc) s.hlc_clock).0 ≢ none
    → s.hlc_clock.physical <ℤ (from_proto req.hlc).physical
    → y.first <ℤ (from_proto req.hlc).physical
    → Before (stamp_of y (accept x req s).1) (from_proto req.hlc)
      × (Storage.get req.key (accept x req s).1.store
          ≡ some (stamped x.second req.value req.source_node_id (from_proto req.hlc)))
unfolding now_hlc acp_kv.Hlc.happens_before
stamp_of_refused x y req s refused ahead early =
    let remote = from_proto req.hlc in
    let same : (update x.first remote s.hlc_clock).1 ≡ s.hlc_clock =
      elim (update_cases x.first remote s.hlc_clock) [
        | inl ok ↦ absurd (refused ok)
        | inr kept ↦ kept
      ] in
    (
      rw (accept-clock, same) (ground arith),
      (get-accept x req s req.key).1 ∙ rw (str_eq_refl req.key) refl,
    )
