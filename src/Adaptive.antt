-- ===== src/Adaptive.antt =====
-- internal/adaptive: quorums that follow the health of the cluster.
pub mod Quorum
pub mod Window
pub mod Ccs
pub mod Adjuster
