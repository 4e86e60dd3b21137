-- ===== src/Config/PodAddr.antt =====
-- The address of a pod tells which pod it is (internal/config/config.go,
-- internal/replication/coordinator.go).
use text.Mathlib.TextLemmas.{append_cancel_right}
use Prim.Native.String.{◌++◌ as str_append}
use acp_kv.Prelude.{String, ◌≡◌}
use acp_kv.Config.Load.{pod_addr}

pub pod_addr_inj : (a b svc ns : String) → pod_addr a svc ns ≡ pod_addr b svc ns → a ≡ b
pod_addr_inj a b svc ns e =
    append_cancel_right a b
      (str_append "." (str_append svc (str_append "." (str_append ns ".svc.cluster.local:8080")))) e
