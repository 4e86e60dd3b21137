-- ===== src/Config/Pods.antt =====
-- The peers of a node of a Kubernetes StatefulSet (discoverKubernetesPeers of
-- internal/config/config.go).
use text.Mathlib.TextLemmas.{append_cancel_left}
use acp_kv.Prelude.{
  Bool-cases, String, arith, inl, inr, suc, zero, ℕ, ◌+◌, ◌<◌, ◌≤◌, ◌≡◌, ◌≢◌, length, str_eq,
  str_eq_iff, false, refl, pos, pos_part, ap, sym, ◌∙◌,
}
use acp_kv.Config.Load.{
  Environment, pods_from, discover_kubernetes_peers, pod_name, pod_addr, get_int_env, get_env,
}
use acp_kv.Config.PodAddr.{pod_addr_inj}
use acp_kv.Prelude.Float64.{Float64}
use acp_kv.Replication.{contains}

-- `%d` prints different numbers differently.
abbrev pub PrintsApart : (F : Float64) → Environment F → Type 0
PrintsApart F env = (i j : ℕ) → env.print_int i ≡ env.print_int j → i ≡ j

pod_name_inj :
    (F : Float64) (env : Environment F) (i j : ℕ)
    → PrintsApart F env
    → pod_name F env i ≡ pod_name F env j
    → i ≡ j
pod_name_inj F env i j apart e =
    apart i j (append_cancel_left "acp-node-" (env.print_int i) (env.print_int j) e)

-- A node that is none of the pods has all of them as peers.
length-pods_from_outside :
    (F : Float64) (env : Environment F) (node_id svc ns : String) (i left : ℕ)
    → ((j : ℕ) → i ≤ j → j < i + left → pod_name F env j ≢ node_id)
    → length (pods_from F env node_id svc ns i left) ≡ left
unfolding pods_from
length-pods_from_outside F env node_id svc ns i zero outside = refl
length-pods_from_outside F env node_id svc ns i (suc left) outside =
    let rest =
      length-pods_from_outside F env node_id svc ns (suc i) left
        (λ j low high. outside j (omega arith) (omega arith)) in
    ground
      (arith, rest, str_eq_iff (pod_name F env i) node_id, outside i (omega arith) (omega arith))

not_twice : {k : ℕ} (i j : ℕ) → i ≡ k → suc i ≤ j → j ≢ k
not_twice i j e above = λ e'. omega arith

-- A pod has the other ones as peers.
length-pods_from_inside :
    (F : Float64) (env : Environment F) (node_id svc ns : String) (i left k : ℕ)
    → PrintsApart F env
    → pod_name F env k ≡ node_id
    → i ≤ k
    → k < i + left
    → length (pods_from F env node_id svc ns i left) + 1 ≡ left
unfolding pods_from
length-pods_from_inside F env node_id svc ns i zero k apart self low high = absurd (omega arith)
length-pods_from_inside F env node_id svc ns i (suc left) k apart self low high =
    elim (Bool-cases (str_eq (pod_name F env i) node_id)) [
      | inl here ↦
          let e : i ≡ k =
            pod_name_inj F env i k apart
              ((str_eq_iff (pod_name F env i) node_id).0 here ∙ sym self) in
          let rest =
            length-pods_from_outside F env node_id svc ns (suc i) left (λ j above below same.
              not_twice i j e above (pod_name_inj F env j k apart (same ∙ sym self))) in
          rw (here, rest) (omega arith)
      | inr other ↦
          let e : i ≢ k = λ same. absurd (
            cc (
              other,
              (str_eq_iff (pod_name F env i) node_id).1 (ap (pod_name F env) same ∙ self),
            )) in
          let rest =
            length-pods_from_inside F env node_id svc ns (suc i) left k apart self
              (omega (arith, e)) (omega arith) in
          rw other (omega (arith, rest))
    ]

-- A node is never its own peer.
contains-pods_from_self :
    (F : Float64) (env : Environment F) (node_id svc ns : String) (i left : ℕ)
    → contains (pod_addr node_id svc ns) (pods_from F env node_id svc ns i left) ≡ false
unfolding pods_from contains
contains-pods_from_self F env node_id svc ns i zero = refl
contains-pods_from_self F env node_id svc ns i (suc left) = ground (
  arith,
  contains-pods_from_self F env node_id svc ns (suc i) left,
  str_eq_iff (pod_name F env i) node_id,
  str_eq_iff (pod_addr (pod_name F env i) svc ns) (pod_addr node_id svc ns),
  pod_addr_inj (pod_name F env i) node_id svc ns,
)

-- Of a cluster of CLUSTER_SIZE pods, a node that is one of them gets the others as its peers, so that N is
-- CLUSTER_SIZE, and a node that is none of them gets all of them, so that N is one more. No node gets
-- its own address. `%d` prints different numbers differently.
discover_kubernetes_peers_lem :
    (F : Float64) (env : Environment F) (node_id svc : String)
    → PrintsApart F env
    → let size = pos_part (get_int_env F env "CLUSTER_SIZE" (pos 3)) in
      let peers = discover_kubernetes_peers F env node_id svc in
      ((k : ℕ) → k < size → pod_name F env k ≡ node_id → length peers + 1 ≡ size)
      × (((k : ℕ) → k < size → pod_name F env k ≢ node_id) → length peers ≡ size)
      × (contains (pod_addr node_id svc (get_env F env "NAMESPACE" "default")) peers ≡ false)
unfolding discover_kubernetes_peers
discover_kubernetes_peers_lem F env node_id svc apart =
    let size = pos_part (get_int_env F env "CLUSTER_SIZE" (pos 3)) in
    let ns = get_env F env "NAMESPACE" "default" in
    (
      λ k below self.
          length-pods_from_inside F env node_id svc ns 0 size k apart self (omega arith)
            (omega arith),
      λ outside.
          length-pods_from_outside F env node_id svc ns 0 size
            (λ j low high. outside j (omega arith)),
      contains-pods_from_self F env node_id svc ns 0 size,
    )
