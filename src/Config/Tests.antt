-- ===== src/Config/Tests.antt =====
-- Instances for the configuration: a cluster of three pods, and one that lists its peers.
use Prim.Native.String.{count}
use text.Mathlib.TextLemmas.{length-append}
use acp_kv.Prelude.{
  arith, none, pos, ◌<ℤ◌, ◌↔◌, ◌≡◌, List, String, [], ◌∷◌, some, suc, zero, ℕ, inr, refl, ap, sym,
  ◌∙◌, ◌≢◌, false, if◌then◌else◌, length, pos_part, str_eq,
}
use acp_kv.Config.{validate}
use acp_kv.Config.Load.{discover_kubernetes_peers, get_env, get_int_env, load_config, read_config}
use acp_kv.Config.Pods.{PrintsApart}
use acp_kv.Examples.{pods, strokes, thousandths}

count-strokes : (n : ℕ) → count (strokes n) ≡ n
count-strokes zero = refl
count-strokes (suc n) = length-append "i" (strokes n) ∙ omega (arith, count-strokes n)

apart : PrintsApart thousandths pods
apart i j e = sym (count-strokes i) ∙ ap count e ∙ count-strokes j

-- The node is one of the pods.
found : length (discover_kubernetes_peers thousandths pods "acp-node-i" "acp-headless") ≡ 2
unfolding discover_kubernetes_peers get_int_env get_env
found = refl

loaded : load_config thousandths pods ≡ inr (read_config thousandths pods)
unfolding load_config validate acp_kv.Prelude.add64 read_config
loaded = refl
