-- ===== src/Cli/Tests.antt =====
-- Runs of the command line client at a node of three whose reads ask no other, with texts of the letter v.
use acp_kv.Prelude.{List, [], false, if◌then◌else◌, none, pos, refl, str_eq, ◌∷◌, ◌≡◌, ℕ}
use acp_kv.Cli.{Text, key_found, put_successful}
use acp_kv.Cli.Trips.{GetPrints, run_at, run_get-GetPrints, run_get-run_put}
use acp_kv.Examples.{reads_alone, world}
use acp_kv.Server.{World, get_r}
use acp_kv.Server.Read.{local_value}
use acp_kv.Server.Write.{stamp_of}
use acp_kv.Staleness.{is_stale}

abbrev text : Text
text = record {
  to_bytes = λ s. if str_eq s "v" then 118 ∷ [] else [];
  from_bytes = λ (b : List ℕ). elim b [ [] ↦ "" | c ∷ cs ↦ "v" ];
}

-- A time at which the value of the node is too old.
abbrev later : World
later = record world { first = pos 2000 }

reads_one : get_r reads_alone.quorum_provider ≡ pos 1
unfolding get_r acp_kv.Config.get_r
reads_one = refl

fresh : is_stale reads_alone.staleness_detector (stamp_of world reads_alone) (pos 1010) ≡ false
unfolding is_stale acp_kv.Hlc.age acp_kv.Hlc.now_hlc
fresh = refl

run_get-GetPrints_example :
    GetPrints text later reads_alone
      (local_value (record { key = "k" }) reads_alone)
      (run_at text (λ a. none) later "n1:8080" "get" ("k" ∷ []) reads_alone).0
run_get-GetPrints_example =
    run_get-GetPrints text (λ a. none) later "n1:8080" "k" reads_alone refl reads_one

run_get-run_put_example :
    let (printed, s) = run_at text (λ a. none) world "n1:8080" "put" ("k" ∷ "v" ∷ []) reads_alone in
    (printed.0 ≡ 0 → printed ≡ (0, put_successful (pos 1010) (pos 1010) ∷ []))
    × ((run_at text (λ a. none) world "n1:8080" "get" ("k" ∷ []) s).0
        ≡ (0, key_found "v" (pos 1010) (pos 1010) ∷ []))
unfolding acp_kv.Hlc.now_hlc
run_get-run_put_example =
    run_get-run_put text (λ a. none) world world "n1:8080" "k" "v" reads_alone refl reads_one fresh
