-- ===== src/Metrics/Registry/Tests.antt =====
-- A registry that lists the names, and an empty one.
use text.Mathlib.TextLemmas.{append_cancel_left}
use Prim.Native.String.{◌++◌ as str_append}
use acp_kv.Prelude.{All, List, String, [], arith, if◌then◌else◌, none, refl, some, true, ◌∷◌, ◌≡◌}
use acp_kv.Metrics.Registry.{IsFree, IsRegisterer, Opts, Registerer, all_opts, new_metrics}
use acp_kv.Metrics.Registry.Once.{new_metrics_lem}
use acp_kv.Replication.{contains}

abbrev full_name : String → String → String
full_name namespace name = str_append namespace (str_append "_" name)

abbrev listing : Registerer
listing = record {
  Registry = List String;
  register = λ namespace o r.
      if contains (full_name namespace o.name) r
      then none
      else some (full_name namespace o.name ∷ r);
  full_name = full_name;
  has = λ r n. contains n r;
}

listing_laws : IsRegisterer listing "acp"
unfolding contains
listing_laws = record {
  apart = λ i j e.
      append_cancel_left "_" i j (append_cancel_left "acp" (str_append "_" i) (str_append "_" j) e);
  fresh = λ o r free. (full_name "acp" o.name ∷ r, rw free refl, λ n. refl);
  taken = λ o r there. rw there refl;
}

none_taken : IsFree listing "acp" [] all_opts
unfolding contains
none_taken = ground arith

new_metrics_lem_example :
    (r' : List String) × (new_metrics listing "acp" [] ≡ some r')
    × All (λ (o : Opts). contains (full_name "acp" o.name) r' ≡ true) all_opts
    × (new_metrics listing "acp" r' ≡ none)
new_metrics_lem_example = new_metrics_lem listing "acp" [] listing_laws none_taken
