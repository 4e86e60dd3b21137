-- ===== src/Metrics/Registry/Once.antt =====
-- `NewMetrics` can register its metrics once in a namespace (internal/metrics/metrics.go).
use acp_kv.Prelude.{
  All, List, drop, String, [], arith, false, map, none, refl, some, str_eq, str_eq_iff, true, ◌||◌,
  ◌∷◌, ◌≡◌,
}
use acp_kv.Metrics.Registry.{
  IsFree, IsRegisterer, Opts, Registerer, all_opts, new_metrics, register_all, registered,
}
use acp_kv.Prelude.Map.{str_eq_refl}
use acp_kv.Replication.{IsDuplicateFree, contains}

abbrev names : List Opts → List String
names os = map (λ (o : Opts). o.name) os

module _ (p : Registerer) (namespace : String) (laws : IsRegisterer p namespace) where
  -- What stays free after a metric of another name was registered.
  IsFree-register :
      (o : Opts) (os : List Opts) (r r' : p.Registry)
      → ((n : String) → p.has r' n ≡ (str_eq (p.full_name namespace o.name) n || p.has r n))
      → contains o.name (names os) ≡ false
      → IsFree p namespace r os
      → IsFree p namespace r' os
  unfolding contains
  IsFree-register o [] r r' now differ free = tt
  IsFree-register o (u ∷ os) r r' now differ (free, others) = (
    ground (
      arith,
      free,
      now (p.full_name namespace u.name),
      laws.apart o.name u.name,
      str_eq_iff (p.full_name namespace o.name) (p.full_name namespace u.name),
      str_eq_iff u.name o.name,
    ),
    IsFree-register o os r r' now (ground arith) others,
  )

  -- Metrics with different names, all of them free.
  register_all_lem :
      (os : List Opts) (r : p.Registry)
      → IsDuplicateFree (names os)
      → IsFree p namespace r os
      → (r' : p.Registry) × (register_all p namespace os r ≡ some r')
        × ((n : String) → p.has r n ≡ true → p.has r' n ≡ true)
        × All (λ (o : Opts). p.has r' (p.full_name namespace o.name) ≡ true) os
  unfolding register_all
  register_all_lem [] r differ free = (r, refl, λ n h. h, tt)
  register_all_lem (o ∷ os) r (differ, others) (free, rest) =
      let (next, done, now) = laws.fresh o r free in
      let (last, all, kept, listed) =
        register_all_lem os next others (IsFree-register o os r next now differ rest) in
      (
        last,
        rw (register_all, done) all,
        λ n h. kept n (ground (arith, now n)),
        (
          kept (p.full_name namespace o.name) (
              ground (
                arith,
                now (p.full_name namespace o.name),
                str_eq_refl (p.full_name namespace o.name),
              )),
          listed,
        ),
      )

  register_all_taken :
      (o : Opts) (os : List Opts) (r : p.Registry)
      → p.has r (p.full_name namespace o.name) ≡ true
      → register_all p namespace (o ∷ os) r ≡ none
  unfolding register_all
  register_all_taken o os r h = rw (register_all, laws.taken o r h) refl

registered_differ : IsDuplicateFree registered
unfolding contains
registered_differ = ground arith

-- `NewMetrics` does not panic where none of its names is taken, and then has registered all of them, so that a
-- second call of it in the same namespace panics.
pub new_metrics_lem :
    (p : Registerer) (namespace : String) (r : p.Registry)
    → IsRegisterer p namespace
    → IsFree p namespace r all_opts
    → (r' : p.Registry) × (new_metrics p namespace r ≡ some r')
      × All (λ (o : Opts). p.has r' (p.full_name namespace o.name) ≡ true) all_opts
      × (new_metrics p namespace r' ≡ none)
unfolding new_metrics register_all
new_metrics_lem p namespace r laws free =
    let (r', done, kept, listed) =
      register_all_lem p namespace laws all_opts r registered_differ free in
    (r', done, listed, register_all_taken p namespace laws _ (drop 1 all_opts) r' listed.0)
