-- ===== src/Cluster/Async/Overwritten.antt =====
-- A client's write between the two accesses of the engine to the store (internal/reconcile/engine.go,
-- internal/server/server.go).
use acp_kv.Storage
use acp_kv.Prelude.{List, String, [], ap, arith, refl, some, subst, ℤ, true, ◌∷◌, ◌≡◌, ◌∙◌}
use acp_kv.Cluster.Async.{
  Run, Running, Step, System, advance, advances, begins, compare_next, draw, goes_on, overwrites,
  overwriting, put_logging, put_storing, settling, write_of,
}
use acp_kv.Cluster.Async.Inv.{Upto, Upto-Before, clock_at}
use acp_kv.Cluster.Async.Keeps.{set_node_self}
use acp_kv.Cluster.Async.Overtaken.{first, own_draw}
use acp_kv.Cluster.Async.Whole.{own_access, with_node}
use acp_kv.Hlc.{reading}
use acp_kv.Hlc.Monotone.{Room, now_hlc-Before}
use acp_kv.Hlc.Order.{Before}
use acp_kv.Prelude.Map.{str_eq_refl}
use acp_kv.Proto.{PutRequest}
use acp_kv.Reconcile.Log.{WriteEntry}
use acp_kv.Server.{Server}
use acp_kv.Storage.{VersionedValue, stamped}
use acp_kv.Storage.Laws.{get-put_with_hlc}

-- The engine compared a write with the stored value, a client wrote, and the engine then wrote.
abbrev pub overwritten :
    System → String → ℤ → PutRequest → ℤ → ℤ → WriteEntry → List WriteEntry → List Running → System
overwritten s a now req late later w es rest =
    let p = first now req (s.nodes a) in
    let n = (advance late (put_storing p) (draw now req (s.nodes a)).0).0 in
    with_node a (advance later (overwriting w es) n).0
      (record { at = a; task = put_logging p } ∷ record { at = a; task = settling es } ∷ rest)
      s.nodes s.calls

compare_later :
    (w : WriteEntry) (es : List WriteEntry) (v : VersionedValue)
    → overwrites w v ≡ true
    → compare_next w es (some v) ≡ overwriting w es
unfolding compare_next
compare_later w es v wins = rw wins refl

compares :
    (s : System) (a : String) (now : ℤ) (w : WriteEntry) (es : List WriteEntry)
    (rest : List Running) (v : VersionedValue)
    → s.tasks ≡ record { at = a; task = settling (w ∷ es) } ∷ rest
    → Storage.get w.key (s.nodes a).store ≡ some v
    → overwrites w v ≡ true
    → Step s [] (
        with_node a (s.nodes a) (record { at = a; task = overwriting w es } ∷ rest) s.nodes s.calls)
unfolding advance
compares s a now w es rest v going there wins =
    subst
      (λ t.
        Step s [] (with_node a (s.nodes a) (record { at = a; task = t } ∷ rest) s.nodes s.calls))
      (ap (compare_next w es) there ∙ compare_later w es v wins)
      (advances now [] (record { at = a; task = settling (w ∷ es) }) rest going)

overwritten-Run :
    (s : System) (a : String) (now : ℤ) (req : PutRequest) (early late later : ℤ) (w : WriteEntry)
    (es : List WriteEntry) (rest : List Running) (v : VersionedValue)
    → s.tasks ≡ record { at = a; task = settling (w ∷ es) } ∷ rest
    → Storage.get w.key (s.nodes a).store ≡ some v
    → overwrites w v ≡ true
    → Run s 4
        (write_of a (first now req (s.nodes a)) ∷ [])
        (overwritten s a now req late later w es rest)
unfolding advance
overwritten-Run s a now req early late later w es rest v going there wins =
    let n = (draw now req (s.nodes a)).0 in
    let p = first now req (s.nodes a) in
    let waits : Running = record { at = a; task = overwriting w es } in
    let stored : Running = record { at = a; task = put_logging p } in
    goes_on
      (goes_on
        (goes_on (goes_on begins (compares s a early w es rest v going there wins) refl)
          (own_draw a (s.nodes a) s.nodes s.calls (waits ∷ rest) now req) refl)
        (own_access a n s.nodes s.calls late (put_storing p) [] (waits ∷ rest)) refl)
      (own_access a (advance late (put_storing p) n).0 s.nodes s.calls later (overwriting w es)
        (stored ∷ []) rest)
      refl

-- Where the engine of a node is about to compare a logged write with an older value of its key, a client's `Put`
-- of that key may run so that, once both have written to the store, it holds the logged write, whose
-- timestamp is before the client's. The logged write's timestamp is at most the clock's reading, and the clock
-- has room for another.
pub overwritten_lem :
    (s : System) (a : String) (now early late later : ℤ) (req : PutRequest) (w : WriteEntry)
    (es : List WriteEntry) (rest : List Running) (v : VersionedValue)
    → s.tasks ≡ record { at = a; task = settling (w ∷ es) } ∷ rest
    → Storage.get w.key (s.nodes a).store ≡ some v
    → overwrites w v ≡ true
    → req.key ≡ w.key
    → Upto w.hlc (reading (clock_at s a))
    → Room 1 (clock_at s a).logical
    → let t = overwritten s a now req late later w es rest in
      let p = first now req (s.nodes a) in
      Run s 4 (write_of a p ∷ []) t
      × Before w.hlc p.hlc
      × (Storage.get req.key (t.nodes a).store ≡ some (stamped later w.value w.node_id w.hlc))
unfolding advance draw
overwritten_lem s a now early late later req w es rest v going there wins same past room =
    let c = clock_at s a in
    let (_, rises, _) = now_hlc-Before now c (omega arith, room.1) in
    let p = first now req (s.nodes a) in
    let n = (advance late (put_storing p) (draw now req (s.nodes a)).0).0 in
    (
      overwritten-Run s a now req early late later w es rest v going there wins,
      Upto-Before w.hlc (reading c) p.hlc past rises,
      ap (λ (u : Server). Storage.get req.key u.store)
            (set_node_self a (advance later (overwriting w es) n).0 s.nodes)
          ∙ get-put_with_hlc later w.key req.key w.value w.node_id w.hlc n.store
          ∙ rw (same, str_eq_refl w.key) refl,
    )
