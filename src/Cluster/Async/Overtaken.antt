-- ===== src/Cluster/Async/Overtaken.antt =====
-- Two writes of one key at one node, stored in the other order than their timestamps were drawn in
-- (internal/server/server.go, internal/storage/store.go).
use acp_kv.Storage
use acp_kv.Prelude.{List, String, [], ap, arith, refl, some, subst, sym, ℤ, ◌∷◌, ◌≡◌, ◌∙◌}
use acp_kv.Cluster.Async.{
  Call, Pending, Run, Running, Step, System, advance, begins, draw, draws, goes_on, put_logging,
  put_storing, set_node, write_of,
}
use acp_kv.Cluster.Async.Inv.{clock_at}
use acp_kv.Cluster.Async.Keeps.{set_node_self}
use acp_kv.Cluster.Async.Whole.{own_access, set_node_twice, with_node}
use acp_kv.Hlc.{now_hlc}
use acp_kv.Hlc.Monotone.{Room, Room-now_hlc, now_hlc-Before}
use acp_kv.Hlc.Order.{Before}
use acp_kv.Prelude.Map.{str_eq_refl}
use acp_kv.Proto.{PutRequest}
use acp_kv.Server.{Server}
use acp_kv.Storage.{VersionedValue, stamped}
use acp_kv.Storage.Laws.{get-put_with_hlc}

-- A client's `Put` draws its timestamp at that node.
pub own_draw :
    (a : String) (n : Server) (nodes : String → Server) (calls : List Call) (tasks : List Running)
    (now : ℤ) (req : PutRequest)
    → Step (with_node a n tasks nodes calls) (write_of a (draw now req n).1 ∷ []) (
        with_node a
          (draw now req n).0
          (record { at = a; task = put_storing (draw now req n).1 } ∷ tasks)
          nodes
          calls)
own_draw a n nodes calls tasks now req =
    let s = with_node a n tasks nodes calls in
    let own =
      subst
        (λ m. Step s (write_of a (draw now req m).1 ∷ []) (record {
          nodes = set_node a (draw now req m).0 (set_node a n nodes);
          calls = calls;
          tasks = record { at = a; task = put_storing (draw now req m).1 } ∷ tasks;
        }))
        (set_node_self a n nodes) (draws a now req) in
    subst
      (λ f. Step s (write_of a (draw now req n).1 ∷ []) (record {
        nodes = f;
        calls = calls;
        tasks = record { at = a; task = put_storing (draw now req n).1 } ∷ tasks;
      }))
      (set_node_twice a (draw now req n).0 n nodes) own

-- The first of two writes that a node stamps, and the second.
abbrev pub first : ℤ → PutRequest → Server → Pending
first now req n = (draw now req n).1

abbrev pub second : ℤ → PutRequest → ℤ → PutRequest → Server → Pending
second now req now' req' n = (draw now' req' (draw now req n).0).1

-- Both timestamps were drawn, the second write was stored, and then the first.
abbrev pub overtaken : System → String → ℤ → PutRequest → ℤ → PutRequest → ℤ → ℤ → System
overtaken s a now req now' req' late later =
    let n = (draw now' req' (draw now req (s.nodes a)).0).0 in
    let p = first now req (s.nodes a) in
    let p' = second now req now' req' (s.nodes a) in
    with_node a (advance later (put_storing p) (advance late (put_storing p') n).0).0
      (record { at = a; task = put_logging p' } ∷ record { at = a; task = put_logging p } ∷ s.tasks)
      s.nodes s.calls

overtaken-Run :
    (s : System) (a : String) (now : ℤ) (req : PutRequest) (now' : ℤ) (req' : PutRequest)
    (late later : ℤ)
    → Run s 4
        (write_of a (second now req now' req' (s.nodes a))
          ∷ write_of a (first now req (s.nodes a))
          ∷ [])
        (overtaken s a now req now' req' late later)
unfolding advance
overtaken-Run s a now req now' req' late later =
    let m = (draw now req (s.nodes a)).0 in
    let n = (draw now' req' m).0 in
    let p = first now req (s.nodes a) in
    let p' = second now req now' req' (s.nodes a) in
    let waits : Running = record { at = a; task = put_storing p } in
    let stored : Running = record { at = a; task = put_logging p' } in
    goes_on
      (goes_on
        (goes_on (goes_on begins (draws a now req) refl)
          (own_draw a m s.nodes s.calls (waits ∷ s.tasks) now' req') refl)
        (own_access a n s.nodes s.calls late (put_storing p') [] (waits ∷ s.tasks)) refl)
      (own_access a (advance late (put_storing p') n).0 s.nodes s.calls later (put_storing p)
        (stored ∷ []) s.tasks)
      refl

-- From any system, two clients' `Put`s of one key at one node may run so that, once both have written to the
-- store, it holds the value of the one with the earlier timestamp. The clock has room for the two.
pub overtaken_lem :
    (s : System) (a : String) (now now' late later : ℤ) (req req' : PutRequest)
    → req.key ≡ req'.key
    → Room 2 (clock_at s a).logical
    → let t = overtaken s a now req now' req' late later in
      let p = first now req (s.nodes a) in
      let p' = second now req now' req' (s.nodes a) in
      Run s 4 (write_of a p' ∷ write_of a p ∷ []) t
      × Before p.hlc p'.hlc
      × (Storage.get req'.key (t.nodes a).store
          ≡ some (stamped later req.value (s.nodes a).node_id p.hlc))
unfolding advance draw
overtaken_lem s a now now' late later req req' same room =
    let c = clock_at s a in
    let (drawn, _, _) = now_hlc-Before now c (omega arith, room.1) in
    let c' = (now_hlc now c).1 in
    let room' = Room-now_hlc 1 now c room in
    let (_, rises, _) = now_hlc-Before now' c' (omega arith, room'.1) in
    let p = first now req (s.nodes a) in
    let n =
      (advance late (put_storing (second now req now' req' (s.nodes a)))
        (draw now' req' (draw now req (s.nodes a)).0).0).0 in
    (
      overtaken-Run s a now req now' req' late later,
      subst (λ h. Before h (now_hlc now' c').0) (sym drawn) rises,
      ap (λ (u : Server). Storage.get req'.key u.store)
            (set_node_self a (advance later (put_storing p) n).0 s.nodes)
          ∙ get-put_with_hlc later req.key req'.key req.value (s.nodes a).node_id p.hlc n.store
          ∙ rw (same, str_eq_refl req'.key) refl,
    )
