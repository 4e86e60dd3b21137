-- ===== src/Cluster/Async/Whole.antt =====
-- A `Put` that nothing else interrupts is a run of its accesses, and the same accesses in another order leave
-- the older of two writes (internal/server/server.go, internal/storage/store.go).
use mathlib.Core.Path.{fun_ext}
use acp_kv.Prelude.{
  Bool-cases, List, String, [], inl, inr, refl, str_eq, subst, sym, ap, ◌∙◌, ℤ, ◌++◌, ◌∷◌, ◌≡◌,
}
use acp_kv.Cluster.Async.{
  Call, Run, Running, Step, System, Task, advance, advances, begins, draw, draws, goes_on,
  put_logging, put_sending, put_storing, log_of, rests, runs_at, send_all, set_node, write_of,
}
use acp_kv.Cluster.Async.Keeps.{set_node_self}
use acp_kv.Prelude.Map.{keys}
use acp_kv.Proto.{PutRequest}
use acp_kv.Server.{Server, World, put}
use acp_kv.Server.Write.{put_request}

-- The later of two changes of one node stands.
pub set_node_twice :
    (a : String) (t u : Server) (nodes : String → Server)
    → set_node a t (set_node a u nodes) ≡ set_node a t nodes
unfolding set_node
set_node_twice a t u nodes =
    fun_ext
      (λ b. elim (Bool-cases (str_eq b a)) [ inl self ↦ rw self refl | inr other ↦ rw other refl ])

-- A system in which the node at `a` is `n`, and of what runs one task stands first.
abbrev pub with_node : String → Server → List Running → (String → Server) → List Call → System
with_node a n tasks nodes calls = record {
  nodes = set_node a n nodes;
  calls = calls;
  tasks = tasks;
}

-- The next access of what runs at that node.
pub own_access :
    (a : String) (n : Server) (nodes : String → Server) (calls : List Call) (now : ℤ) (t : Task)
    (before rest : List Running)
    → Step (with_node a n (before ++ record { at = a; task = t } ∷ rest) nodes calls) [] (
        with_node a
          (advance now t n).0
          (before ++ runs_at a (advance now t n).1 ++ rest)
          nodes
          ((advance now t n).2 ++ calls))
own_access a n nodes calls now t before rest =
    let s = with_node a n (before ++ record { at = a; task = t } ∷ rest) nodes calls in
    let step : Step s [] (record {
      nodes = set_node a (advance now t (set_node a n nodes a)).0 (set_node a n nodes);
      calls = (advance now t (set_node a n nodes a)).2 ++ calls;
      tasks = before ++ runs_at a (advance now t (set_node a n nodes a)).1 ++ rest;
    }) =
      advances now before (record { at = a; task = t }) rest refl in
    let own =
      subst
        (λ m. Step s [] (record {
          nodes = set_node a (advance now t m).0 (set_node a n nodes);
          calls = (advance now t m).2 ++ calls;
          tasks = before ++ runs_at a (advance now t m).1 ++ rest;
        }))
        (set_node_self a n nodes) step in
    subst
      (λ f. Step s [] (record {
        nodes = f;
        calls = (advance now t n).2 ++ calls;
        tasks = before ++ runs_at a (advance now t n).1 ++ rest;
      }))
      (set_node_twice a (advance now t n).0 n nodes) own

-- A step that leaves the store, the clock and the log of that node alone.
own_rest :
    (a : String) (n t : Server) (nodes : String → Server) (calls : List Call) (tasks : List Running)
    → t.store ≡ n.store
    → t.hlc_clock ≡ n.hlc_clock
    → t.reconciler ≡ n.reconciler
    → Step (with_node a n tasks nodes calls) [] (with_node a t tasks nodes calls)
own_rest a n t nodes calls tasks store clock log =
    let s = with_node a n tasks nodes calls in
    let same = set_node_self a n nodes in
    subst (λ f. Step s [] (record { nodes = f; calls = calls; tasks = tasks }))
      (set_node_twice a t n nodes)
      (rests a t (store ∙ ap (λ (u : Server). u.store) (sym same))
        (clock ∙ ap (λ (u : Server). u.hlc_clock) (sym same))
        (ap log_of (log ∙ ap (λ (u : Server). u.reconciler) (sym same))))

-- A `Put` as a whole is five steps: its timestamp, the store, the log, its calls, and the end that changes the
-- counters alone.
pub put-Run :
    (s : System) (a : String) (x : World) (req : PutRequest)
    → Run s 5 (write_of a (draw x.first req (s.nodes a)).1 ∷ []) (record {
      nodes = set_node a (put x req (s.nodes a)).1 s.nodes;
      calls =
          send_all (put_request x req (s.nodes a)) (keys (s.nodes a).coordinator.peers) ++ s.calls;
      tasks = s.tasks;
    })
unfolding put advance draw
put-Run s a x req =
    let n = s.nodes a in
    let (m, p) = draw x.first req n in
    let m' = (advance x.second (put_storing p) m).0 in
    let m'' = (advance x.third (put_logging p) m').0 in
    let calls = send_all (put_request x req n) (keys n.coordinator.peers) ++ s.calls in
    goes_on
      (goes_on
        (goes_on
          (goes_on (goes_on begins (draws a x.first req) refl)
            (own_access a m s.nodes s.calls x.second (put_storing p) [] s.tasks) refl)
          (own_access a m' s.nodes s.calls x.third (put_logging p) [] s.tasks) refl)
        (own_access a m'' s.nodes s.calls x.third (put_sending p) [] s.tasks) refl)
      (own_rest a m'' (put x req n).1 s.nodes calls s.tasks refl refl refl) refl
