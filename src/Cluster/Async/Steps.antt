-- ===== src/Cluster/Async/Steps.antt =====
-- Every step of a system of nodes keeps its invariant.
use acp_kv.Storage
use acp_kv.Prelude.{
  some, ℤ, All, List, String, [], ap, arith, inr, subst, suc, sym, ℕ, ◌++◌, ◌∷◌, ◌≡◌, ◌∙◌, none,
}
use acp_kv.Cluster.Async.{
  Call, Running, System, Step, Task, Write, advance, advances, arrives, checks, draws, log_of,
  loses, rests, runs_at, set_node, waking, wakes,
}
use acp_kv.Cluster.Async.Advances.{advance-IsKept}
use acp_kv.Cluster.Async.Inv.{
  HoldsLog, IsRunning, IsSent, IsTask, clock_at, Follows, Inv, issued-Follows,
}
use acp_kv.Cluster.Async.Keeps.{All-append, All-remove, All-split, id-now_hlc, quiet-Inv}
use acp_kv.Hlc.{now_hlc}
use acp_kv.Hlc.Monotone.{Room-now_hlc, now_hlc-Before}
use acp_kv.Proto.{HealthRequest}
use acp_kv.Reconcile.Engine.{Engine}
use acp_kv.Server.{Server, World, health_check, sync}
use acp_kv.Storage.{Bytes, VersionedValue}
use acp_kv.Cluster.Async.Starts.{arrives-Inv, draws-Inv, still}

runs_at-IsRunning :
    (ws : List Write) (a : String) (ts : List Task)
    → All (IsTask ws) ts
    → All (IsRunning ws) (runs_at a ts)
runs_at-IsRunning ws a [] h = tt
runs_at-IsRunning ws a (t ∷ ts) (h, hs) = (h, runs_at-IsRunning ws a ts hs)

advances-Inv :
    (n : ℕ) (ws : List Write) (s : System) (now : ℤ) (before : List Running) (r : Running)
    (after : List Running)
    → s.tasks ≡ before ++ r ∷ after
    → Inv (suc n) ws s
    → let (t, tasks, calls) = advance now r.task (s.nodes r.at) in
      Inv n ws (record {
        nodes = set_node r.at t s.nodes;
        calls = calls ++ s.calls;
        tasks = before ++ runs_at r.at tasks ++ after;
      })
advances-Inv n ws s now before r after e inv =
    let (i, others) =
      All-remove (IsRunning ws) before r after (subst (All (IsRunning ws)) e inv.tasks) in
    let (front, back) = All-split (IsRunning ws) before after others in
    let node = s.nodes r.at in
    let (t, tasks, calls) = advance now r.task node in
    let kept = advance-IsKept ws now node (inv.stores r.at) (inv.logs r.at) r.task i in
    quiet-Inv n ws s r.at t (calls ++ s.calls) (before ++ runs_at r.at tasks ++ after) inv
      (rw kept.same_clock (still n node.hlc_clock (inv.room r.at)))
      (All-append (IsSent ws) calls s.calls kept.sends inv.calls)
      (All-append (IsRunning ws) (before ++ runs_at r.at tasks) after
        (All-append (IsRunning ws) before (runs_at r.at tasks) front
          (runs_at-IsRunning ws r.at tasks kept.goes_on))
        back)
      kept.holds kept.log

wakes-Inv :
    (n : ℕ) (ws : List Write) (s : System) (a : String) (e : Engine) (rest : List String)
    → (s.nodes a).reconciler ≡ some e
    → Inv (suc n) ws s
    → Inv n ws (record {
      nodes =
          set_node a
            (record (s.nodes a) { reconciler = some (record e { healing_events = rest }) })
            s.nodes;
      calls = s.calls;
      tasks = record { at = a; task = waking } ∷ s.tasks;
    })
wakes-Inv n ws s a e rest there inv =
    quiet-Inv n ws s a
      (record (s.nodes a) { reconciler = some (record e { healing_events = rest }) }) s.calls
      (record { at = a; task = waking } ∷ s.tasks) inv (still n (clock_at s a) (inv.room a))
      inv.calls (tt, inv.tasks) (inv.stores a)
      (subst (λ o. HoldsLog ws (log_of o)) there (inv.logs a))

health-Inv :
    (n : ℕ) (ws : List Write) (s : System) (a : String) (x : World) (req : HealthRequest)
    → req.hlc ≡ none
    → Inv (suc n) ws s
    → Inv n ws (record s { nodes = set_node a (health_check x req (s.nodes a)).1 s.nodes })
unfolding health_check sync now_hlc
health-Inv n ws s a x req bare inv =
    let c = clock_at s a in
    let (_, up, _) = now_hlc-Before x.second c (omega arith, (inv.room a).1) in
    quiet-Inv n ws s a (health_check x req (s.nodes a)).1 s.calls s.tasks inv
      (rw bare (id-now_hlc x.second c, inr up, Room-now_hlc n x.second c (inv.room a))) inv.calls
      inv.tasks (inv.stores a) (inv.logs a)

loses-Inv :
    (n : ℕ) (ws : List Write) (s : System) (before : List Call) (c : Call) (after : List Call)
    → s.calls ≡ before ++ c ∷ after
    → Inv (suc n) ws s
    → Inv n ws (record s { calls = before ++ after })
loses-Inv n ws s before c after e inv =
    let stay : Follows n s (record s { calls = before ++ after }) =
      λ b. still n (clock_at s b) (inv.room b) in
    record {
      apart = inv.apart;
      room = λ b. (stay b).2;
      calls = (All-remove (IsSent ws) before c after (subst (All (IsSent ws)) e inv.calls)).1;
      tasks = inv.tasks;
      issued = issued-Follows n s (record s { calls = before ++ after }) ws inv.issued stay;
      distinct = inv.distinct;
      stores = inv.stores;
      logs = inv.logs;
    }

rests-Inv :
    (n : ℕ) (ws : List Write) (s : System) (a : String) (t : Server)
    → t.store ≡ (s.nodes a).store
    → t.hlc_clock ≡ (s.nodes a).hlc_clock
    → log_of t.reconciler ≡ log_of (s.nodes a).reconciler
    → Inv (suc n) ws s
    → Inv n ws (record s { nodes = set_node a t s.nodes })
rests-Inv n ws s a t store clock log inv =
    quiet-Inv n ws s a t s.calls s.tasks inv (rw clock (still n (clock_at s a) (inv.room a)))
      inv.calls inv.tasks
      (λ key v found. inv.stores a key v (ap (Storage.get key) (sym store) ∙ found))
      (subst (HoldsLog ws) (sym log) (inv.logs a))

pub Step-Inv :
    (n : ℕ) (ws : List Write) (s : System) (new : List Write) (t : System)
    → Inv (suc n) ws s
    → Step s new t
    → Inv n (new ++ ws) t
Step-Inv n ws s new t inv (draws a now req) = draws-Inv n ws s a now req inv
Step-Inv n ws s new t inv (arrives now before c after e) =
    arrives-Inv n ws s now before c after e inv
Step-Inv n ws s new t inv (loses before c after e) = loses-Inv n ws s before c after e inv
Step-Inv n ws s new t inv (wakes a e peer rest there queued) = wakes-Inv n ws s a e rest there inv
Step-Inv n ws s new t inv (advances now before r after e) =
    advances-Inv n ws s now before r after e inv
Step-Inv n ws s new t inv (checks a x req bare) = health-Inv n ws s a x req bare inv
Step-Inv n ws s new t inv (rests a u store clock log) = rests-Inv n ws s a u store clock log inv
