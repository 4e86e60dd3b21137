-- ===== src/Cluster/Async/Agreement.antt =====
-- Nodes that started empty agree on what a timestamp stands for, however the accesses of `Put`, `Replicate`,
-- `HealthCheck` and the engine interleave and whichever calls are lost (internal/server/server.go).
use acp_kv.Storage
use acp_kv.Prelude.{
  Option, All, List, String, [], ap, arith, inl, inr, some, subst, suc, sym, none, ℕ, ◌+◌, ◌∷◌, ◌≡◌,
  ◌≢◌, ◌∙◌,
}
use acp_kv.Cluster.Async.{log_of, System, Write, Run, begins, goes_on}
use acp_kv.Reconcile.Log.{RecentWriteLog}
use acp_kv.Reconcile.Log.Inv.{IsValid}
use acp_kv.Cluster.Async.Inv.{HoldsLog, IsAmong, IsDistinct, IsIssued, Inv, clock_at}
use acp_kv.Cluster.Async.Steps.{Step-Inv}
use acp_kv.Hlc.Monotone.{Room}
use acp_kv.Storage.{VersionedValue}

-- There is no log, or it is consistent and none of its slots is in use.
abbrev pub IsNewLog : Option RecentWriteLog → Type 0
IsNewLog none = Unit
IsNewLog (some l) = IsValid l × (l.count ≡ 0)

IsNewLog-HoldsLog : (o : Option RecentWriteLog) → IsNewLog o → HoldsLog [] o
IsNewLog-HoldsLog none h = tt
IsNewLog-HoldsLog (some l) (v, e) = (v, rw e tt)

-- Nothing stored or logged, no call on its way, and nothing that runs; a node id of its own at each address; and
-- clocks that can count `n` steps.
pub record IsFresh (n : ℕ) (s : System) : Type 0 where
  pub apart : (a b : String) → (clock_at s a).node_id ≡ (clock_at s b).node_id → a ≡ b
  pub room : (a : String) → Room n (clock_at s a).logical
  pub quiet : s.calls ≡ []
  pub idle : s.tasks ≡ []
  pub empty : (a key : String) → Storage.get key (s.nodes a).store ≡ none
  pub logs : (a : String) → IsNewLog (log_of (s.nodes a).reconciler)

IsFresh-Inv : (n : ℕ) (s : System) → IsFresh n s → Inv n [] s
IsFresh-Inv n s h = record {
  apart = h.apart;
  room = h.room;
  calls = rw h.quiet tt;
  tasks = rw h.idle tt;
  issued = tt;
  distinct = tt;
  stores = λ a key v found. absurd (cc (h.empty a key, found));
  logs = λ a. IsNewLog-HoldsLog (log_of (s.nodes a).reconciler) (h.logs a);
}

Run-Inv :
    (s : System) (n : ℕ) (t : System) (ws : List Write)
    → Run s n ws t
    → (m : ℕ) → Inv (n + m) [] s
    → Inv m ws t
Run-Inv s n t ws begins m inv = subst (λ k. Inv k [] s) (omega arith) inv
Run-Inv s n t ws (goes_on {n = n'} {ws = vs} {t = u} {new = new} run step e) m inv =
    let before = Run-Inv s n' u vs run (suc m) (subst (λ k. Inv k [] s) (omega arith) inv) in
    subst (λ l. Inv m l t) (sym e) (Step-Inv m vs u new t before step)

IsFresh-Run-Inv : (n : ℕ) (s t : System) (ws : List Write) → IsFresh n s → Run s n ws t → Inv 0 ws t
IsFresh-Run-Inv n s t ws fresh run =
    Run-Inv s n t ws run 0 (subst (λ k. Inv k [] s) (omega arith) (IsFresh-Inv n s fresh))

All-IsAmong : (P : Write → Type 0) (ws : List Write) (w : Write) → All P ws → IsAmong w ws → P w
All-IsAmong P [] w h i = absurd i
All-IsAmong P (x ∷ ws) w (p, h) (inl e) = subst P (sym e) p
All-IsAmong P (x ∷ ws) w (p, h) (inr i) = All-IsAmong P ws w h i

-- Two writes of a list without repeated timestamps are one where their timestamps are.
same_write :
    (ws : List Write) (u w : Write)
    → IsDistinct ws
    → IsAmong u ws
    → IsAmong w ws
    → u.hlc ≡ w.hlc
    → u ≡ w
same_write [] u w d i j e = absurd i
same_write (x ∷ ws) u w (d, ds) (inl p) (inl q) e = p ∙ sym q
same_write (x ∷ ws) u w (d, ds) (inl p) (inr j) e =
    absurd (All-IsAmong (λ v. v.hlc ≢ x.hlc) ws w d j (sym e ∙ ap (λ (v : Write). v.hlc) p))
same_write (x ∷ ws) u w (d, ds) (inr i) (inl q) e =
    absurd (All-IsAmong (λ v. v.hlc ≢ x.hlc) ws u d i (e ∙ ap (λ (v : Write). v.hlc) q))
same_write (x ∷ ws) u w (d, ds) (inr i) (inr j) e = same_write ws u w ds i j e

-- Whatever a node stores under a key after any run from empty nodes with different node ids, of as many steps as
-- the logical counters have room for, is a write that a client asked for: with this key, this value and this timestamp.
pub stores-IsIssued :
    (n : ℕ) (s t : System) (ws : List Write) (a key : String) (v : VersionedValue)
    → IsFresh n s
    → Run s n ws t
    → Storage.get key (t.nodes a).store ≡ some v
    → IsIssued ws key v.value v.hlc
stores-IsIssued n s t ws a key v fresh run found =
    (IsFresh-Run-Inv n s t ws fresh run).stores a key v found

-- After any run from empty nodes with different node ids, of as many steps as the logical counters have room for,
-- values with one timestamp, at whatever nodes and under whatever keys they stand, are one value under one key. The
-- steps are the accesses of client writes, of `Replicate` calls, which come in any order or are lost, and of
-- the engines, one at a time and interleaved in any way, health checks without a timestamp, and steps that
-- leave stores, clocks and logs alone.
pub stores-agree :
    (n : ℕ) (s t : System) (ws : List Write) (a b j k : String) (v w : VersionedValue)
    → IsFresh n s
    → Run s n ws t
    → Storage.get j (t.nodes a).store ≡ some v
    → Storage.get k (t.nodes b).store ≡ some w
    → v.hlc ≡ w.hlc
    → (j ≡ k) × (v.value ≡ w.value)
stores-agree n s t ws a b j k v w fresh run here there same =
    let inv = IsFresh-Run-Inv n s t ws fresh run in
    let i = inv.stores a j v here in
    let i' = inv.stores b k w there in
    let e =
      same_write ws i.write i'.write inv.distinct i.among i'.among
        (i.same_hlc ∙ same ∙ sym i'.same_hlc) in
    (
      sym i.same_key ∙ ap (λ (u : Write). u.key) e ∙ i'.same_key,
      sym i.same_value ∙ ap (λ (u : Write). u.value) e ∙ i'.same_value,
    )
