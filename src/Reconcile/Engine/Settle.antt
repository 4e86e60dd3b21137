-- ===== src/Reconcile/Engine/Settle.antt =====
-- Reconciliation is last-write-wins (`reconcileWithPeer` of internal/reconcile/engine.go).
use mathlib.Core.List.{Perm}
use acp_kv.Prelude.{
  Bool, String, arith, false, if◌then◌else◌, none, some, str_eq, str_gt, true, ℤ, ◌&&◌, ◌||◌, ◌≡◌,
  Option, Option-cases, inl, inr, str_eq_iff, All, Bool-cases, List, [], refl, ℕ, ◌+◌, ◌∷◌, ◌⊎◌,
  select,
}
use acp_kv.Hlc.{equal, Hlc, happens_before, happens_after}
use acp_kv.Hlc.Order.{
  Before-asymm, Before-equal, Before-irrefl, Before-not_equal, Before-trans, equal-Before,
  equal_comm, equal_trans,
}
use acp_kv.Metrics.{Metrics}
use acp_kv.Prelude.Map.{str_eq_refl}
use acp_kv.Prelude.TextOrder.{str_gt_irrefl, str_gt_trans}
use acp_kv.Reconcile.Engine.{
  Engine, Progress, count_run, resolve, reconcile_write, reconcile_from, reconcile_with_peer,
}
use acp_kv.Reconcile.Log.{WriteEntry}
use acp_kv.Reconcile.Log.Inv.{IsValid, writes}
use acp_kv.Reconcile.Log.Writes.{fresh, get_all-writes}
use acp_kv.Storage.{get, VersionedValue, put_with_hlc, stamped, Store}
use acp_kv.Storage.Laws.{get-put_with_hlc}

-- The order that decides a conflict: the later timestamp, or of equal ones the larger node id.
pub outranks : Hlc → String → Hlc → String → Bool
outranks h n g m = happens_before g h || (equal g h && str_gt n m)

pub outranks_trans :
    (h : Hlc) (n : String) (g : Hlc) (m : String) (k : Hlc) (o : String)
    → outranks h n g m ≡ true
    → outranks g m k o ≡ true
    → outranks h n k o ≡ true
unfolding outranks
outranks_trans h n g m k o p q = ground (
  arith,
  str_gt_trans n m o,
  Before-trans k g h,
  equal_trans k g h,
  equal-Before k g h,
  Before-equal k g h,
)

outranks_irrefl : (h : Hlc) (n : String) → outranks h n h n ≡ false
unfolding outranks
outranks_irrefl h n = ground (arith, str_gt_irrefl n, Before-irrefl h)

-- A logged write outranks a stored value.
abbrev pub wins : WriteEntry → VersionedValue → Bool
wins w v = outranks w.hlc w.node_id v.hlc v.node_id

pub resolve_lem :
    (now : ℤ) (w : WriteEntry) (v : VersionedValue) (p : Progress)
    → (resolve now w v p).store
      ≡ (if wins w v then (put_with_hlc now w.key w.value w.node_id w.hlc p.store).1 else p.store)
unfolding resolve outranks happens_after
resolve_lem now w v p =
    ground (arith, equal_comm w.hlc v.hlc, Before-asymm w.hlc v.hlc, Before-not_equal w.hlc v.hlc)

-- The value under a key once the loop has seen a write.
abbrev pub settled : ℤ → WriteEntry → String → Option VersionedValue → Option VersionedValue
settled now w j none = none
settled now w j (some v) =
    if str_eq w.key j && wins w v then some (stamped now w.value w.node_id w.hlc) else some v

-- A round of the loop replaces the value under the write's key exactly where there is one and the
-- write outranks it. It changes no other key.
pub get-reconcile_write :
    (now : ℤ) (w : WriteEntry) (j : String) (p : Progress)
    → get j (reconcile_write now w p).store ≡ settled now w j (get j p.store)
unfolding reconcile_write
get-reconcile_write now w j p = elim (Option-cases (get w.key p.store)) [
  | inl absent ↦ ground (arith, str_eq_iff w.key j)
  | inr (v, found) ↦ ground (
    arith,
    str_eq_iff w.key j,
    resolve_lem now w v p,
    get-put_with_hlc now w.key j w.value w.node_id w.hlc p.store,
  )
]

-- The write does not outrank the value; there may be no value.
abbrev pub IsNotBeaten : Option VersionedValue → WriteEntry → Type 0
IsNotBeaten none w = Unit
IsNotBeaten (some v) w = wins w v ≡ false

-- A value stays, or gives way to one that outranks it.
abbrev pub Advances : Option VersionedValue → Option VersionedValue → Type 0
Advances none none = Unit
Advances none (some v') = ⊥
Advances (some v) none = ⊥
Advances (some v) (some v') = (v' ≡ v) ⊎ (outranks v'.hlc v'.node_id v.hlc v.node_id ≡ true)

settled-IsNotBeaten :
    (now : ℤ) (w : WriteEntry) (o : Option VersionedValue) → IsNotBeaten (settled now w w.key o) w
settled-IsNotBeaten now w none = tt
settled-IsNotBeaten now w (some v) = elim (Bool-cases (wins w v)) [
  | inl e ↦ rw (str_eq_refl w.key, e) (unfold stamped in outranks_irrefl w.hlc w.node_id)
  | inr e ↦ rw (str_eq_refl w.key, e) e
]

settled-keeps :
    (now : ℤ) (w w' : WriteEntry) (j : String) (o : Option VersionedValue)
    → IsNotBeaten o w'
    → IsNotBeaten (settled now w j o) w'
settled-keeps now w w' j none h = tt
settled-keeps now w w' j (some v) h = elim (Bool-cases (str_eq w.key j && wins w v)) [
  | inl e ↦ rw e (
      unfold stamped in
      ground (arith, outranks_trans w'.hlc w'.node_id w.hlc w.node_id v.hlc v.node_id))
  | inr e ↦ rw e h
]

settled-Advances :
    (now : ℤ) (w : WriteEntry) (j : String) (o : Option VersionedValue)
    → Advances o (settled now w j o)
settled-Advances now w j none = tt
settled-Advances now w j (some v) = elim (Bool-cases (str_eq w.key j && wins w v)) [
  | inl e ↦ rw e (unfold stamped in inr (ground arith))
  | inr e ↦ rw e (inl refl)
]

Advances-trans : (a b c : Option VersionedValue) → Advances a b → Advances b c → Advances a c
Advances-trans none none c h k = k
Advances-trans none (some y) c h k = absurd h
Advances-trans (some x) none c h k = absurd h
Advances-trans (some x) (some y) none h k = absurd k
Advances-trans (some x) (some y) (some z) h k =
    ground (arith, outranks_trans z.hlc z.node_id y.hlc y.node_id x.hlc x.node_id)

Advances-refl : (o : Option VersionedValue) → Advances o o
Advances-refl none = tt
Advances-refl (some v) = inl refl

-- Where the loop has run, no write of the list outranks the value under its key.
reconcile_from-keeps :
    (clock : ℕ → ℤ) (i : ℕ) (ws : List WriteEntry) (w : WriteEntry) (p : Progress)
    → IsNotBeaten (get w.key p.store) w
    → IsNotBeaten (get w.key (reconcile_from clock i ws p).store) w
unfolding reconcile_from
reconcile_from-keeps clock i [] w p h = h
reconcile_from-keeps clock i (x ∷ ws) w p h =
    reconcile_from-keeps clock (i + 1) ws w (reconcile_write (clock i) x p)
      (rw get-reconcile_write (settled-keeps (clock i) x w w.key (get w.key p.store) h))

-- After the loop no write of the list outranks the value that the store holds under its key: the
-- last write wins, whatever the order of the list.
pub reconcile_from-IsNotBeaten :
    (clock : ℕ → ℤ) (i : ℕ) (ws : List WriteEntry) (p : Progress)
    → All (λ w. IsNotBeaten (get w.key (reconcile_from clock i ws p).store) w) ws
unfolding reconcile_from
reconcile_from-IsNotBeaten clock i [] p = tt
reconcile_from-IsNotBeaten clock i (x ∷ ws) p = (
  reconcile_from-keeps clock (i + 1) ws x (reconcile_write (clock i) x p)
      (rw get-reconcile_write (settled-IsNotBeaten (clock i) x (get x.key p.store))),
  reconcile_from-IsNotBeaten clock (i + 1) ws (reconcile_write (clock i) x p),
)

-- The loop never takes a key back to a value of lower rank, and it neither adds nor removes a key.
pub reconcile_from-Advances :
    (clock : ℕ → ℤ) (i : ℕ) (ws : List WriteEntry) (j : String) (p : Progress)
    → Advances (get j p.store) (get j (reconcile_from clock i ws p).store)
unfolding reconcile_from
reconcile_from-Advances clock i [] j p = Advances-refl (get j p.store)
reconcile_from-Advances clock i (x ∷ ws) j p =
    Advances-trans (get j p.store) (get j (reconcile_write (clock i) x p).store)
      (get j (reconcile_from clock (i + 1) ws (reconcile_write (clock i) x p)).store)
      (rw get-reconcile_write (settled-Advances (clock i) x j (get j p.store)))
      (reconcile_from-Advances clock (i + 1) ws j (reconcile_write (clock i) x p))

-- A run over a consistent log does not panic. It leaves no unexpired write of the
-- log above the value that the store holds under its key, and takes no key back.
pub reconcile_with_peer_lem :
    (clock : ℕ → ℤ) (elapsed : ℤ) (peer : String) (e : Engine) (s : Store) (m : Metrics)
    → IsValid e.recent_writes
    → (s' : Store) × (m' : Metrics) × (ws : List WriteEntry) × (reconcile_with_peer clock elapsed
          peer e s m
        ≡ some (s', m'))
      × Perm ws (select (fresh (clock 0) e.recent_writes) (writes e.recent_writes))
      × All (λ w. IsNotBeaten (get w.key s') w) ws
      × ((j : String) → Advances (get j s) (get j s'))
unfolding reconcile_with_peer
reconcile_with_peer_lem clock elapsed peer e s m v =
    let (ws, found, same) = get_all-writes e.recent_writes v (clock 0) in
    let p0 : Progress = record { store = s; metrics = m; keys_reconciled = 0 } in
    (
      (reconcile_from clock 1 ws p0).store,
      count_run elapsed (reconcile_from clock 1 ws p0),
      ws,
      rw found,
      same,
      reconcile_from-IsNotBeaten clock 1 ws p0,
      λ j. reconcile_from-Advances clock 1 ws j p0,
    )
