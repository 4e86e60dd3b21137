-- ===== src/Cluster/Async/Inv.antt =====
-- What holds of every system of nodes: timestamps are given once, and whatever is stored or on its way
-- was written by a client.
use acp_kv.Storage
use acp_kv.Prelude.{
  Option, none, take, All, String, [], ap, arith, inl, inr, some, suc, sym, ℕ, ◌∙◌, ◌∷◌, ◌≡◌, ◌≢◌,
  ◌⊎◌, List, subst,
}
use acp_kv.Cluster.Async.{
  Call, Pending, Running, System, Task, Write, accept_logging, accept_storing, log_of, overwriting,
  put_logging, put_sending, put_storing, settling, waking,
}
use acp_kv.Hlc.{reading, Clock, Hlc}
use acp_kv.Hlc.Monotone.{Room}
use acp_kv.Hlc.Order.{Before, Before-trans, Before-irrefl}
use acp_kv.Reconcile.Log.{RecentWriteLog, WriteEntry}
use acp_kv.Reconcile.Log.Inv.{IsValid}
use acp_kv.Storage.{Store, Bytes, VersionedValue}

-- The write is one of the list.
abbrev pub IsAmong : Write → List Write → Type 0
IsAmong w [] = ⊥
IsAmong w (x ∷ xs) = (w ≡ x) ⊎ IsAmong w xs

-- A write of the list has this key, value and timestamp.
pub record IsIssued (ws : List Write) (key : String) (value : Bytes) (hlc : Hlc) : Type 0 where
  pub write : Write
  pub among : IsAmong write ws
  pub same_key : write.key ≡ key
  pub same_value : write.value ≡ value
  pub same_hlc : write.hlc ≡ hlc

-- No two writes of the list have the same timestamp.
abbrev pub IsDistinct : List Write → Type 0
IsDistinct [] = Unit
IsDistinct (w ∷ ws) = All (λ u. u.hlc ≢ w.hlc) ws × IsDistinct ws

-- The timestamp is the clock's reading or before it.
abbrev pub Upto : Hlc → Hlc → Type 0
Upto h g = (h ≡ g) ⊎ Before h g

abbrev pub clock_at : System → String → Clock
clock_at s a = (s.nodes a).hlc_clock

-- The timestamp of the write is one that the clock of its origin gave.
pub record IsPast (n : ℕ) (s : System) (w : Write) : Type 0 where
  pub own : w.hlc.node_id ≡ (clock_at s w.origin).node_id
  pub room : Room n w.hlc.logical
  pub past : Upto w.hlc (reading (clock_at s w.origin))

-- The request of a call is a write that was issued.
abbrev pub IsSent : List Write → Call → Type 0
IsSent ws c = (h : Hlc) × (c.request.hlc ≡ some h) × IsIssued ws c.request.key c.request.value h

-- Whatever the store holds was issued.
abbrev pub HoldsIssued : List Write → Store → Type 0
HoldsIssued ws store =
    (key : String) (v : VersionedValue)
    → Storage.get key store ≡ some v
    → IsIssued ws key v.value v.hlc

-- A logged write was issued.
abbrev pub IsEntry : List Write → WriteEntry → Type 0
IsEntry ws w = IsIssued ws w.key w.value w.hlc

-- What runs carries writes that were issued.
abbrev pub IsPending : List Write → Pending → Type 0
IsPending ws p = IsIssued ws p.key p.value p.hlc

abbrev pub IsTask : List Write → Task → Type 0
IsTask ws (put_storing p) = IsPending ws p
IsTask ws (put_logging p) = IsPending ws p
IsTask ws (put_sending p) = IsPending ws p
IsTask ws (accept_storing p) = IsPending ws p
IsTask ws (accept_logging p) = IsPending ws p
IsTask ws waking = Unit
IsTask ws (settling es) = All (IsEntry ws) es
IsTask ws (overwriting e es) = IsEntry ws e × All (IsEntry ws) es

abbrev pub IsRunning : List Write → Running → Type 0
IsRunning ws r = IsTask ws r.task

-- The log, if there is one, is consistent, and its slots in use hold writes that were issued.
abbrev pub HoldsLog : List Write → Option RecentWriteLog → Type 0
HoldsLog ws none = Unit
HoldsLog ws (some l) = IsValid l × All (IsEntry ws) (take l.count l.entries)

-- What holds of a system in which `ws` were issued and that has `n` steps to go.
pub record Inv (n : ℕ) (ws : List Write) (s : System) : Type 0 where
  pub apart : (a b : String) → (clock_at s a).node_id ≡ (clock_at s b).node_id → a ≡ b
  pub room : (a : String) → Room n (clock_at s a).logical
  pub calls : All (IsSent ws) s.calls
  pub tasks : All (IsRunning ws) s.tasks
  pub issued : All (IsPast n s) ws
  pub distinct : IsDistinct ws
  pub stores : (a : String) → HoldsIssued ws (s.nodes a).store
  pub logs : (a : String) → HoldsLog ws (log_of (s.nodes a).reconciler)

-- No clock goes back, changes its node, or comes near its limit.
abbrev pub Follows : ℕ → System → System → Type 0
Follows n s t =
    (a : String)
    → ((clock_at t a).node_id ≡ (clock_at s a).node_id)
      × Upto (reading (clock_at s a)) (reading (clock_at t a))
      × Room n (clock_at t a).logical

Upto-trans : (h g k : Hlc) → Upto h g → Upto g k → Upto h k
Upto-trans h g k (inl e) q = rw e q
Upto-trans h g k (inr p) (inl e) = inr (rw (← e) p)
Upto-trans h g k (inr p) (inr q) = inr (Before-trans h g k p q)

pub apart-Follows :
    (n : ℕ) (s t : System)
    → ((a b : String) → (clock_at s a).node_id ≡ (clock_at s b).node_id → a ≡ b)
    → Follows n s t
    → (a b : String) → (clock_at t a).node_id ≡ (clock_at t b).node_id
    → a ≡ b
apart-Follows n s t apart adv a b e = apart a b (sym ((adv a).0) ∙ e ∙ (adv b).0)

pub issued-Follows :
    (n : ℕ) (s t : System) (ws : List Write)
    → All (IsPast (suc n) s) ws
    → Follows n s t
    → All (IsPast n t) ws
issued-Follows n s t [] h adv = tt
issued-Follows n s t (w ∷ ws) (p, h) adv =
    let (id, up, _) = adv w.origin in
    (
      record {
        own = p.own ∙ sym id;
        room = (omega (arith, p.room.0), p.room.1);
        past =
            Upto-trans w.hlc (reading (clock_at s w.origin)) (reading (clock_at t w.origin)) p.past
              up;
      },
      issued-Follows n s t ws h adv,
    )

pub Upto-Before : (h g k : Hlc) → Upto h g → Before g k → Before h k
Upto-Before h g k (inl e) q = rw e q
Upto-Before h g k (inr p) q = Before-trans h g k p q

-- A new timestamp of the clock at `a` is none of those given before.
not_given :
    (n : ℕ) (s : System) (w : Write) (a : String) (h : Hlc)
    → ((a b : String) → (clock_at s a).node_id ≡ (clock_at s b).node_id → a ≡ b)
    → h.node_id ≡ (clock_at s a).node_id
    → Before (reading (clock_at s a)) h
    → IsPast n s w
    → w.hlc ≢ h
not_given n s w a h apart id later p = λ e.
    let o : w.origin ≡ a = apart w.origin a (sym p.own ∙ ap (λ (g : Hlc). g.node_id) e ∙ id) in
    let past = subst (λ b. Upto w.hlc (reading (clock_at s b))) o p.past in
    let loop : Before h h =
      subst (λ u. Before u h) e (Upto-Before w.hlc (reading (clock_at s a)) h past later) in
    cc (loop, Before-irrefl h)

pub not_given_all :
    (n : ℕ) (s : System) (ws : List Write) (a : String) (h : Hlc)
    → ((a b : String) → (clock_at s a).node_id ≡ (clock_at s b).node_id → a ≡ b)
    → h.node_id ≡ (clock_at s a).node_id
    → Before (reading (clock_at s a)) h
    → All (IsPast n s) ws
    → All (λ u. u.hlc ≢ h) ws
not_given_all n s [] a h apart id later p = tt
not_given_all n s (w ∷ ws) a h apart id later (p, ps) =
    (not_given n s w a h apart id later p, not_given_all n s ws a h apart id later ps)
