-- ===== src/Cluster/Async/Keeps.antt =====
-- What keeps the invariant of a system of nodes: a change of one node, and of the calls on their way.
use acp_kv.Storage
use acp_kv.Prelude.{
  All, Bool-cases, List, String, [], ap, arith, inl, inr, some, str_eq, str_eq_iff, subst, suc, sym,
  ℕ, ℤ, ◌++◌, ◌∷◌, ◌≡◌, refl, ◌⊎◌, ◌∙◌,
}
use acp_kv.Cluster.Async.{
  log_of, Call, Running, System, Task, Write, send_all, set_node, put_storing, put_logging,
  put_sending, accept_storing, accept_logging, waking, settling, overwriting,
}
use acp_kv.Cluster.Async.Logs.{All-more, HoldsLog-more}
use acp_kv.Cluster.Async.Inv.{
  HoldsIssued, HoldsLog, IsIssued, IsSent, IsTask, IsRunning, Upto, clock_at, Follows, Inv,
  IsDistinct, IsPast, apart-Follows, issued-Follows,
}
use acp_kv.Cluster.Holders.{holds}
use acp_kv.Hlc.{update, reading, Clock, Hlc, now_hlc}
use acp_kv.Hlc.Monotone.{Room, update-Before, update_cases}
use acp_kv.Proto.{ReplicateRequest}
use acp_kv.Server.{Server}
use acp_kv.Storage.{Bytes, VersionedValue, stamped}

pub id-now_hlc : (now : ℤ) (c : Clock) → (now_hlc now c).1.node_id ≡ c.node_id
unfolding now_hlc
id-now_hlc now c = ground arith

pub id-update : (now : ℤ) (h : Hlc) (c : Clock) → (update now h c).1.node_id ≡ c.node_id
unfolding update
id-update now h c = ground arith

pub update-Upto :
    (n : ℕ) (now : ℤ) (h : Hlc) (c : Clock)
    → Room (suc n) c.logical
    → Room (suc n) h.logical
    → Upto (reading c) (reading (update now h c).1)
update-Upto n now h c room room' = elim (update_cases now h c) [
  | inl ok ↦ inr (update-Before now h c (omega arith, room.1) (omega arith, room'.1) ok).0
  | inr same ↦ inl (ap reading (sym same))
]

pub set_node_cases :
    (a : String) (t : Server) (nodes : String → Server) (b : String)
    → ((b ≡ a) × (set_node a t nodes b ≡ t)) ⊎ (set_node a t nodes b ≡ nodes b)
unfolding set_node
set_node_cases a t nodes b = elim (Bool-cases (str_eq b a)) [
  | inl self ↦ inl ((str_eq_iff b a).0 self, rw self refl)
  | inr other ↦ inr (rw other refl)
]

pub set_node_self : (a : String) (t : Server) (nodes : String → Server) → set_node a t nodes a ≡ t
unfolding set_node
set_node_self a t nodes = rw ((str_eq_iff a a).1 refl) refl

-- How a node's clock may change in a step.
abbrev pub ClockFollows : ℕ → Clock → Clock → Type 0
ClockFollows n c d = (d.node_id ≡ c.node_id) × Upto (reading c) (reading d) × Room n d.logical

-- One node changed.
pub set_node-Follows :
    (n : ℕ) (s : System) (a : String) (t : Server) (calls : List Call) (tasks : List Running)
    → ClockFollows n (clock_at s a) t.hlc_clock
    → ((b : String) → Room (suc n) (clock_at s b).logical)
    → Follows n s (record { nodes = set_node a t s.nodes; calls = calls; tasks = tasks })
set_node-Follows n s a t calls tasks f rooms b = elim (set_node_cases a t s.nodes b) [
  | inl (self, e) ↦
      subst (λ (u : Server). ClockFollows n (clock_at s b) u.hlc_clock) (sym e)
        (subst (λ c. ClockFollows n (clock_at s c) t.hlc_clock) (sym self) f)
  | inr e ↦
      subst (λ (u : Server). ClockFollows n (clock_at s b) u.hlc_clock) (sym e)
        (refl, inl refl, (omega (arith, (rooms b).0), (rooms b).1))
]

pub IsIssued-cons :
    (w : Write) (ws : List Write) (key : String) (value : Bytes) (h : Hlc)
    → IsIssued ws key value h
    → IsIssued (w ∷ ws) key value h
IsIssued-cons w ws key value h i = record {
  write = i.write;
  among = inr i.among;
  same_key = i.same_key;
  same_value = i.same_value;
  same_hlc = i.same_hlc;
}

pub IsSent-cons :
    (w : Write) (ws : List Write) (cs : List Call) → All (IsSent ws) cs → All (IsSent (w ∷ ws)) cs
IsSent-cons w ws [] h = tt
IsSent-cons w ws (c ∷ cs) ((h, e, i), hs) =
    ((h, e, IsIssued-cons w ws c.request.key c.request.value h i), IsSent-cons w ws cs hs)

pub IsTask-cons : (w : Write) (ws : List Write) (t : Task) → IsTask ws t → IsTask (w ∷ ws) t
IsTask-cons w ws (put_storing p) i = IsIssued-cons w ws p.key p.value p.hlc i
IsTask-cons w ws (put_logging p) i = IsIssued-cons w ws p.key p.value p.hlc i
IsTask-cons w ws (put_sending p) i = IsIssued-cons w ws p.key p.value p.hlc i
IsTask-cons w ws (accept_storing p) i = IsIssued-cons w ws p.key p.value p.hlc i
IsTask-cons w ws (accept_logging p) i = IsIssued-cons w ws p.key p.value p.hlc i
IsTask-cons w ws waking i = tt
IsTask-cons w ws (settling es) i = All-more ws (w ∷ ws) es (IsIssued-cons w ws) i
IsTask-cons w ws (overwriting e es) (i, is) =
    (IsIssued-cons w ws e.key e.value e.hlc i, All-more ws (w ∷ ws) es (IsIssued-cons w ws) is)

pub IsRunning-cons :
    (w : Write) (ws : List Write) (rs : List Running)
    → All (IsRunning ws) rs
    → All (IsRunning (w ∷ ws)) rs
IsRunning-cons w ws [] h = tt
IsRunning-cons w ws (r ∷ rs) (h, hs) = (IsTask-cons w ws r.task h, IsRunning-cons w ws rs hs)

module _ {A : Type 0} (P : A → Type 0) where
  pub All-append : (xs ys : List A) → All P xs → All P ys → All P (xs ++ ys)
  All-append [] ys h k = k
  All-append (x ∷ xs) ys (h, hs) k = (h, All-append xs ys hs k)

  pub All-split : (xs ys : List A) → All P (xs ++ ys) → All P xs × All P ys
  All-split [] ys h = (tt, h)
  All-split (x ∷ xs) ys (h, hs) = let (p, q) = All-split xs ys hs in ((h, p), q)

  pub All-remove :
      (before : List A) (x : A) (after : List A)
      → All P (before ++ x ∷ after)
      → P x × All P (before ++ after)
  All-remove [] x after (h, hs) = (h, hs)
  All-remove (b ∷ before) x after (h, hs) =
      let (p, ps) = All-remove before x after hs in (p, (h, ps))

pub send_all-IsSent :
    (ws : List Write) (r : ReplicateRequest) (addrs : List String)
    → ((h : Hlc) × (r.hlc ≡ some h) × IsIssued ws r.key r.value h)
    → All (IsSent ws) (send_all r addrs)
unfolding send_all
send_all-IsSent ws r [] h = tt
send_all-IsSent ws r (a ∷ addrs) h = (h, send_all-IsSent ws r addrs h)

pub keep-Inv :
    (n : ℕ) (ws ws' : List Write) (s : System) (a : String) (t : Server) (calls : List Call)
    (tasks : List Running)
    → Inv (suc n) ws s
    → ClockFollows n (clock_at s a) t.hlc_clock
    → ((key : String) (value : Bytes) (h : Hlc)
        → IsIssued ws key value h
        → IsIssued ws' key value h)
    → All (IsSent ws') calls
    → All (IsRunning ws') tasks
    → All (IsPast n (record { nodes = set_node a t s.nodes; calls = calls; tasks = tasks })) ws'
    → IsDistinct ws'
    → HoldsIssued ws' t.store
    → HoldsLog ws' (log_of t.reconciler)
    → Inv n ws' (record { nodes = set_node a t s.nodes; calls = calls; tasks = tasks })
keep-Inv n ws ws' s a t calls tasks inv f more sent going past distinct holds log =
    let follows = set_node-Follows n s a t calls tasks f inv.room in
    record {
      apart =
          apart-Follows n s (record { nodes = set_node a t s.nodes; calls = calls; tasks = tasks })
            inv.apart follows;
      room = λ b. (follows b).2;
      calls = sent;
      tasks = going;
      issued = past;
      distinct = distinct;
      stores = λ b key v found. elim (set_node_cases a t s.nodes b) [
        | inl (_, e) ↦ holds key v (ap (λ (u : Server). Storage.get key u.store) (sym e) ∙ found)
        | inr e ↦
            more key v.value v.hlc
              (inv.stores b key v (ap (λ (u : Server). Storage.get key u.store) (sym e) ∙ found))
      ];
      logs = λ b. elim (set_node_cases a t s.nodes b) [
        | inl (_, e) ↦ subst (λ (u : Server). HoldsLog ws' (log_of u.reconciler)) (sym e) log
        | inr e ↦
            subst (λ (u : Server). HoldsLog ws' (log_of u.reconciler)) (sym e)
              (HoldsLog-more ws ws' (log_of (s.nodes b).reconciler) more (inv.logs b))
      ];
    }

-- A step that issues nothing.
pub quiet-Inv :
    (n : ℕ) (ws : List Write) (s : System) (a : String) (t : Server) (calls : List Call)
    (tasks : List Running)
    → Inv (suc n) ws s
    → ClockFollows n (clock_at s a) t.hlc_clock
    → All (IsSent ws) calls
    → All (IsRunning ws) tasks
    → HoldsIssued ws t.store
    → HoldsLog ws (log_of t.reconciler)
    → Inv n ws (record { nodes = set_node a t s.nodes; calls = calls; tasks = tasks })
quiet-Inv n ws s a t calls tasks inv f sent going holds log =
    keep-Inv n ws ws s a t calls tasks inv f (λ key value h i. i) sent going
      (issued-Follows n s (record { nodes = set_node a t s.nodes; calls = calls; tasks = tasks }) ws
        inv.issued (set_node-Follows n s a t calls tasks f inv.room))
      inv.distinct holds log
