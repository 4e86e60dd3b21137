-- ===== src/Cluster/Async/Advances.antt =====
-- What runs at a node writes and sends only what was issued, and leaves the clock alone.
use acp_kv.Prelude.{
  All, Bool-cases, List, Option, Option-cases, [], inl, inr, none, refl, some, ℤ, ◌∷◌, ◌≡◌,
}
use acp_kv.Cluster.Async.{
  Call, Pending, Task, Write, accept_logging, accept_storing, advance, read_log, compare_next,
  log_of, log_pending, overwrites, overwriting, pending_of, put_logging, put_sending, put_storing,
  request_for, settling, store_pending, waking,
}
use acp_kv.Cluster.Async.Inv.{HoldsIssued, HoldsLog, IsEntry, IsPending, IsSent, IsTask}
use acp_kv.Cluster.Async.Keeps.{send_all-IsSent}
use acp_kv.Cluster.Async.Logs.{get_all-IsEntry, holds_write, log_write-HoldsLog}
use acp_kv.Prelude.Map.{keys}
use acp_kv.Reconcile.Engine.{Engine}
use acp_kv.Reconcile.Log.{WriteEntry, get_all}
use acp_kv.Server.{Server}
use acp_kv.Storage
use acp_kv.Storage.{VersionedValue}
use acp_kv.Storage.Laws.{get-put_with_hlc}

-- What the next access of a task leaves behind.
pub record IsKept (ws : List Write) (s : Server) (r : Server × List Task × List Call) : Type 0 where
  pub same_clock : r.0.hlc_clock ≡ s.hlc_clock
  pub holds : HoldsIssued ws r.0.store
  pub log : HoldsLog ws (log_of r.0.reconciler)
  pub goes_on : All (IsTask ws) r.1
  pub sends : All (IsSent ws) r.2

module _ (ws : List Write) (now : ℤ) (s : Server) (holds : HoldsIssued ws s.store)
    (log : HoldsLog ws (log_of s.reconciler)) where
  storing : (p : Pending) → IsPending ws p → HoldsIssued ws (store_pending now p s).store
  storing p i =
      holds_write ws s.store (store_pending now p s).store p.key p.value now p.node_id p.hlc
        (λ j. get-put_with_hlc now p.key j p.value p.node_id p.hlc s.store) holds i

  logging : (p : Pending) → IsPending ws p → HoldsLog ws (log_of (log_pending now p s).reconciler)
  logging p i = log_write-HoldsLog ws now p.key p.value p.node_id p.hlc s.reconciler log i

  IsKept-storing :
      (p : Pending) (t : Task)
      → IsPending ws p
      → IsTask ws t
      → IsKept ws s (store_pending now p s, t ∷ [], [])
  IsKept-storing p t i k = record {
    same_clock = refl;
    holds = storing p i;
    log = log;
    goes_on = (k, tt);
    sends = tt;
  }

  IsKept-logging :
      (p : Pending) (ts : List Task)
      → IsPending ws p
      → All (IsTask ws) ts
      → IsKept ws s (log_pending now p s, ts, [])
  IsKept-logging p ts i ks = record {
    same_clock = refl;
    holds = holds;
    log = logging p i;
    goes_on = ks;
    sends = tt;
  }

  IsKept-reading : (ts : List Task) → All (IsTask ws) ts → IsKept ws s (s, ts, [])
  IsKept-reading ts ks = record {
    same_clock = refl;
    holds = holds;
    log = log;
    goes_on = ks;
    sends = tt;
  }

  compare_next-IsTask :
      (w : WriteEntry) (es : List WriteEntry) (o : Option VersionedValue)
      → IsEntry ws w
      → All (IsEntry ws) es
      → IsTask ws (compare_next w es o)
  unfolding compare_next
  compare_next-IsTask w es none i is = is
  compare_next-IsTask w es (some local) i is = elim (Bool-cases (overwrites w local)) [
    | inl later ↦ rw later (i, is)
    | inr older ↦ rw older is
  ]

  read_log-IsTask : (o : Option Engine) → HoldsLog ws (log_of o) → All (IsTask ws) (read_log now o)
  unfolding read_log
  read_log-IsTask none h = tt
  read_log-IsTask (some e) h = elim (Option-cases (get_all now e.recent_writes)) [
    | inl panic ↦ rw panic tt
    | inr (es, got) ↦ rw got (get_all-IsEntry ws now e.recent_writes es h got, tt)
  ]

  pub advance-IsKept : (t : Task) → IsTask ws t → IsKept ws s (advance now t s)
  unfolding advance
  advance-IsKept (put_storing p) i = IsKept-storing p (put_logging p) i i
  advance-IsKept (put_logging p) i = IsKept-logging p (put_sending p ∷ []) i (i, tt)
  advance-IsKept (put_sending p) i = record {
    same_clock = refl;
    holds = holds;
    log = log;
    goes_on = tt;
    sends = send_all-IsSent ws (request_for p s) (keys s.coordinator.peers) (p.hlc, refl, i);
  }
  advance-IsKept (accept_storing p) i = IsKept-storing p (accept_logging p) i i
  advance-IsKept (accept_logging p) i = IsKept-logging p [] i tt
  advance-IsKept waking i =
      IsKept-reading (read_log now s.reconciler) (read_log-IsTask s.reconciler log)
  advance-IsKept (settling []) i = IsKept-reading [] tt
  advance-IsKept (settling (w ∷ es)) (i, is) =
      IsKept-reading (compare_next w es (Storage.get w.key s.store) ∷ [])
        (compare_next-IsTask w es (Storage.get w.key s.store) i is, tt)
  advance-IsKept (overwriting w es) (i, is) = IsKept-storing (pending_of w) (settling es) i is
