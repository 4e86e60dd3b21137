-- ===== src/Cluster/Async/Logs.antt =====
-- What stores and logs hold was issued, through every write.
use acp_kv.Storage
use acp_kv.Prelude.{
  length-set, leb_ℤ, All, All-append, All-set, Bool-cases, List, Option, String, [], arith,
  if◌then◌else◌, inl, inr, ltb, none, refl, select, set, some, str_eq, str_eq_iff, subst, suc, sym,
  take, ℤ, ◌++◌, ◌+◌, ◌<◌, ◌∙◌, ◌∷◌, ◌≡◌, ap, Bool,
}
use acp_kv.Prelude.Window.{take-set, take_all}
use acp_kv.Cluster.Async.{Write, log_of}
use acp_kv.Cluster.Async.Inv.{HoldsIssued, HoldsLog, IsEntry, IsIssued}
use acp_kv.Hlc.{Hlc}
use acp_kv.Reconcile.Engine.{Engine, record_write}
use acp_kv.Reconcile.Log.{RecentWriteLog, WriteEntry, add, cutoff, get_all}
use acp_kv.Reconcile.Log.Inv.{IsValid, add-writes, entry_of}
use acp_kv.Reconcile.Log.Writes.{get_from_lem}
use acp_kv.Server.{log_write}
use acp_kv.Storage.{Bytes, Store, VersionedValue, put_with_hlc, stamped}

pub All-more :
    (ws ws' : List Write) (es : List WriteEntry)
    → ((key : String) (value : Bytes) (h : Hlc)
        → IsIssued ws key value h
        → IsIssued ws' key value h)
    → All (IsEntry ws) es
    → All (IsEntry ws') es
All-more ws ws' [] more h = tt
All-more ws ws' (e ∷ es) more (h, hs) = (more e.key e.value e.hlc h, All-more ws ws' es more hs)

pub HoldsLog-more :
    (ws ws' : List Write) (o : Option RecentWriteLog)
    → ((key : String) (value : Bytes) (h : Hlc)
        → IsIssued ws key value h
        → IsIssued ws' key value h)
    → HoldsLog ws o
    → HoldsLog ws' o
HoldsLog-more ws ws' none more h = tt
HoldsLog-more ws ws' (some l) more (v, h) = (v, All-more ws ws' (take l.count l.entries) more h)

All-select :
    (P : WriteEntry → Type 0) (q : WriteEntry → Bool) (es : List WriteEntry)
    → All P es
    → All P (select q es)
All-select P q [] h = tt
All-select P q (x ∷ es) (h, hs) = elim (Bool-cases (q x)) [
  | inl e ↦ rw e (h, All-select P q es hs)
  | inr e ↦ rw e (All-select P q es hs)
]

take-filling :
    (l : RecentWriteLog) (e : WriteEntry)
    → IsValid l
    → l.count < l.max_size
    → take (l.count + 1) (set l.entries l.index e) ≡ take l.count l.entries ++ e ∷ []
take-filling l e v filling =
    let at : l.index ≡ l.count = v.ring.2 (omega (arith, filling, v.sized)) in
    let step : l.count + 1 ≡ suc l.index = omega (arith, at) in
    ap (λ n. take n (set l.entries l.index e)) step
    ∙ take-set l.entries l.index e v.ring.0
    ∙ ap (λ n. take n l.entries ++ e ∷ []) at

-- The slots in use after a write.
All-add :
    (P : WriteEntry → Type 0) (l : RecentWriteLog) (e : WriteEntry)
    → IsValid l
    → P e
    → All P (take l.count l.entries)
    → All P
        (take (if ltb l.count l.max_size then l.count + 1 else l.count) (set l.entries l.index e))
All-add P l e v p h = elim (Bool-cases (ltb l.count l.max_size)) [
  | inl filling ↦ rw filling (
      subst (All P) (sym (take-filling l e v (ground (arith, filling))))
        (All-append P (take l.count l.entries) (e ∷ []) h (p, tt)))
  | inr full ↦ rw full (
      subst (All P)
        (sym (
          take_all (set l.entries l.index e) l.count
            (ground (arith, full, v.sized, length-set l.entries l.index e))))
        (All-set P l.entries l.index e p
          (subst (All P) (take_all l.entries l.count (ground (arith, full, v.sized))) h)))
]

add-HoldsLog :
    (ws : List Write) (now : ℤ) (key : String) (value : Bytes) (id : String) (t : Hlc)
    (l : RecentWriteLog)
    → HoldsLog ws (some l)
    → IsIssued ws key value t
    → HoldsLog ws (some (add now key value id t l))
unfolding add
add-HoldsLog ws now key value id t l (v, h) i = (
  (add-writes now key value id t l v).0,
  All-add (IsEntry ws) l (entry_of now key value id t) v i h,
)

pub log_write-HoldsLog :
    (ws : List Write) (now : ℤ) (key : String) (value : Bytes) (id : String) (t : Hlc)
    (o : Option Engine)
    → HoldsLog ws (log_of o)
    → IsIssued ws key value t
    → HoldsLog ws (log_of (log_write now key value id t o))
unfolding log_write record_write
log_write-HoldsLog ws now key value id t none h i = tt
log_write-HoldsLog ws now key value id t (some e) h i =
    add-HoldsLog ws now key value id t e.recent_writes h i

-- What `GetAll` returns was issued.
pub get_all-IsEntry :
    (ws : List Write) (now : ℤ) (l : RecentWriteLog) (es : List WriteEntry)
    → HoldsLog ws (some l)
    → get_all now l ≡ some es
    → All (IsEntry ws) es
unfolding get_all
get_all-IsEntry ws now l es (v, h) e =
    let found = get_from_lem l v l.count 0 (cutoff now l) (omega (arith, v.ring)) in
    let same : select (λ w. leb_ℤ (cutoff now l) w.timestamp) (take l.count l.entries) ≡ es =
      cc (found, e) in
    subst (All (IsEntry ws)) same
      (All-select (IsEntry ws) (λ w. leb_ℤ (cutoff now l) w.timestamp) (take l.count l.entries) h)

-- A write of an issued value under its key.
pub holds_write :
    (ws : List Write) (s t : Store) (k : String) (value : Bytes) (now : ℤ) (id : String) (h : Hlc)
    → ((j : String)
        → Storage.get j t ≡ (if str_eq k j then some (stamped now value id h) else Storage.get j s))
    → HoldsIssued ws s
    → IsIssued ws k value h
    → HoldsIssued ws t
unfolding stamped
holds_write ws s t k value now id h wrote holds i key v found = elim (Bool-cases (str_eq k key)) [
  | inl same ↦
      let e : some (stamped now value id h) ≡ some v = sym (wrote key ∙ rw same refl) ∙ found in
      let q : stamped now value id h ≡ v = cc (e) in
      subst (λ (u : VersionedValue). IsIssued ws key u.value u.hlc) q
        (record {
          write = i.write;
          among = i.among;
          same_key = i.same_key ∙ (str_eq_iff k key).0 same;
          same_value = i.same_value;
          same_hlc = i.same_hlc;
        })
  | inr other ↦ holds key v (sym (wrote key ∙ rw other refl) ∙ found)
]
