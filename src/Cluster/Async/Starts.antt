-- ===== src/Cluster/Async/Starts.antt =====
-- What begins at a node, a client's `Put` or a `Replicate` call, keeps the invariant.
use acp_kv.Prelude.{
  ℤ, All, List, String, [], ap, arith, inl, inr, subst, suc, sym, ℕ, ◌++◌, ◌∷◌, ◌≡◌, refl, ◌∙◌,
}
use acp_kv.Cluster.Async.{
  Call, Running, System, Write, accept_storing, draw, log_of, put_storing, receive, set_node,
  write_of,
}
use acp_kv.Cluster.Async.Inv.{
  IsAmong, IsIssued, IsSent, clock_at, Inv, IsPast, issued-Follows, not_given_all,
}
use acp_kv.Cluster.Async.Keeps.{
  All-remove, ClockFollows, IsIssued-cons, IsRunning-cons, IsSent-cons, id-now_hlc, id-update,
  keep-Inv, quiet-Inv, set_node-Follows, set_node_self, update-Upto,
}
use acp_kv.Cluster.Async.Logs.{HoldsLog-more}
use acp_kv.Hlc.{Clock, Hlc, from_proto, now_hlc, reading}
use acp_kv.Hlc.Monotone.{Room, Room-now_hlc, Room-update, now_hlc-Before}
use acp_kv.Proto.{PutRequest}
use acp_kv.Server.{Server}

-- A timestamp just drawn from the clock at its write's origin.
given_IsPast :
    (n : ℕ) (s : System) (w : Write) (d : Clock)
    → clock_at s w.origin ≡ d
    → Room n d.logical
    → w.hlc ≡ reading d
    → IsPast n s w
given_IsPast n s w d here room drawn = record {
  own = ap (λ (h : Hlc). h.node_id) drawn ∙ sym (ap (λ (k : Clock). k.node_id) here);
  room = subst (λ (h : Hlc). Room n h.logical) (sym drawn) room;
  past = inl (drawn ∙ sym (ap reading here));
}

pub draws-Inv :
    (n : ℕ) (ws : List Write) (s : System) (a : String) (now : ℤ) (req : PutRequest)
    → Inv (suc n) ws s
    → let (t, p) = draw now req (s.nodes a) in
      Inv n (write_of a p ∷ ws) (record {
        nodes = set_node a t s.nodes;
        calls = s.calls;
        tasks = record { at = a; task = put_storing p } ∷ s.tasks;
      })
unfolding draw
draws-Inv n ws s a now req inv =
    let c = clock_at s a in
    let t = (draw now req (s.nodes a)).0 in
    let w = write_of a (draw now req (s.nodes a)).1 in
    let (drawn, later, _) = now_hlc-Before now c (omega arith, (inv.room a).1) in
    let f : ClockFollows n c t.hlc_clock =
      (id-now_hlc now c, inr (rw (← drawn) later), Room-now_hlc n now c (inv.room a)) in
    let mine : IsIssued (w ∷ ws) req.key req.value w.hlc = record {
      write = w;
      among = inl refl;
      same_key = refl;
      same_value = refl;
      same_hlc = refl;
    } in
    let tasks : List Running =
      record { at = a; task = put_storing (draw now req (s.nodes a)).1 } ∷ s.tasks in
    let s' : System = record { nodes = set_node a t s.nodes; calls = s.calls; tasks = tasks } in
    let here : clock_at s' a ≡ (now_hlc now c).1 =
      ap (λ (u : Server). u.hlc_clock) (set_node_self a t s.nodes) in
    keep-Inv n ws (w ∷ ws) s a t s.calls tasks inv f (IsIssued-cons w ws)
      (IsSent-cons w ws s.calls inv.calls) (mine, IsRunning-cons w ws s.tasks inv.tasks)
      (
        given_IsPast n s' w (now_hlc now c).1 here (Room-now_hlc n now c (inv.room a)) drawn,
        issued-Follows n s s' ws inv.issued (set_node-Follows n s a t s.calls tasks f inv.room),
      )
      (
        not_given_all (suc n) s ws a w.hlc inv.apart
            (ap (λ (h : Hlc). h.node_id) drawn ∙ id-now_hlc now c) later inv.issued,
        inv.distinct,
      )
      (λ key v found. IsIssued-cons w ws key v.value v.hlc (inv.stores a key v found))
      (HoldsLog-more ws (w ∷ ws) (log_of (s.nodes a).reconciler) (IsIssued-cons w ws) (inv.logs a))

IsAmong-Room :
    (n : ℕ) (s : System) (w : Write) (ws : List Write)
    → All (IsPast n s) ws
    → IsAmong w ws
    → Room n w.hlc.logical
IsAmong-Room n s w [] h m = absurd m
IsAmong-Room n s w (x ∷ ws) (p, h) (inl e) = rw e p.room
IsAmong-Room n s w (x ∷ ws) (p, h) (inr m) = IsAmong-Room n s w ws h m

pub arrives-Inv :
    (n : ℕ) (ws : List Write) (s : System) (now : ℤ) (before : List Call) (c : Call)
    (after : List Call)
    → s.calls ≡ before ++ c ∷ after
    → Inv (suc n) ws s
    → let (t, p) = receive now c.request (s.nodes c.to) in
      Inv n ws (record {
        nodes = set_node c.to t s.nodes;
        calls = before ++ after;
        tasks = record { at = c.to; task = accept_storing p } ∷ s.tasks;
      })
unfolding receive
arrives-Inv n ws s now before c after e inv =
    let ((h, sent, i), others) =
      All-remove (IsSent ws) before c after (subst (All (IsSent ws)) e inv.calls) in
    let node = s.nodes c.to in
    let remote : from_proto c.request.hlc ≡ h = rw sent (unfold from_proto in refl) in
    let room = rw i.same_hlc at (IsAmong-Room (suc n) s i.write ws inv.issued i.among) in
    let (t, p) = receive now c.request node in
    quiet-Inv n ws s c.to t (before ++ after)
      (record { at = c.to; task = accept_storing p } ∷ s.tasks) inv
      (rw remote (
        id-update now h node.hlc_clock,
        update-Upto n now h node.hlc_clock (inv.room c.to) room,
        Room-update n now h node.hlc_clock (inv.room c.to) room,
      ))
      others (rw remote i, inv.tasks) (inv.stores c.to) (inv.logs c.to)

-- A clock that stands still.
pub still : (n : ℕ) (c : Clock) → Room (suc n) c.logical → ClockFollows n c c
still n c room = (refl, inl refl, (omega (arith, room.0), room.1))
