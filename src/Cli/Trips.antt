-- ===== src/Cli/Trips.antt =====
-- What the command line client prints of a node (cmd/acp-cli/main.go, internal/server/server.go).
use acp_kv.Server
use acp_kv.Prelude.{
  List, Option, String, [], arith, false, inl, inr, none, pos, refl, some, true, ℕ, ℤ, ◌∷◌, ◌∙◌,
  ◌≡◌, ◌⊎◌, ap, Bool-cases, sym,
}
use acp_kv.Cli.{
  Line, Text, key_found, key_not_found, main, put_successful, run_command, print_get, print_put,
}
use acp_kv.Client.{Service, new_client}
use acp_kv.Failure.{Error}
use acp_kv.Metrics.{Metrics}
use acp_kv.Prelude.Map.{str_eq_refl}
use acp_kv.Proto.{GetRequest, PutRequest, answered}
use acp_kv.Replication.{Dial}
use acp_kv.Replication.{replicate}
use acp_kv.Server.{get_w, Server, World, failed_put, finish_put, get_r, health_check, not_found}
use acp_kv.Server.Read.{get_of_one, local_value}
use acp_kv.Server.Write.{stamp_of, store-put}
use acp_kv.Staleness.{is_stale}
use acp_kv.Storage.{VersionedValue, stamped}

-- The calls of a node that answers each of them.
abbrev pub at_node : World → Service Server
at_node x = record {
  on_put = λ req s. (answered (Server.put x req s).0, (Server.put x req s).1);
  on_get = λ req s. (answered (Server.get x req s).0, (Server.get x req s).1);
  on_health = λ req s. (answered (health_check x req s).0, (health_check x req s).1);
}

-- A run of `acp-cli addr cmd rest`, where the address can be dialled.
abbrev pub run_at :
    Text → Dial → World → String → String → List String → Server → (ℕ × List Line) × Server
run_at text dial x addr cmd rest s =
    main text dial (λ conn. at_node x) x.first ("acp-cli" ∷ addr ∷ cmd ∷ rest) s

dialled_client : (dial : Dial) (addr : String) → dial addr ≡ none → new_client dial addr ≡ inr addr
unfolding new_client
dialled_client dial addr dialled = rw (dialled, new_client) refl

run_at-put :
    (text : Text) (dial : Dial) (x : World) (addr key value : String) (s : Server)
    → dial addr ≡ none
    → run_at text dial x addr "put" (key ∷ value ∷ []) s ≡ (
        let (resp, s') = Server.put x (record { key = key; value = text.to_bytes value }) s in
        (print_put (answered resp), s'))
unfolding main run_command acp_kv.Cli.run_put acp_kv.Client.put
run_at-put text dial x addr key value s dialled = rw (dialled_client dial addr dialled, main) refl

run_at-get :
    (text : Text) (dial : Dial) (x : World) (addr key : String) (s : Server)
    → dial addr ≡ none
    → (run_at text dial x addr "get" (key ∷ []) s).0
      ≡ print_get text (answered (Server.get x (record { key = key }) s).0)
unfolding main run_command acp_kv.Cli.run_get acp_kv.Client.get
run_at-get text dial x addr key s dialled = rw (dialled_client dial addr dialled, main) refl

-- What a run of "get" prints at a node that asks no other, from the value that it has for the key.
abbrev pub GetPrints : Text → World → Server → Option VersionedValue → ℕ × List Line → Type 0
GetPrints text y s o printed =
    ((o ≡ none) × (printed ≡ (1, key_not_found ∷ [])))
    ⊎ ((v : VersionedValue) × (o ≡ some v)
        × (is_stale s.staleness_detector v.hlc y.first ≡ true)
        × (printed ≡ (0, key_found (text.from_bytes []) (pos 0) (pos 0) ∷ [])))
    ⊎ ((v : VersionedValue) × (o ≡ some v)
        × (is_stale s.staleness_detector v.hlc y.first ≡ false)
        × (printed ≡ (0, key_found (text.from_bytes v.value) v.version v.timestamp ∷ [])))

fresh-prints :
    (text : Text) (y : World) (req : GetRequest) (s : Server) (v : VersionedValue)
    → get_r s.quorum_provider ≡ pos 1
    → local_value req s ≡ some v
    → is_stale s.staleness_detector v.hlc y.first ≡ false
    → print_get text (answered (Server.get y req s).0)
      ≡ (0, key_found (text.from_bytes v.value) v.version v.timestamp ∷ [])
unfolding print_get acp_kv.Server.get_alone acp_kv.Server.answer_value acp_kv.Staleness.check_strict
    is_stale
fresh-prints text y req s v one held new = rw (get_of_one y req s one) (rw held (rw new refl))

get-prints :
    (text : Text) (y : World) (req : GetRequest) (s : Server) (o : Option VersionedValue)
    → get_r s.quorum_provider ≡ pos 1
    → local_value req s ≡ o
    → GetPrints text y s o (print_get text (answered (Server.get y req s).0))
unfolding print_get acp_kv.Cli.print_error acp_kv.Server.get_alone acp_kv.Server.answer_value
    acp_kv.Staleness.check_strict is_stale
get-prints text y req s none one held = inl (refl, rw (get_of_one y req s one) (rw held refl))
get-prints text y req s (some v) one held =
    elim (Bool-cases (is_stale s.staleness_detector v.hlc y.first)) [
      | inl old ↦ inr (inl (v, refl, old, rw (get_of_one y req s one) (rw held (rw old refl))))
      | inr new ↦ inr (inr (v, refl, new, fresh-prints text y req s v one held new))
    ]

-- `acp-cli get` at a node whose reads ask no other exits with 1 where the key is absent, and with 0
-- otherwise. It prints the value, the version and the timestamp that the node holds where the value is
-- fresh. Where it is too old the program prints the key as found, with no bytes and zeros, and not the error.
pub run_get-GetPrints :
    (text : Text) (dial : Dial) (y : World) (addr key : String) (s : Server)
    → dial addr ≡ none
    → get_r s.quorum_provider ≡ pos 1
    → GetPrints text y s
        (local_value (record { key = key }) s)
        (run_at text dial y addr "get" (key ∷ []) s).0
run_get-GetPrints text dial y addr key s dialled one =
    rw (run_at-get text dial y addr key s dialled)
      (get-prints text y (record { key = key }) s (local_value (record { key = key }) s) one refl)

finish_put-prints :
    (elapsed : ℤ) (vv : VersionedValue) (e : Option Error) (m : Metrics)
    → (print_put (answered (finish_put elapsed vv e m).0)).0 ≡ 0
    → print_put (answered (finish_put elapsed vv e m).0)
      ≡ (0, put_successful vv.version vv.timestamp ∷ [])
unfolding print_put finish_put
finish_put-prints elapsed vv none m ok = refl
finish_put-prints elapsed vv (some e) m ok = absurd (omega (arith, ok))

put-prints :
    (x : World) (req : PutRequest) (s : Server)
    → (print_put (answered (Server.put x req s).0)).0 ≡ 0
    → print_put (answered (Server.put x req s).0)
      ≡ (0, put_successful (stamp_of x s).physical (stamp_of x s).physical ∷ [])
unfolding Server.put acp_kv.Storage.put_with_hlc stamped
put-prints x req s ok =
    let h = stamp_of x s in
    finish_put-prints x.elapsed (stamped x.second req.value s.node_id h)
      (replicate x.on_replicate x.arrivals req.key req.value h.physical h.physical h
        (get_w s.quorum_provider) s.coordinator s.metrics).2
      (replicate x.on_replicate x.arrivals req.key req.value h.physical h.physical h
        (get_w s.quorum_provider) s.coordinator s.metrics).3
      ok

-- After `acp-cli put` of a value, `acp-cli get` of the key at the same node, whose reads ask no other,
-- exits with 0 and prints that value with the timestamp that the put drew, as version and as timestamp,
-- also where the put exited with 1. A put that exits with 0 printed the same two numbers. The node can be
-- dialled both times, and the value is not too old at the read.
pub run_get-run_put :
    (text : Text) (dial : Dial) (x y : World) (addr key value : String) (s : Server)
    → dial addr ≡ none
    → get_r s.quorum_provider ≡ pos 1
    → is_stale s.staleness_detector (stamp_of x s) y.first ≡ false
    → let drawn = (stamp_of x s).physical in
      let (printed, s') = run_at text dial x addr "put" (key ∷ value ∷ []) s in
      (printed.0 ≡ 0 → printed ≡ (0, put_successful drawn drawn ∷ []))
      × ((run_at text dial y addr "get" (key ∷ []) s').0
          ≡ (0, key_found (text.from_bytes (text.to_bytes value)) drawn drawn ∷ []))
unfolding Server.put stamped
run_get-run_put text dial x y addr key value s dialled one fresh =
    let req : PutRequest = record { key = key; value = text.to_bytes value } in
    let asked : GetRequest = record { key = key } in
    let sent = run_at-put text dial x addr key value s dialled in
    let written : local_value asked (Server.put x req s).1
        ≡ some (stamped x.second req.value s.node_id (stamp_of x s)) =
      store-put x req s key ∙ rw (str_eq_refl key) refl in
    (
      λ ok.
          ap (λ r. r.0) sent
          ∙ put-prints x req s (sym (ap (λ (r : (ℕ × List Line) × Server). r.0.0) sent) ∙ ok),
      ap (λ (r : (ℕ × List Line) × Server). (run_at text dial y addr "get" (key ∷ []) r.1).0) sent
          ∙ run_at-get text dial y addr key (Server.put x req s).1 dialled
          ∙ fresh-prints text y asked (Server.put x req s).1
              (stamped x.second req.value s.node_id (stamp_of x s)) one written fresh,
    )
