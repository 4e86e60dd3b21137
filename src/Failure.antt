-- ===== src/Failure.antt =====
-- The errors that the program makes with `fmt.Errorf` and `errors.New`, one constructor for each
-- message, with the values that the message prints. `rpc` and `grpc` carry the errors that the gRPC
-- library returns. A response's `error` field is the text of one of these, or empty: `none`.
use Prim.Native.String.{String}
use acp_kv.Prelude.{ℕ, ℤ, Option, none, some}

pub data Error : Type 0 where
  clock_drift : ℤ → ℤ → ℤ → Error
  staleness_exceeded : ℤ → ℤ → Error
  insufficient_acks : ℤ → ℤ → Error
  insufficient_replicas : ℤ → Error
  insufficient_responses : ℤ → ℤ → Error
  in_lockout : Error
  intersection_violated : ℤ → ℤ → ℤ → Error
  r_out_of_bounds : ℤ → ℤ → ℤ → Error
  w_out_of_bounds : ℤ → ℤ → ℤ → Error
  empty_node_id : Error
  too_few_nodes : ℤ → Error
  r_out_of_range : ℤ → ℤ → Error
  w_out_of_range : ℤ → ℤ → Error
  no_intersection : Error
  peer_failure : Error → Error
  peer_failure_empty : Error
  dns_failure : String → Error → Error
  no_endpoints : Error
  connect_failure : String → Error → Error
  client_failure : Error → Error
  no_clients : Error
  query_failed : String → String → Error
  query_status : String → Error
  no_data : Error
  invalid_format : Error
  not_text : Error
  parse_failure : Error → Error
  unhealthy_client : ℕ → Error → Error
  pool_failure : Error → Error
  health_failure : Error → Error
  write_failure : Error → Error
  get_failure : Error → Error
  get_error : Error → Error
  decode_failure : Error → Error
  encode_failure : Error → Error
  put_failure : Error → Error
  put_error : Error → Error
  put_unsuccessful : Error
  scan_unsupported : Error
  delete_unsupported : Error
  rpc : String → Error
  grpc : String → Error

-- fmt.Errorf("peer reported failure: %s", resp.Error)
abbrev pub peer_reported : Option Error → Error
peer_reported none = peer_failure_empty
peer_reported (some e) = peer_failure e
