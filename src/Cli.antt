-- ===== src/Cli.antt =====
-- cmd/acp-cli/main.go: the command line client. A run ends with an exit code and the lines that it
-- printed, on the standard output or, for the errors of calls, on the standard error.
pub mod Trips
mod Tests
use acp_kv.Client
use acp_kv.Prelude.{
  List, Option, String, [], if◌then◌else◌, inl, inr, none, some, str_eq, ℕ, ℤ, ◌∷◌, ◌⊎◌,
}
use acp_kv.Client.{Service, new_client}
use acp_kv.Failure.{Error}
use acp_kv.Proto.{GetResponse, HealthResponse, PutResponse, Reply, answered, failed}
use acp_kv.Replication.{Dial}
use acp_kv.Storage.{Bytes}

-- What the program prints: the usage, and otherwise the lines of one call of `Printf` or of those that
-- stand together, with the values in them.
pub data Line : Type 0 where
  usage : Line
  put_usage : Line
  get_usage : Line
  error_connecting : Error → Line
  put_call_failed : Error → Line
  get_call_failed : Error → Line
  health_call_failed : Error → Line
  put_successful : ℤ → ℤ → Line
  put_refused : Option Error → Line
  key_found : String → ℤ → ℤ → Line
  key_not_found : Line
  error_line : Error → Line
  node_healthy : String → ℤ → Line
  node_unhealthy : Line
  unknown_command : String → Line

-- []byte(s) and string(b)
pub record Text : Type 0 where
  pub to_bytes : String → Bytes
  pub from_bytes : Bytes → String

unfoldable pub print_put : Reply PutResponse → ℕ × List Line
print_put (failed e) = (1, put_call_failed e ∷ [])
print_put (answered resp) =
    if resp.success
    then (0, put_successful resp.version resp.timestamp ∷ [])
    else (1, put_refused resp.error ∷ [])

unfoldable pub print_error : Option Error → List Line
print_error none = []
print_error (some e) = error_line e ∷ []

unfoldable pub print_get : Text → Reply GetResponse → ℕ × List Line
unfolding print_error
print_get text (failed e) = (1, get_call_failed e ∷ [])
print_get text (answered resp) =
    if resp.found
    then (0, key_found (text.from_bytes resp.value) resp.version resp.timestamp ∷ [])
    else (1, key_not_found ∷ print_error resp.error)

unfoldable pub print_health : Reply HealthResponse → ℕ × List Line
print_health (failed e) = (1, health_call_failed e ∷ [])
print_health (answered resp) =
    if resp.healthy
    then (0, node_healthy resp.node_id resp.timestamp ∷ [])
    else (1, node_unhealthy ∷ [])

module _ {S : Type 0} (text : Text) (node : Service S) (now : ℤ) where
  -- The case "put", with the arguments after the command.
  unfoldable pub run_put : List String → S → (ℕ × List Line) × S
  unfolding print_put Client.put
  run_put [] s = ((1, put_usage ∷ []), s)
  run_put (key ∷ []) s = ((1, put_usage ∷ []), s)
  run_put (key ∷ value ∷ others) s =
      let (reply, s') = Client.put node key (text.to_bytes value) s in (print_put reply, s')

  unfoldable pub run_get : List String → S → (ℕ × List Line) × S
  unfolding print_get Client.get
  run_get [] s = ((1, get_usage ∷ []), s)
  run_get (key ∷ others) s = let (reply, s') = Client.get node key s in (print_get text reply, s')

  unfoldable pub run_health : S → (ℕ × List Line) × S
  unfolding print_health Client.health_check
  run_health s = let (reply, s') = Client.health_check node now "cli" s in (print_health reply, s')

  -- switch cmd
  unfoldable pub run_command : String → List String → S → (ℕ × List Line) × S
  unfolding run_put run_get run_health
  run_command cmd rest s =
      if str_eq cmd "put"
      then run_put rest s
      else if str_eq cmd "get"
      then run_get rest s
      else if str_eq cmd "health"
      then run_health s
      else ((1, unknown_command cmd ∷ []), s)

-- main, from `os.Args` and the nodes that the addresses name.
unfoldable pub main :
    {S : Type 0} → Text → Dial → (String → Service S) → ℤ → List String → S → (ℕ × List Line) × S
unfolding run_command new_client
main text dial at now [] s = ((1, usage ∷ []), s)
main text dial at now (program ∷ []) s = ((1, usage ∷ []), s)
main text dial at now (program ∷ addr ∷ []) s = ((1, usage ∷ []), s)
main text dial at now (program ∷ addr ∷ cmd ∷ rest) s = elim (new_client dial addr) [
  | inl e ↦ ((1, error_connecting e ∷ []), s)
  | inr conn ↦ run_command text (at conn) now cmd rest s
]
