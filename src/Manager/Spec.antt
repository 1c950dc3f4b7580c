-- ===== src/Manager/Spec.antt =====
-- The file of nodes that parse, getNodes and fromSpec of cluster/manager.go read. The file is given
-- by the lines that bufio.Scanner finds in it, or by the error of os.Open.
pub mod Laws
use Prim.Native.Char.{code}
use cbdynclusterd.Prelude.{String, Option, none, some, List, [], ◌∷◌, if◌then◌else◌, ◌==◌, eqb}
use cbdynclusterd.Prelude.Int.{ℤ, pos}
use cbdynclusterd.Prelude.Text.{split, trim_space, atoi, itoa}
use cbdynclusterd.Prelude.Result.{Error, Result, ok, err, panic, traverse, ◌>>=◌}
use cbdynclusterd.Rest.{Cred}
use cbdynclusterd.Server.{Server}

abbrev node_login : String → String → String → ℤ → Cred
node_login username password host port = record {
  username = username;
  password = password;
  hostname = host;
  port = port;
}

abbrev or_panic : Option ℤ → Result ℤ
or_panic none = panic
or_panic (some n) = ok n

unfoldable pub from_spec : String → String → String → String → Result Server
from_spec host port version services = do
  n_port ← if port == "" then ok (pos 8091) else or_panic (atoi port)
  ok (record {
    ssh_login = node_login "root" "couchbase" host (pos 22);
    rest_login = node_login "Administrator" "password" host n_port;
    n1ql_login = node_login "Administrator" "password" host (pos 8093);
    fts_login = node_login "Administrator" "password" host (pos 8094);
    host_name = host;
    port = itoa n_port;
    version = version;
    services = services;
    otp_node = "";
    pools_nodes = none;
  })

-- nodeInfo[0] to nodeInfo[3], which panic if there are fewer
unfoldable pub node_of_info : List String → Result Server
node_of_info (host ∷ port ∷ version ∷ services ∷ _) = from_spec host port version services
node_of_info _ = panic

unfoldable pub get_nodes : List String → Result (List Server)
get_nodes = traverse (λ spec. node_of_info (split b':' spec))

-- len(lineSlice) == 2 && lineSlice[0] == "node"
abbrev pub node_entry : List String → Option String
node_entry (key ∷ value ∷ []) = if key == "node" then some value else none
node_entry _ = none

-- One round of the loop: line[0] panics for an empty line.
unfoldable pub parse_line : String → Result (Option String)
parse_line String.[] = panic
parse_line (String.◌∷◌ c s) =
    if eqb (code c) b'#'
    then ok none
    else ok (node_entry (split b'=' (trim_space (String.◌∷◌ c s))))

abbrev pub append_if : Option String → List String → List String
append_if none parsed = parsed
append_if (some entry) parsed = entry ∷ parsed

unfoldable pub parse_lines : List String → Result (List String)
parse_lines [] = ok []
parse_lines (line ∷ lines) = do
  entry ← parse_line line
  parsed ← parse_lines lines
  ok (append_if entry parsed)

-- scanner.Err()
abbrev pub unless_error : Option Error → List String → Result (List String)
unless_error none parsed = ok parsed
unless_error (some e) parsed = err e

-- The lines come with the error that ended the reading, if one did.
unfoldable pub parse : Result (List String × Option Error) → Result (List String)
parse opened = do (lines, e) ← opened; parsed ← parse_lines lines; unless_error e parsed
