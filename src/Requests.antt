-- ===== src/Requests.antt =====
-- What the HTTP handlers of daemon/restserver.go read and write: the request's context, the options
-- that they build, and the first node as addBucket and addCollection call it.
pub mod Laws
use Prim.Native.String.{◌++◌, len, slice}
use cbdynclusterd.Prelude.{none, ℕ, String, Bool, List, [], ◌∷◌, leb, if◌then◌else◌, ◌==◌}
use cbdynclusterd.Prelude.Int.{pos}
use cbdynclusterd.Prelude.Text.{has_suffix}
use cbdynclusterd.Prelude.Result.{Error, failure, Result, ok, err, panic, ◌>>=◌, traverse}
use cbdynclusterd.Time.{Duration, hour}
use cbdynclusterd.Context.{Context, new_context}
use cbdynclusterd.Version.{Products, alias_server_version, parse_server_version}
use cbdynclusterd.Clusters.{Node}
use cbdynclusterd.Allocate.{NodeOptions, ClusterOptions}
use cbdynclusterd.Rest.{Cred}
use cbdynclusterd.Server.{Server}
use cbdynclusterd.WireJson.{DockerHostJson, VersionJson, CreateClusterNodeJson, CreateClusterJson}

-- `user` and `admin` are the headers cbdn-user and cbdn-admin, empty if missing; `cluster_id` is the
-- route's variable; `body` is the decoded body, or the decoder's error.
pub record Request (A : Type 0) : Type 0 where
  pub user : String
  pub admin : String
  pub cluster_id : String
  pub body : Result A
  pub context : Context

-- What a handler writes: status 200 with a JSON body (none if A is the unit type), status 400 with
-- an error, or nothing since it panicked.
pub data Response (A : Type 0) : Type 0 where
  reply : A → Response A
  bad_request : Error → Response A
  aborted : Response A

unfoldable pub respond : {A : Type 0} → Result A → Response A
respond (ok a) = reply a
respond (err e) = bad_request e
respond panic = aborted

unfoldable pub get_http_context : {A : Type 0} → Request A → Result Context
get_http_context r =
    if r.user == ""
    then err (failure "must specify a user")
    else if has_suffix r.user "@couchbase.com"
    then ok (new_context r.context r.user (r.admin == "true"))
    else err (failure "your user must be your @couchbase.com email")

-- net/url's Parse: of a URL, its scheme, Hostname() and Port().
pub record Url : Type 0 where
  pub scheme : String
  pub hostname : String
  pub port : String

-- `host_uri` is url.Parse(dockerHost).
unfoldable pub http_get_docker_host : Result Url → Response DockerHostJson
http_get_docker_host (ok host_uri) =
    if host_uri.scheme == "tcp"
    then reply (record { hostname = host_uri.hostname; port = host_uri.port })
    else bad_request (failure "docker is not configured via tcp and cannot return the docker host")
http_get_docker_host (err e) = bad_request e
http_get_docker_host panic = aborted

unfoldable pub http_get_version : String → Response VersionJson
http_get_version version = reply (record { version = version })

-- if reqData.Timeout != "" { ... }, with the default of one hour; `parse` is time.ParseDuration.
unfoldable pub requested_timeout : (String → Result Duration) → String → Result Duration
requested_timeout parse timeout = if timeout == "" then ok (pos hour) else parse timeout

-- What HttpUpdateCluster makes of reqData.Timeout.
unfoldable pub timeout_to_refresh : (String → Result Duration) → String → Result Duration
timeout_to_refresh parse timeout =
    if timeout == "" then err (failure "not sure what you wanted to do") else parse timeout

-- One round of the loop over reqData.Nodes.
unfoldable pub node_options : Result Products → CreateClusterNodeJson → Result NodeOptions
node_options products node = do
  final_version ← alias_server_version products node.server_version
  node_version ← parse_server_version final_version node.use_community_edition
  ok (record {
    name = node.name;
    platform = node.platform;
    server_version = final_version;
    version_info = node_version;
  })

-- What HttpCreateCluster hands to allocateCluster.
unfoldable pub create_options :
    (String → Result Duration) → Result Products → CreateClusterJson → Result ClusterOptions
create_options parse products req_data = do
  timeout ← requested_timeout parse req_data.timeout
  nodes ← traverse (node_options products) req_data.nodes
  ok (record { timeout = timeout; nodes = nodes })

-- n.ContainerName[1:] + helper.DomainPostfix; an empty name panics.
unfoldable pub host_name_of : Node → Result String
host_name_of n =
    if leb 1 (len n.container_name)
    then ok (slice n.container_name 1 (len n.container_name) ++ ".couchbase.com")
    else panic

abbrev pub login : String → String → String → ℕ → Cred
login username password ipv4 port = record {
  username = username;
  password = password;
  hostname = ipv4;
  port = pos port;
}

-- The cluster.Node that addBucket and addCollection build from the first node. Its logins for N1QL
-- and for search are nil, which nothing reads.
unfoldable pub rest_server : Bool → List Node → Result Server
rest_server use_hostname [] = err (failure "no nodes available")
rest_server use_hostname (n ∷ ns) = do
  hostname ← if use_hostname then host_name_of n else ok n.ipv4_address
  ok (record {
    ssh_login = login "root" "couchbase" n.ipv4_address 22;
    rest_login = login "Administrator" "password" n.ipv4_address 8091;
    n1ql_login = login "" "" "" 0;
    fts_login = login "" "" "" 0;
    host_name = hostname;
    port = "8091";
    version = "";
    services = "";
    otp_node = "";
    pools_nodes = none;
  })
