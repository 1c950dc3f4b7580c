-- ===== src/WireJson.antt =====
-- The JSON forms of daemon/restserver.go and their conversions. A JSON document is the value that
-- is encoded or was decoded; the text of a time is made and read by time.RFC3339, a parameter.
pub mod Laws
use Prim.Native.String.{◌++◌}
use cbdynclusterd.Prelude.{
  ℕ, String, Bool, Option, none, some, List, map, ◌||◌, if◌then◌else◌, ◌==◌,
}
use cbdynclusterd.Prelude.Int.{ℤ}
use cbdynclusterd.Prelude.Result.{failure, Result, ok, err, ◌>>=◌}
use cbdynclusterd.Time.{Time}
use cbdynclusterd.Meta.{Storage}
use cbdynclusterd.Clusters.{Node, Cluster}

pub record NodeJson : Type 0 where
  pub id : String
  pub container_name : String
  pub state : String
  pub name : String
  pub initial_server_version : String
  pub ipv4_address : String
  pub ipv6_address : String

unfoldable pub jsonify_node : Node → NodeJson
jsonify_node node = record {
  id = node.container_id;
  container_name = node.container_name;
  state = node.state;
  name = node.name;
  initial_server_version = node.initial_server_version;
  ipv4_address = node.ipv4_address;
  ipv6_address = node.ipv6_address;
}

unfoldable pub unjsonify_node : NodeJson → Node
unjsonify_node json_node = record {
  container_id = json_node.id;
  container_name = json_node.container_name;
  state = json_node.state;
  name = json_node.name;
  initial_server_version = json_node.initial_server_version;
  ipv4_address = json_node.ipv4_address;
  ipv6_address = json_node.ipv6_address;
}

pub record DockerHostJson : Type 0 where
  pub hostname : String
  pub port : String

pub record VersionJson : Type 0 where
  pub version : String

pub record ClusterJson : Type 0 where
  pub id : String
  pub creator : String
  pub owner : String
  pub timeout : String
  pub nodes : List NodeJson
  pub entry_point : String

module _ (st : Storage) where
  unfoldable pub jsonify_cluster : Cluster → ClusterJson
  jsonify_cluster cluster = record {
    id = cluster.id;
    creator = cluster.creator;
    owner = cluster.owner;
    timeout = st.format_time cluster.timeout;
    nodes = map jsonify_node cluster.nodes;
    entry_point = cluster.entry_point;
  }

  unfoldable pub unjsonify_cluster : ClusterJson → Result Cluster
  unjsonify_cluster json_cluster = do
    cluster_timeout ← st.parse_time json_cluster.timeout
    ok (record {
      id = json_cluster.id;
      creator = json_cluster.creator;
      owner = json_cluster.owner;
      timeout = cluster_timeout;
      nodes = map unjsonify_node json_cluster.nodes;
      entry_point = json_cluster.entry_point;
    })

-- The argument is nil or a pointer.
unfoldable pub unjsonify_docker_host : Option DockerHostJson → Result String
unjsonify_docker_host none = err (failure "Docker hostname or port is empty")
unjsonify_docker_host (some docker_host) =
    if (docker_host.hostname == "") || (docker_host.port == "")
    then err (failure "Docker hostname or port is empty")
    else ok (docker_host.hostname ++ (":" ++ docker_host.port))

unfoldable pub unjsonify_version : Option VersionJson → Result String
unjsonify_version none = err (failure "cbdynclusterd version is empty")
unjsonify_version (some version) =
    if version.version == ""
    then err (failure "cbdynclusterd version is empty")
    else ok version.version

pub record CreateClusterNodeJson : Type 0 where
  pub name : String
  pub platform : String
  pub server_version : String
  pub use_community_edition : Bool

-- CreateClusterJSON; its field Setup is never read.
pub record CreateClusterJson : Type 0 where
  pub timeout : String
  pub nodes : List CreateClusterNodeJson

pub record AddBucketJson : Type 0 where
  pub name : String
  pub storage_mode : String
  pub ram_quota : ℤ
  pub use_hostname : Bool
  pub replica_count : ℤ
  pub bucket_type : String
  pub eviction_policy : String

pub record AddCollectionJson : Type 0 where
  pub name : String
  pub scope_name : String
  pub bucket_name : String
  pub use_hostname : Bool

pub record BuildImageJson : Type 0 where
  pub server_version : String
  pub use_community_edition : Bool
