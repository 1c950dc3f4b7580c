-- ===== src/Clusters.antt =====
-- daemon/clusters.go: listing the clusters that the containers' labels describe, and finding one.
-- A cluster is not stored anywhere: it is the containers that carry its label.
pub mod Grouping
pub mod Lookup
pub mod Ownership
pub mod Order
use cbdynclusterd.Prelude.{
  String, Bool, true, false, ◌||◌, none, some, List, [], ◌∷◌, ◌++◌, leb, if◌then◌else◌, ◌==◌,
}
use Prim.Native.String.{len, slice}
use cbdynclusterd.Prelude.Dict.{lookup, lookup_text}
use cbdynclusterd.Prelude.Result.{failure, Result, ok, err, panic, ◌>>=◌, traverse}
use cbdynclusterd.Time.{Time}
use cbdynclusterd.Meta.{Storage, get_cluster_meta}
use cbdynclusterd.Context.{Context, context_user, context_ignore_ownership}
use cbdynclusterd.Docker.{Docker, Container, EndpointSettings}

pub record Node : Type 0 where
  pub container_id : String
  pub container_name : String
  pub state : String
  pub name : String
  pub initial_server_version : String
  pub ipv4_address : String
  pub ipv6_address : String

pub record Cluster : Type 0 where
  pub id : String
  pub creator : String
  pub owner : String
  pub timeout : Time
  pub nodes : List Node
  pub entry_point : String

-- The state that the daemon works on: the open data base and the Docker engine. `registered` is
-- the host names and addresses that it asked the DNS server to register, newest first.
pub record Daemon (st : Storage) (dk : Docker) : Type 0 where
  pub db : st.Db
  pub engine : dk.Engine
  pub registered : List (String × String)

-- NetworkName of daemon/nodes.go
abbrev pub network_name : String
network_name = "macvlan0"

abbrev pub cluster_id_label : String
cluster_id_label = "com.couchbase.dyncluster.cluster_id"

abbrev pub creator_label : String
creator_label = "com.couchbase.dyncluster.creator"

abbrev pub node_name_label : String
node_name_label = "com.couchbase.dyncluster.node_name"

abbrev pub server_version_label : String
server_version_label = "com.couchbase.dyncluster.initial_server_version"

-- container.Labels[name]
unfoldable pub label : String → Container → String
unfolding lookup_text
label name c = lookup_text name c.labels

-- container.ID[0:12], which panics for a shorter ID
unfoldable pub short_id : String → Result String
short_id id = if leb 12 (len id) then ok (slice id 0 12) else panic

-- container.Names[0]
abbrev first_name : List String → Result String
first_name [] = panic
first_name (n ∷ ns) = ok n

-- The network's settings, or the empty ones if the container is not in it.
abbrev endpoint : List (String × EndpointSettings) → EndpointSettings
endpoint networks = elim (lookup network_name networks) [
  | none ↦ record { ip_address = ""; global_ipv6_address = "" }
  | some e ↦ e
]

-- One round of the loop over a cluster's containers.
unfoldable pub node_of : Container → Result Node
unfolding label
node_of c = do
  container_id ← short_id c.id
  container_name ← first_name c.names
  let eth0_net = endpoint c.networks
  ok (record {
    container_id = container_id;
    container_name = container_name;
    state = c.state;
    name = label node_name_label c;
    initial_server_version = label server_version_label c;
    ipv4_address = eth0_net.ip_address;
    ipv6_address = eth0_net.global_ipv6_address;
  })

-- clusterCreator: the first label that is not empty.
unfoldable pub creator_of : String → List Container → String
creator_of cluster_creator [] = cluster_creator
creator_of cluster_creator (c ∷ cs) =
    creator_of (if cluster_creator == "" then label creator_label c else cluster_creator) cs

-- if clusterCreator == "" { clusterCreator = "unknown" }
unfoldable pub creator_or_unknown : List Container → String
creator_or_unknown cs = if creator_of "" cs == "" then "unknown" else creator_of "" cs

-- One entry of clusterMap.
abbrev pub Group : Type 0
Group = String × List Container

-- clusterMap[clusterID] = append(clusterMap[clusterID], container)
unfoldable pub add_container : String → Container → List Group → List Group
add_container id c [] = (id, c ∷ []) ∷ []
add_container id c ((j, cs) ∷ gs) =
    if j == id then (j, cs ++ c ∷ []) ∷ gs else (j, cs) ∷ add_container id c gs

unfoldable pub group_containers : List Group → List Container → List Group
group_containers cluster_map [] = cluster_map
group_containers cluster_map (c ∷ cs) =
    group_containers
      (if label cluster_id_label c == ""
        then cluster_map
        else add_container (label cluster_id_label c) c cluster_map)
      cs

-- `!ContextIgnoreOwnership(ctx) && clusterCreator != ContextUser(ctx)`, negated
unfoldable pub visible : Context → String → Bool
visible ctx creator = context_ignore_ownership ctx || (creator == context_user ctx)

abbrev add_if : Bool → Cluster → List Cluster → List Cluster
add_if true c cs = c ∷ cs
add_if false c cs = cs

module _ (st : Storage) where
  -- The cluster of one entry of the map, before the test of ownership. The data base's error is
  -- only logged, and the value that came with it is used.
  unfoldable pub cluster_of : st.Db → Group → Result Cluster
  cluster_of db (id, containers) = do
    let meta = (get_cluster_meta st id db).0
    nodes ← traverse node_of containers
    ok (record {
      id = id;
      creator = creator_or_unknown containers;
      owner = meta.owner;
      timeout = meta.timeout;
      nodes = nodes;
      entry_point = "";
    })

  -- The loop over clusterMap.
  unfoldable pub collect : Context → st.Db → List Group → Result (List Cluster)
  collect ctx db [] = ok []
  collect ctx db (g ∷ gs) = do
    c ← cluster_of db g
    cs ← collect ctx db gs
    ok (add_if (visible ctx c.creator) c cs)

-- for _, cluster := range clusters { if cluster.ID == clusterID { return cluster, nil } }
unfoldable pub find_cluster : String → List Cluster → Result Cluster
find_cluster cluster_id [] = err (failure "cluster not found")
find_cluster cluster_id (c ∷ cs) = if c.id == cluster_id then ok c else find_cluster cluster_id cs

-- `order` is the order in which Go ranges over clusterMap, which the language leaves open.
module _ (st : Storage) (dk : Docker) (order : List Group → List Group) where
  unfoldable pub get_all_clusters : Context → Daemon st dk → Result (List Cluster)
  get_all_clusters ctx s = do
    containers ← dk.container_list s.engine
    collect st ctx s.db (order (group_containers [] containers))

  unfoldable pub get_cluster : Context → String → Daemon st dk → Result Cluster
  get_cluster ctx cluster_id s = do
    clusters ← get_all_clusters ctx s
    find_cluster cluster_id clusters
