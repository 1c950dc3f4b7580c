-- ===== src/Setup.antt =====
-- daemon/setup.go, addSampleBucket of daemon/buckets.go, and the handlers HttpSetupCluster and
-- HttpAddSampleBucket of daemon/restserver.go, which wait for servers. Log lines are left out.
pub mod Laws
use Prim.Native.String.{◌++◌}
use cbdynclusterd.Prelude.{
  ℕ, String, Bool, not, Option, none, some, List, [], ◌∷◌, length, eqb, if◌then◌else◌,
}
use cbdynclusterd.Prelude.Int.{ℤ}
use cbdynclusterd.Prelude.Text.{itoa}
use cbdynclusterd.Prelude.Result.{failure, Result, ok, panic, guard, ◌>>=◌, ◌>>◌}
use cbdynclusterd.Prelude.Run.{Run, after_result}
use cbdynclusterd.Prelude.Await.{Waiting}
use cbdynclusterd.Time.{Time}
use cbdynclusterd.Meta.{Storage}
use cbdynclusterd.Context.{Context}
use cbdynclusterd.Docker.{Docker}
use cbdynclusterd.Clusters.{Cluster, Node, Group, Daemon, get_cluster}
use cbdynclusterd.Rest.{Net}
use cbdynclusterd.Server.{Server, RespNode, UserOption}
use cbdynclusterd.Ssh.{Ssh}
use cbdynclusterd.Peer.{Decoder, Place}
use cbdynclusterd.Peer.Polling.{sample_count, load_sample}
use cbdynclusterd.Manager.{BucketOption, ManagerConfig, Site}
use cbdynclusterd.Manager.Setup.{start_cluster}
use cbdynclusterd.WireJson.{ClusterJson, jsonify_cluster}
use cbdynclusterd.Requests.{
  Request, Response, respond, get_http_context, host_name_of, login, rest_server,
}

-- CreateClusterSetupJSON; `bucket` and `user` are nil or a pointer.
pub record CreateClusterSetupJson : Type 0 where
  pub services : List String
  pub storage_mode : String
  pub ram_quota : ℤ
  pub use_hostname : Bool
  pub use_ipv6 : Bool
  pub bucket : Option BucketOption
  pub user : Option UserOption
  pub use_developer_preview : Bool

pub record AddSampleBucketJson : Type 0 where
  pub sample_bucket : String
  pub use_hostname : Bool

-- What goes under the name of the node: its host name, its IPv6 or its IPv4 address.
unfoldable pub host_to_use : CreateClusterSetupJson → Node → Result String
host_to_use conf n =
    if conf.use_hostname
    then host_name_of n
    else ok (if conf.use_ipv6 then n.ipv6_address else n.ipv4_address)

unfoldable pub setup_node : CreateClusterSetupJson → Node → String → Result Server
setup_node conf n service = do
  hostname ← host_to_use conf n
  ok (record {
    ssh_login = login "root" "couchbase" n.ipv4_address 22;
    rest_login = login "Administrator" "password" n.ipv4_address 8091;
    n1ql_login = login "Administrator" "password" n.ipv4_address 8093;
    fts_login = login "Administrator" "password" n.ipv4_address 8094;
    host_name = hostname;
    port = "8091";
    version = "";
    services = service;
    otp_node = "";
    pools_nodes = none;
  })

-- A server for each entry of `services`; initialNodes[i] panics if there are fewer nodes.
unfoldable pub setup_nodes : CreateClusterSetupJson → List Node → List String → Result (List Server)
setup_nodes conf nodes [] = ok []
setup_nodes conf [] (s ∷ ss) = panic
setup_nodes conf (n ∷ ns) (s ∷ ss) = do
  node ← setup_node conf n s
  nodes ← setup_nodes conf ns ss
  ok (node ∷ nodes)

unfoldable pub manager_config : CreateClusterSetupJson → ManagerConfig
manager_config conf = record {
  memory_quota = itoa conf.ram_quota;
  user = conf.user;
  storage_mode = conf.storage_mode;
  bucket = conf.bucket;
  use_hostname = conf.use_hostname;
  use_dev_preview = conf.use_developer_preview;
}

abbrev after_result_of : {A B W : Type 0} → Option (Result A × W) → (A → B) → Option (Result B × W)
after_result_of o f = elim o [ none ↦ none | some (r, w) ↦ some (r >>= (λ a. ok (f a)), w) ]

-- What a handler answers once its work ends, and the world that it leaves.
unfoldable pub respond_when_done : {A W : Type 0} → Option (Result A × W) → Option (Response A × W)
respond_when_done none = none
respond_when_done (some (r, w)) = some (respond r, w)

module _ (net : Net) (dec : Decoder) (rounds : ℕ) where
  abbrev site_world : {A : Type 0} → Option (Result A × Site net) → Option (Result A × net.World)
  site_world none = none
  site_world (some (r, s)) = some (r, s.world)

  abbrev place_world : {A : Type 0} → Option (Result A × Place net) → Option (Result A × net.World)
  place_world none = none
  place_world (some (r, p)) = some (r, p.world)

  module _ (ssh : Ssh net) (order_groups : List (String × List ℕ) → List (String × List ℕ))
      (aux : Waiting RespNode) (joins : Waiting ℕ) where
    unfoldable pub setup_cluster : CreateClusterSetupJson → List Node → Run net.World String
    setup_cluster conf nodes world =
        after_result (setup_nodes conf nodes conf.services)
          (λ servers w. site_world (
            start_cluster net dec rounds ssh order_groups aux (manager_config conf) joins
              (record { world = w; nodes = servers })))
          world

    module _ (st : Storage) (dk : Docker) where
      -- The cluster that a request is about, if its number of nodes is the number of services.
      unfoldable pub cluster_to_setup :
          (List Group → List Group)
          → Request CreateClusterSetupJson
          → Daemon st dk
          → Result (CreateClusterSetupJson × Cluster)
      cluster_to_setup order r s = do
        ctx ← get_http_context r
        req_data ← r.body
        cluster ← get_cluster st dk order ctx r.cluster_id s
        guard (eqb (length cluster.nodes) (length req_data.services))
            (failure "services does not map to number of nodes")
        ok (req_data, cluster)

      unfoldable pub http_setup_cluster :
          (List Group → List Group)
          → Request CreateClusterSetupJson
          → Daemon st dk
          → net.World
          → Option (Response ClusterJson × net.World)
      http_setup_cluster order r s world = respond_when_done (
          after_result (cluster_to_setup order r s)
            (λ (conf, cluster) w.
              after_result_of (setup_cluster conf cluster.nodes w)
                (λ epnode. jsonify_cluster st (record cluster { entry_point = epnode })))
            world)

  module _ (st : Storage) (dk : Docker) (clock : net.World → Time) where
    -- The server that addSampleBucket calls, found only for a bucket that is known.
    unfoldable pub sample_server :
        (List Group → List Group)
        → Context
        → String
        → AddSampleBucketJson
        → Daemon st dk
        → Result Server
    sample_server order ctx cluster_id conf s = do
      guard (not (eqb (sample_count conf.sample_bucket) 0)) (failure "Unknown sample bucket")
      c ← get_cluster st dk order ctx cluster_id s
      rest_server conf.use_hostname c.nodes

    unfoldable pub add_sample_bucket :
        (List Group → List Group)
        → Context
        → String
        → AddSampleBucketJson
        → Daemon st dk
        → Run net.World (Unit {0})
    add_sample_bucket order ctx cluster_id conf s =
        after_result (sample_server order ctx cluster_id conf s) (λ node w.
          place_world (
            load_sample net dec clock rounds conf.sample_bucket
              (record { world = w; node = node })))

    unfoldable pub http_add_sample_bucket :
        (List Group → List Group)
        → Request AddSampleBucketJson
        → Daemon st dk
        → net.World
        → Option (Response (Unit {0}) × net.World)
    http_add_sample_bucket order r s world = respond_when_done (
        after_result (get_http_context r >>= λ ctx. r.body >>= λ conf. ok (ctx, conf))
          (λ (ctx, conf). add_sample_bucket order ctx r.cluster_id conf s) world)
