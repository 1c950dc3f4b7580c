-- ===== src/Allocate.antt =====
-- allocateCluster of daemon/clusters.go and allocateNode of daemon/nodes.go.
pub mod Laws
use Prim.Native.String.{◌++◌, slice}
use cbdynclusterd.Prelude.{
  ℕ, suc, ◌+◌, ◌*◌, String, true, none, some, List, [], ◌∷◌, length, leb, eqb, if◌then◌else◌, ◌==◌,
}
use cbdynclusterd.Prelude.Int.{pos, ltb_ℤ}
use cbdynclusterd.Prelude.Text.{show_nat}
use cbdynclusterd.Prelude.Dict.{lookup}
use cbdynclusterd.Prelude.Result.{Error, failure, Result, ok, err, panic}
use cbdynclusterd.Prelude.Exec.{Exec, pure, lift, reads, ◌>>=◌, ◌>>◌}
use cbdynclusterd.Prelude.Join.{Schedule, join}
use cbdynclusterd.Time.{Time, Duration, hour, add}
use cbdynclusterd.Meta.{Storage, create_cluster_meta}
use cbdynclusterd.Context.{Context, context_user}
use cbdynclusterd.Docker.{Docker, ContainerConfig, EndpointSettings}
use cbdynclusterd.Version.{NodeVersion, to_image_name}
use cbdynclusterd.Images.{Config, Outside, ensure_image_exists}
use cbdynclusterd.Clusters.{
  Daemon, network_name, cluster_id_label, creator_label, node_name_label, server_version_label,
}
use cbdynclusterd.Kill.{Choices, kill_cluster}
use cbdynclusterd.Refresh.{on_db}

pub record NodeOptions : Type 0 where
  pub name : String
  pub platform : String
  pub server_version : String
  pub version_info : NodeVersion

pub record ClusterOptions : Type 0 where
  pub timeout : Duration
  pub nodes : List NodeOptions

-- uuid.String()[0:8]
unfoldable pub new_random_cluster_id : String → String
new_random_cluster_id uuid = slice uuid 0 8

-- dynclsr-<cluster>-<node>
unfoldable pub container_name_of : String → String → String
container_name_of cluster_id name = "dynclsr-" ++ (cluster_id ++ ("-" ++ name))

unfoldable pub container_config : Config → Context → String → NodeOptions → ContainerConfig
container_config cfg ctx cluster_id opts = record {
  image = to_image_name cfg.docker_registry opts.version_info;
  labels =
      (creator_label, context_user ctx)
      ∷ (cluster_id_label, cluster_id)
      ∷ (node_name_label, opts.name)
      ∷ (server_version_label, opts.server_version)
      ∷ [];
  volumes = "/etc/localtime:/etc/localtime" ∷ [];
  auto_remove = true;
  network_mode = network_name;
  dns = if cfg.dns_svc_host == "" then [] else cfg.dns_svc_host ∷ [];
  cap_add = "NET_ADMIN" ∷ [];
  container_name = container_name_of cluster_id opts.name;
}

-- Networks[NetworkName].IPAddress reads through a nil pointer if the key is missing.
abbrev pub endpoint_or_panic : List (String × EndpointSettings) → Result EndpointSettings
endpoint_or_panic networks = elim (lookup network_name networks) [ none ↦ panic | some e ↦ ok e ]

-- The host names that are registered: one for each address that is not empty.
unfoldable pub registrations : Config → String → EndpointSettings → List (String × String)
registrations cfg container_name e =
    let host = container_name ++ ".couchbase.com" in
    let v6 : List (String × String) =
      if e.global_ipv6_address == "" then [] else (host, e.global_ipv6_address) ∷ [] in
    if cfg.dns_svc_host == ""
    then []
    else if e.ip_address == ""
    then v6
    else (host, e.ip_address) ∷ v6

abbrev pub after_kill : Result (Unit {0}) → Error → Result String
after_kill (ok _) e = err e
after_kill (err _) e = err e
after_kill panic e = panic

abbrev push_all : List (String × String) → List (String × String) → List (String × String)
push_all [] log = log
push_all (r ∷ rs) log = push_all rs (r ∷ log)

-- if node.Name == "" { node.Name = fmt.Sprintf("node_%d", nodeIdx+1) }, from index `i` on
unfoldable pub name_nodes : ℕ → List NodeOptions → List NodeOptions
name_nodes i [] = []
name_nodes i (n ∷ ns) =
    record n { name = if n.name == "" then "node_" ++ show_nat (i + 1) else n.name }
    ∷ name_nodes (suc i) ns

abbrev pub two_weeks : Duration
two_weeks = pos (2 * 7 * 24 * hour)

unfoldable pub check_options : ClusterOptions → Result (Unit {0})
check_options opts =
    if ltb_ℤ opts.timeout (pos 0)
    then err (failure "must specify a valid timeout for the cluster")
    else if ltb_ℤ two_weeks opts.timeout
    then err (failure "cannot allocate clusters for longer than 2 weeks")
    else if eqb (length opts.nodes) 0
    then err (failure "must specify at least a single node for the cluster")
    else if leb (length opts.nodes) 10
    then ok tt
    else err (failure "cannot allocate clusters with more than 10 nodes")

module _ (st : Storage) (dk : Docker) (cfg : Config) (out : Outside) where
  -- A step of Docker, as a step of the daemon.
  abbrev pub on_engine : {A : Type 0} → Exec dk.Engine A → Exec (Daemon st dk) A
  on_engine m s = let (r, engine') = m s.engine in (r, record s { engine = engine' })

  -- The answer of the DNS server is only logged.
  abbrev pub register_all : List (String × String) → Exec (Daemon st dk) (Unit {0})
  register_all rs s = (ok tt, record s { registered = push_all rs s.registered })

  unfoldable pub allocate_node : Context → String → NodeOptions → Exec (Daemon st dk) String
  allocate_node ctx cluster_id opts = do
    id ← on_engine (dk.container_create (container_config cfg ctx cluster_id opts))
    on_engine (dk.container_start id)
    networks ← reads (λ s. dk.container_inspect id s.engine)
    e ← lift (endpoint_or_panic networks)
    register_all (registrations cfg (container_name_of cluster_id opts.name) e)
    pure id

  -- _, err := allocateNode(...); signal <- err
  unfoldable pub allocate_job : Context → String → NodeOptions → Exec (Daemon st dk) (Unit {0})
  allocate_job ctx cluster_id opts = do allocate_node ctx cluster_id opts; pure tt

  -- The error of killCluster is dropped.
  abbrev pub kill_on_error :
      Choices → Context → String → Result (Unit {0}) → Exec (Daemon st dk) String
  kill_on_error ch ctx cluster_id (ok _) s = (ok cluster_id, s)
  kill_on_error ch ctx cluster_id (err e) s =
      let (r, s') = kill_cluster st dk ch ctx cluster_id s in (after_kill r e, s')
  kill_on_error ch ctx cluster_id panic s = (panic, s)

  -- The goroutines that allocate the nodes, and what is done with their errors.
  unfoldable pub start_nodes :
      Choices
      → Schedule NodeOptions
      → Context
      → String
      → List NodeOptions
      → Exec (Daemon st dk) String
  start_nodes ch sched ctx cluster_id nodes s =
      let (r, s') = join sched (allocate_job ctx cluster_id) nodes s in
      kill_on_error ch ctx cluster_id r s'

  -- All nodes are taken to use the version of the first.
  abbrev pub ensure_first : List NodeOptions → Exec (Daemon st dk) (Unit {0})
  ensure_first [] = pure tt
  ensure_first (n ∷ ns) = on_engine (ensure_image_exists dk cfg out n.version_info)

  -- `now` is time.Now(), and `uuid` the text of uuid.NewRandom().
  unfoldable pub allocate_cluster :
      Choices
      → Schedule NodeOptions
      → Context
      → Time
      → String
      → ClusterOptions
      → Exec (Daemon st dk) String
  allocate_cluster ch sched ctx now uuid opts = do
    lift (check_options opts)
    let cluster_id = new_random_cluster_id uuid
    on_db st dk (
        create_cluster_meta st cluster_id
          (record { owner = context_user ctx; timeout = add now (pos hour) }))
    let nodes = name_nodes 0 opts.nodes
    ensure_first nodes
    start_nodes ch sched ctx cluster_id nodes
