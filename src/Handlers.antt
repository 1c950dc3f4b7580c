-- ===== src/Handlers.antt =====
-- The HTTP handlers of daemon/restserver.go, with addBucket of daemon/buckets.go and addCollection
-- of daemon/collections.go. Routing and the encoding of JSON are libraries' work: a handler is
-- given what it reads of its request and returns what it answers. Log lines are left out.
pub mod Laws
use cbdynclusterd.Prelude.{String, List, map, if◌then◌else◌, ◌==◌}
use cbdynclusterd.Prelude.Text.{itoa}
use cbdynclusterd.Prelude.Result.{failure, Result, ok, err, panic}
use cbdynclusterd.Prelude.Exec.{Exec, pure, lift, reads, continue, ◌>>=◌, ◌>>◌}
use cbdynclusterd.Prelude.Join.{Schedule}
use cbdynclusterd.Time.{Time, Duration}
use cbdynclusterd.Meta.{Storage}
use cbdynclusterd.Context.{Context}
use cbdynclusterd.Docker.{Docker}
use cbdynclusterd.Version.{Products, parse_server_version, to_image_name}
use cbdynclusterd.Images.{Config, Outside, ensure_image_exists}
use cbdynclusterd.Clusters.{Group, Daemon, get_all_clusters, get_cluster}
use cbdynclusterd.Kill.{Choices, kill_cluster}
use cbdynclusterd.Refresh.{refresh_cluster}
use cbdynclusterd.Allocate.{NodeOptions, allocate_cluster, on_engine}
use cbdynclusterd.Rest.{Net}
use cbdynclusterd.Server.{create_bucket, create_collection}
use cbdynclusterd.WireJson.{
  ClusterJson, CreateClusterJson, AddBucketJson, AddCollectionJson, BuildImageJson, jsonify_cluster,
}
use cbdynclusterd.Requests.{
  Request, Response, respond, get_http_context, create_options, timeout_to_refresh, rest_server,
}

-- A handler's steps, from the request's context on, and what it answers.
unfoldable pub handle : {A B S : Type 0} → Request A → (Context → Exec S B) → S → Response B × S
handle r steps s = let (result, s') = continue (get_http_context r) steps s in (respond result, s')

module _ (st : Storage) (dk : Docker) where
  unfoldable pub http_get_clusters :
      (List Group → List Group)
      → Request (Unit {0})
      → Daemon st dk
      → Response (List ClusterJson) × Daemon st dk
  http_get_clusters order r = handle r (λ ctx. do
    clusters ← reads (get_all_clusters st dk order ctx)
    pure (map (jsonify_cluster st) clusters))

  unfoldable pub http_get_cluster :
      (List Group → List Group)
      → Request (Unit {0})
      → Daemon st dk
      → Response ClusterJson × Daemon st dk
  http_get_cluster order r = handle r (λ ctx. do
    cluster ← reads (get_cluster st dk order ctx r.cluster_id)
    pure (jsonify_cluster st cluster))

  unfoldable pub http_delete_cluster :
      Choices → Request (Unit {0}) → Daemon st dk → Response (Unit {0}) × Daemon st dk
  http_delete_cluster ch r = handle r (λ ctx. kill_cluster st dk ch ctx r.cluster_id)

  -- The error that refreshCluster returns is dropped; a panic is not.
  abbrev ignore_error : Result (Unit {0}) → Result (Unit {0})
  ignore_error (ok u) = ok u
  ignore_error (err e) = ok tt
  ignore_error panic = panic

  abbrev pub refresh_ignoring :
      (List Group → List Group)
      → Context
      → Time
      → String
      → Duration
      → Exec (Daemon st dk) (Unit {0})
  refresh_ignoring order ctx now cluster_id timeout s =
      let (result, s') = refresh_cluster st dk order ctx now cluster_id timeout s in
      (ignore_error result, s')

  -- UpdateClusterJSON has one field, Timeout.
  unfoldable pub http_update_cluster :
      (List Group → List Group)
      → (String → Result Duration)
      → Time
      → Request String
      → Daemon st dk
      → Response (Unit {0}) × Daemon st dk
  http_update_cluster order parse now r = handle r (λ ctx. do
    timeout ← lift r.body
    new_timeout ← lift (timeout_to_refresh parse timeout)
    refresh_ignoring order ctx now r.cluster_id new_timeout)

  module _ (cfg : Config) (out : Outside) where
    -- The result is the new cluster's ID. `products` is what GetProductsMap returns once
    -- GetConfigRepo has fetched the repository of aliases, or failed to.
    unfoldable pub http_create_cluster :
        Choices
        → Schedule NodeOptions
        → (String → Result Duration)
        → Result Products
        → Time
        → String
        → Request CreateClusterJson
        → Daemon st dk
        → Response String × Daemon st dk
    http_create_cluster ch sched parse products now uuid r = handle r (λ ctx. do
      req_data ← lift r.body
      opts ← lift (create_options parse products req_data)
      allocate_cluster st dk cfg out ch sched ctx now uuid opts)

    -- The result is the image's name.
    unfoldable pub http_build_image :
        Request BuildImageJson → Daemon st dk → Response String × Daemon st dk
    http_build_image r = handle r (λ ctx. do
      req_data ← lift r.body
      node_version ←
          lift (parse_server_version req_data.server_version req_data.use_community_edition)
      on_engine st dk cfg out (ensure_image_exists dk cfg out node_version)
      pure (to_image_name cfg.docker_registry node_version))

  module _ (net : Net) (order : List Group → List Group) where
    -- The REST calls act on the world outside, the daemon stays as it is.
    unfoldable pub add_bucket :
        Context → String → AddBucketJson → Daemon st dk → Exec net.World (Unit {0})
    add_bucket ctx cluster_id conf s = do
      c ← lift (get_cluster st dk order ctx cluster_id s)
      node ← lift (rest_server conf.use_hostname c.nodes)
      create_bucket net node (record {
        name = conf.name;
        bucket_type = conf.bucket_type;
        replica_count = conf.replica_count;
        ram_quota_mb = itoa conf.ram_quota;
        eph_eviction_policy = conf.eviction_policy;
      })

    unfoldable pub add_collection :
        Context → String → AddCollectionJson → Daemon st dk → Exec net.World (Unit {0})
    add_collection ctx cluster_id conf s = do
      c ← lift (get_cluster st dk order ctx cluster_id s)
      node ← lift (rest_server conf.use_hostname c.nodes)
      create_collection net node (record {
        name = conf.name;
        scope_name = conf.scope_name;
        bucket_name = conf.bucket_name;
      })

    unfoldable pub http_add_bucket :
        Request AddBucketJson → Daemon st dk → net.World → Response (Unit {0}) × net.World
    http_add_bucket r s =
        handle r (λ ctx. do req_data ← lift r.body; add_bucket ctx r.cluster_id req_data s)

    unfoldable pub http_add_collection :
        Request AddCollectionJson → Daemon st dk → net.World → Response (Unit {0}) × net.World
    http_add_collection r s =
        handle r (λ ctx. do req_data ← lift r.body; add_collection ctx r.cluster_id req_data s)
