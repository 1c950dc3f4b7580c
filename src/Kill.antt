-- ===== src/Kill.antt =====
-- Ending clusters: killNode of daemon/nodes.go, killCluster and killAllClusters of
-- daemon/clusters.go, cleanupClusters of daemon/daemon.go.
pub mod Effect
pub mod Removal
pub mod Cleanup
pub mod Safety
pub mod Race
pub mod Pool
use cbdynclusterd.Prelude.{String, Bool, true, ◌||◌, List, map, keep, ◌==◌}
use cbdynclusterd.Prelude.Result.{failure, guard}
use cbdynclusterd.Prelude.Exec.{Exec, reads, lift, ◌>>=◌, ◌>>◌}
use cbdynclusterd.Prelude.Join.{Schedule, join}
use cbdynclusterd.Time.{Time, before}
use cbdynclusterd.Meta.{Storage}
use cbdynclusterd.Context.{Context, new_context, background, context_user, context_ignore_ownership}
use cbdynclusterd.Docker.{Docker}
use cbdynclusterd.Clusters.{Cluster, Group, Daemon, get_cluster, get_all_clusters}

-- systemCtx of startDaemon
abbrev pub system_ctx : Context
system_ctx = new_context background "system" true

-- What Go leaves open: the order of a range over a map, and of goroutines. The goroutines that kill
-- the clusters, and for each of these the ones that kill its nodes.
pub record Choices : Type 0 where
  pub order : List Group → List Group
  pub clusters : Schedule String
  pub nodes : String → Schedule String

-- `!ContextIgnoreOwnership(ctx) && cluster.Owner != ContextUser(ctx)`, negated
unfoldable pub may_kill : Context → Cluster → Bool
may_kill ctx cluster = context_ignore_ownership ctx || (cluster.owner == context_user ctx)

unfoldable pub nodes_to_kill : Cluster → List String
nodes_to_kill cluster = map (λ n. n.container_id) cluster.nodes

-- cluster.Timeout.Before(time.Now()). The loop over the clusters does not wait, so one reading of
-- the clock stands for all.
unfoldable pub is_expired : Time → Cluster → Bool
is_expired now cluster = before cluster.timeout now

unfoldable pub expired_ids : Time → List Cluster → List String
expired_ids now clusters = map (λ c. c.id) (keep (is_expired now) clusters)

module _ (st : Storage) (dk : Docker) where
  -- Containers are created with AutoRemove, so a stop is all there is to do.
  unfoldable pub kill_node : String → Exec (Daemon st dk) (Unit {0})
  kill_node container_id s =
      let (r, engine') = dk.container_stop container_id s.engine in
      (r, record s { engine = engine' })

  unfoldable pub kill_cluster : Choices → Context → String → Exec (Daemon st dk) (Unit {0})
  kill_cluster ch ctx cluster_id = do
    cluster ← reads (get_cluster st dk ch.order ctx cluster_id)
    lift (guard (may_kill ctx cluster) (failure "cannot kill clusters you don't own"))
    join (ch.nodes cluster_id) kill_node (nodes_to_kill cluster)

  unfoldable pub kill_clusters : Choices → Context → List String → Exec (Daemon st dk) (Unit {0})
  kill_clusters ch ctx = join ch.clusters (kill_cluster ch ctx)

  unfoldable pub kill_all_clusters : Choices → Context → Exec (Daemon st dk) (Unit {0})
  unfolding kill_clusters
  kill_all_clusters ch ctx = do
    clusters ← reads (get_all_clusters st dk ch.order ctx)
    kill_clusters ch ctx (map (λ c. c.id) clusters)

  unfoldable pub cleanup_clusters : Choices → Time → Exec (Daemon st dk) (Unit {0})
  cleanup_clusters ch now = do
    clusters ← reads (get_all_clusters st dk ch.order system_ctx)
    kill_clusters ch system_ctx (expired_ids now clusters)
