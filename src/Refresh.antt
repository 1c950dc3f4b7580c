-- ===== src/Refresh.antt =====
-- refreshCluster of daemon/clusters.go.
pub mod Laws
use cbdynclusterd.Prelude.{String, List, Option, none, some, if◌then◌else◌}
use cbdynclusterd.Prelude.Result.{Error, Result, ok}
use cbdynclusterd.Prelude.Exec.{Exec, reads, ◌>>=◌, ◌>>◌}
use cbdynclusterd.Time.{Time, Duration, before, add}
use cbdynclusterd.Meta.{
  Storage, ClusterMeta, create_cluster_meta, update_cluster_meta, get_cluster_meta,
}
use cbdynclusterd.Context.{Context, context_user}
use cbdynclusterd.Docker.{Docker}
use cbdynclusterd.Clusters.{Group, Daemon, get_cluster}

-- newMeta, at the time `now`
unfoldable pub new_meta : Context → Time → Duration → ClusterMeta
new_meta ctx now new_timeout = record { owner = context_user ctx; timeout = add now new_timeout }

-- The function that refreshCluster hands to UpdateClusterMeta.
unfoldable pub prolong : ClusterMeta → ClusterMeta → ClusterMeta
prolong new meta = record {
  owner = new.owner;
  timeout = if before meta.timeout new.timeout then new.timeout else meta.timeout;
}

module _ (st : Storage) where
  -- If reading the entry fails, it is created.
  abbrev pub create_or_update : String → ClusterMeta → Option Error → Exec st.Db (Unit {0})
  create_or_update cluster_id new (some e) = create_cluster_meta st cluster_id new
  create_or_update cluster_id new none =
      update_cluster_meta st cluster_id (λ meta. ok (prolong new meta))

  unfoldable pub write_refresh : String → ClusterMeta → Exec st.Db (Unit {0})
  write_refresh cluster_id new db =
      create_or_update cluster_id new (get_cluster_meta st cluster_id db).1 db

module _ (st : Storage) (dk : Docker) where
  -- A step of the data base, as a step of the daemon.
  abbrev pub on_db : Exec st.Db (Unit {0}) → Exec (Daemon st dk) (Unit {0})
  on_db m s = let (r, db') = m s.db in (r, record s { db = db' })

  unfoldable pub refresh_cluster :
      (List Group → List Group)
      → Context
      → Time
      → String
      → Duration
      → Exec (Daemon st dk) (Unit {0})
  refresh_cluster order ctx now cluster_id new_timeout = do
    reads (get_cluster st dk order ctx cluster_id)
    on_db (write_refresh st cluster_id (new_meta ctx now new_timeout))
