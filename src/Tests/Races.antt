-- ===== src/Tests/Races.antt =====
-- Alice refreshes her cluster just when a cleanup has found it expired.
use mathlib.Core.List.{Memᴰ}
use cbdynclusterd.Prelude.{List, [], ◌∷◌, ◌==◌, ◌≡◌, false, All, refl, arith}
use cbdynclusterd.Prelude.Int.{◌≤ℤ◌, ◌+ℤ◌}
use cbdynclusterd.Prelude.Dict.{lookup, lookup_text}
use cbdynclusterd.Prelude.Result.{Result, ok, traverse}
use cbdynclusterd.Prelude.Join.{join, run_all, first_error}
use cbdynclusterd.Time.{add, truncate_second}
use cbdynclusterd.Meta.{
  get_cluster_meta, cluster_key, read_meta, deserialize_meta, serialize_meta, update_cluster_meta,
  update,
}
use cbdynclusterd.Context.{context_ignore_ownership, context_user, new_context}
use cbdynclusterd.Docker.{Container}
use cbdynclusterd.Clusters.{
  Daemon, cluster_id_label, label, short_id, node_of, creator_of, creator_or_unknown, add_container,
  group_containers, visible, cluster_of, collect, find_cluster, get_all_clusters, get_cluster,
}
use cbdynclusterd.Refresh.{refresh_cluster, new_meta, prolong, write_refresh}
use cbdynclusterd.Kill.{
  kill_node, may_kill, nodes_to_kill, kill_cluster, kill_clusters, is_expired, expired_ids,
}
use cbdynclusterd.Kill.Race.{cleanup_around, refreshed_is_killed}
use cbdynclusterd.Tests.Fixtures.{
  storage, engine, engine-IsDocker, swap_two, choices, choices-IsChoices, as_alice, fleet, daemon,
  label_of, fleet-TellsLabel, storage-IsStorage,
}
use cbdynclusterd.Tests.Fleet.{cluster_c1, cluster_c2, now, all_listed}
use cbdynclusterd.Tests.Store.{half_minute, refreshed_ok, new-IsWritable, read_c1, meta_c1}

abbrev raced : Result (Unit {0}) × Daemon storage engine
raced =
    cleanup_around storage engine
      (refresh_cluster storage engine swap_two as_alice now "c1" half_minute) choices now daemon

raced_ok : raced.0 ≡ ok tt
unfolding cleanup_around kill_clusters kill_cluster expired_ids is_expired may_kill
    context_ignore_ownership new_context join first_error run_all kill_node nodes_to_kill short_id
    refresh_cluster get_cluster get_all_clusters collect group_containers label lookup lookup_text
    add_container cluster_of traverse node_of find_cluster visible context_user creator_or_unknown
    creator_of cluster_key deserialize_meta serialize_meta get_cluster_meta read_meta
    update_cluster_meta update ◌+ℤ◌ new_meta prolong write_refresh
raced_ok = refl

refreshed_is_killed_example :
    (left : List Container) × (engine.container_list raced.1.engine ≡ ok left)
    × All (λ k. label cluster_id_label k == "c1" ≡ false) left
    × (truncate_second (add now half_minute)
        ≤ℤ (get_cluster_meta storage "c1" raced.1.db).0.timeout)
refreshed_is_killed_example =
    refreshed_is_killed storage storage-IsStorage engine engine-IsDocker choices choices-IsChoices
      label_of daemon fleet fleet-TellsLabel refl swap_two as_alice now now half_minute
      (cluster_c2 ∷ cluster_c1 ∷ []) cluster_c1 meta_c1 all_listed (Memᴰ.tail (Memᴰ.head refl)) refl
      read_c1 new-IsWritable (omega arith) refreshed_ok raced_ok
