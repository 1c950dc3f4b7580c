-- ===== src/Tests/Store.antt =====
-- The store of metadata, refreshes of it, and the JSON form of a cluster.
use cbdynclusterd.Prelude.Dict.{lookup, lookup_text}
use cbdynclusterd.Prelude.{
  String, Option, none, [], ◌∷◌, ◌≡◌, ◌≢◌, refl, arith, eq_iff, sym, ◌∙◌, subst, false≢true, ◌*◌,
  ◌+◌,
}
use cbdynclusterd.Prelude.Int.{pos, ◌+ℤ◌}
use cbdynclusterd.Prelude.Result.{Error, ok-injective, Result, ok, traverse}
use cbdynclusterd.Time.{Time, Duration, second, add, truncate_second, IsWritable}
use cbdynclusterd.Meta.{
  ClusterMeta, cluster_key, create_cluster_meta, update_cluster_meta, get_cluster_meta,
  serialize_meta, read_meta, deserialize_meta, update,
}
use cbdynclusterd.Meta.Laws.{stored, get-create, get-update}
use cbdynclusterd.Clusters.{
  Daemon, Cluster, get_cluster, get_all_clusters, collect, group_containers, label, add_container,
  cluster_of, node_of, short_id, find_cluster, visible, creator_or_unknown, creator_of,
}
use cbdynclusterd.Context.{context_ignore_ownership, context_user, new_context}
use cbdynclusterd.Refresh.{new_meta, prolong, write_refresh, refresh_cluster}
use cbdynclusterd.WireJson.{jsonify_cluster, unjsonify_cluster}
use cbdynclusterd.WireJson.Laws.{unjsonify-jsonify}
use cbdynclusterd.Tests.Fixtures.{
  storage, storage-IsStorage, engine, swap_two, alice, bob, as_alice, db, daemon,
}

abbrev meta_c9 : ClusterMeta
meta_c9 = record { owner = alice; timeout = pos (7 * second + 5) }

abbrev db_c9 : storage.Db
db_c9 = ("cluster-c9", record { owner = alice; timeout = "|||||||" }) ∷ db

created_c9 : create_cluster_meta storage "c9" meta_c9 db ≡ (ok tt, db_c9)
unfolding create_cluster_meta serialize_meta lookup cluster_key
created_c9 = refl

get-create_example : get_cluster_meta storage "c9" db_c9 ≡ (stored meta_c9, none)
get-create_example =
    get-create storage storage-IsStorage "c9" meta_c9 db db_c9 (omega arith) created_c9

c1_is_there : storage.get db (cluster_key "c1") ≡ ok (record { owner = alice; timeout = "|||||" })
unfolding cluster_key lookup
c1_is_there = refl

-- Gives a cluster to Bob.
abbrev give_to_bob : ClusterMeta → Result ClusterMeta
give_to_bob meta = ok (record meta { owner = bob })

abbrev db_given : storage.Db
db_given = ("cluster-c1", record { owner = bob; timeout = "|||||" }) ∷ db

given_c1 : update_cluster_meta storage "c1" give_to_bob db ≡ (ok tt, db_given)
unfolding update_cluster_meta read_meta lookup cluster_key deserialize_meta serialize_meta
given_c1 = refl

abbrev pub meta_c1 : ClusterMeta
meta_c1 = record { owner = alice; timeout = pos (5 * second) }

pub read_c1 : get_cluster_meta storage "c1" db ≡ (meta_c1, none)
unfolding get_cluster_meta read_meta lookup cluster_key deserialize_meta
read_c1 = refl

given-IsWritable :
    (old new : ClusterMeta)
    → get_cluster_meta storage "c1" db ≡ (old, none)
    → give_to_bob old ≡ ok new
    → IsWritable new.timeout
given-IsWritable old new read given =
    subst (λ (m : ClusterMeta). IsWritable m.timeout) (ok-injective given)
      (subst (λ (r : ClusterMeta × Option Error). IsWritable r.0.timeout) (sym read_c1 ∙ read)
        (omega arith))

get-update_example :
    (old new : ClusterMeta) × (get_cluster_meta storage "c1" db ≡ (old, none))
    × (give_to_bob old ≡ ok new)
    × (get_cluster_meta storage "c1" db_given ≡ (stored new, none))
get-update_example =
    get-update storage storage-IsStorage "c1" give_to_bob db db_given given-IsWritable given_c1

c9≢c1 : ◌≢◌ {A = String} "c9" "c1"
c9≢c1 e = false≢true ((eq_iff "c9" "c1").1 e)

-- One minute on, Alice asks for another 30 seconds.
abbrev pub now : Time
now = pos (60 * second)

abbrev pub half_minute : Duration
half_minute = pos (30 * second)

abbrev pub refreshed : Result (Unit {0}) × Daemon storage engine
refreshed = refresh_cluster storage engine swap_two as_alice now "c1" half_minute daemon

pub refreshed_ok : refreshed.0 ≡ ok tt
unfolding refresh_cluster get_cluster get_all_clusters collect group_containers label lookup
    lookup_text add_container cluster_of traverse node_of short_id find_cluster visible
    context_ignore_ownership context_user new_context creator_or_unknown creator_of cluster_key
    deserialize_meta serialize_meta get_cluster_meta read_meta update_cluster_meta update ◌+ℤ◌
    new_meta prolong write_refresh
refreshed_ok = refl

pub new-IsWritable : IsWritable (add now half_minute)
unfolding ◌+ℤ◌
new-IsWritable = omega arith

abbrev cluster_c1 : Cluster
cluster_c1 = record {
  id = "c1";
  creator = alice;
  owner = alice;
  timeout = now;
  nodes =
      record {
        container_id = "aaaaaaaaaaaa";
        container_name = "/aaaaaaaaaaaa0001";
        state = "running";
        name = "node_1";
        initial_server_version = "7.0.2";
        ipv4_address = "10.0.0.7";
        ipv6_address = "";
      }
      ∷ [];
  entry_point = "";
}

unjsonify-jsonify_example :
    unjsonify_cluster storage (jsonify_cluster storage cluster_c1)
    ≡ ok (record cluster_c1 { timeout = truncate_second now })
unjsonify-jsonify_example = unjsonify-jsonify storage storage-IsStorage cluster_c1 (omega arith)
