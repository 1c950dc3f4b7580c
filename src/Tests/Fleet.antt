-- ===== src/Tests/Fleet.antt =====
-- Listing and ending the clusters of the small fleet.
use cbdynclusterd.Prelude.{
  String, true, false, List, [], ◌∷◌, All, ◌==◌, ◌≡◌, ◌≢◌, ◌↔◌, refl, eq_iff, false≢true, ◌*◌,
}
use cbdynclusterd.Prelude.Int.{pos}
use cbdynclusterd.Prelude.Dict.{lookup, lookup_text}
use cbdynclusterd.Prelude.Result.{Result, ok, panic, traverse}
use cbdynclusterd.Prelude.Join.{join, run_all, first_error}
use cbdynclusterd.Time.{Time, second}
use cbdynclusterd.Meta.{Storage, cluster_key, read_meta, deserialize_meta, get_cluster_meta}
use cbdynclusterd.Context.{context_ignore_ownership, context_user, new_context}
use cbdynclusterd.Docker.{Container}
use cbdynclusterd.Clusters.{
  Node, Cluster, Daemon, cluster_id_label, label, short_id, node_of, creator_of, creator_or_unknown,
  add_container, group_containers, visible, cluster_of, collect, find_cluster, get_all_clusters,
  get_cluster,
}
use cbdynclusterd.Clusters.Grouping.{containers_of, Grouped, group_containers-Grouped}
use cbdynclusterd.Clusters.Lookup.{get_cluster_iff}
use mathlib.Core.List.Permᴰ
use cbdynclusterd.Clusters.Order.{to_bag, get_all_clusters-to_bag}
use cbdynclusterd.Clusters.Ownership.{DistinctIds, get_all_clusters-DistinctIds}
use cbdynclusterd.Kill.{
  system_ctx, kill_node, may_kill, nodes_to_kill, kill_cluster, kill_clusters, kill_all_clusters,
  is_expired, expired_ids, cleanup_clusters,
}
use cbdynclusterd.Kill.Removal.{Removed, kill_cluster_removes}
use cbdynclusterd.Kill.Cleanup.{in_expired, cleanup_clusters-Removed}
use cbdynclusterd.Kill.Safety.{kill_needs_ownership, panic_expires}
use cbdynclusterd.Tests.Fixtures.{
  storage, engine, engine-IsDocker, swap_two, swap_two-Reorders, swapping-IsSchedule, choices,
  choices-IsChoices, alice, bob, as_alice, fleet, db, daemon, label_of, fleet-TellsLabel,
}

abbrev pub node : String → String → Node
node short name = record {
  container_id = short;
  container_name = name;
  state = "running";
  name = "";
  initial_server_version = "";
  ipv4_address = "10.0.0.7";
  ipv6_address = "";
}

abbrev pub cluster_c1 : Cluster
cluster_c1 = record {
  id = "c1";
  creator = alice;
  owner = alice;
  timeout = pos (5 * second);
  nodes = node "aaaaaaaaaaaa" "/aaaaaaaaaaaa0001" ∷ node "cccccccccccc" "/cccccccccccc0003" ∷ [];
  entry_point = "";
}

abbrev pub cluster_c2 : Cluster
cluster_c2 = record {
  id = "c2";
  creator = bob;
  owner = bob;
  timeout = pos (90 * second);
  nodes = node "bbbbbbbbbbbb" "/bbbbbbbbbbbb0002" ∷ [];
  entry_point = "";
}

group_containers-Grouped_example : Grouped fleet (group_containers [] fleet)
group_containers-Grouped_example = group_containers-Grouped fleet

pub all_listed :
    get_all_clusters storage engine swap_two system_ctx daemon ≡ ok (cluster_c2 ∷ cluster_c1 ∷ [])
unfolding get_all_clusters collect group_containers label lookup lookup_text add_container
    cluster_of traverse node_of short_id visible context_ignore_ownership context_user new_context
    creator_or_unknown creator_of cluster_key deserialize_meta get_cluster_meta read_meta
all_listed = refl

listed_alice : get_all_clusters storage engine swap_two as_alice daemon ≡ ok (cluster_c1 ∷ [])
unfolding get_all_clusters collect group_containers label lookup lookup_text add_container
    cluster_of traverse node_of short_id visible context_ignore_ownership context_user new_context
    creator_or_unknown creator_of cluster_key deserialize_meta get_cluster_meta read_meta
listed_alice = refl

found_c1 : get_cluster storage engine swap_two as_alice "c1" daemon ≡ ok cluster_c1
unfolding get_cluster find_cluster
found_c1 = rw listed_alice refl

get_all_clusters-DistinctIds_example :
    DistinctIds (cluster_c1 ∷ [])
    × (context_ignore_ownership as_alice ≡ false
        → All (λ (c : Cluster). c.creator ≡ context_user as_alice) (cluster_c1 ∷ []))
get_all_clusters-DistinctIds_example =
    get_all_clusters-DistinctIds storage engine swap_two as_alice daemon fleet (cluster_c1 ∷ [])
      swap_two-Reorders refl listed_alice

c1_named : ◌≢◌ {A = String} "c1" ""
c1_named e = false≢true ((eq_iff "c1" "").1 e)

c1_filled : containers_of "c1" fleet ≢ []
unfolding label lookup lookup_text
c1_filled e = cc

get_cluster_iff_example :
    (get_cluster storage engine swap_two as_alice "c1" daemon ≡ ok cluster_c1) ↔ (
      (cluster_of storage db ("c1", containers_of "c1" fleet) ≡ ok cluster_c1)
      × (visible as_alice alice ≡ true))
get_cluster_iff_example =
    get_cluster_iff storage engine swap_two as_alice "c1" daemon fleet (cluster_c1 ∷ []) cluster_c1
      swap_two-Reorders refl listed_alice c1_named c1_filled

killed_c1 : (kill_cluster storage engine choices as_alice "c1" daemon).0 ≡ ok tt
unfolding kill_cluster may_kill context_ignore_ownership context_user new_context join first_error
    run_all kill_node nodes_to_kill short_id
killed_c1 = rw found_c1 refl

kill_cluster_removes_example :
    Removed storage engine fleet
      (λ c. label cluster_id_label c == "c1")
      db
      (kill_cluster storage engine choices as_alice "c1" daemon).1
kill_cluster_removes_example =
    kill_cluster_removes storage engine engine-IsDocker choices as_alice "c1" daemon fleet label_of
      swap_two-Reorders swapping-IsSchedule fleet-TellsLabel refl killed_c1

-- One minute on, Alice's cluster has expired and Bob's has not.
abbrev pub now : Time
now = pos (60 * second)

expired : expired_ids now (cluster_c2 ∷ cluster_c1 ∷ []) ≡ "c1" ∷ []
unfolding expired_ids is_expired
expired = refl

abbrev cleaned : Result (Unit {0}) × Daemon storage engine
cleaned = cleanup_clusters storage engine choices now daemon

-- What the system user sees of the cluster.
system_found : get_cluster storage engine swap_two system_ctx "c1" daemon ≡ ok cluster_c1
unfolding get_cluster find_cluster
system_found = rw all_listed refl

cleaned_ok : cleaned.0 ≡ ok tt
unfolding cleanup_clusters kill_clusters expired_ids is_expired kill_cluster may_kill
    context_ignore_ownership new_context join first_error run_all kill_node nodes_to_kill short_id
cleaned_ok = rw (all_listed, system_found) refl

cleanup_clusters-Removed_example :
    Removed storage engine fleet (in_expired now (cluster_c2 ∷ cluster_c1 ∷ [])) db cleaned.1
cleanup_clusters-Removed_example =
    cleanup_clusters-Removed storage engine engine-IsDocker choices choices-IsChoices label_of
      daemon fleet fleet-TellsLabel refl now (cluster_c2 ∷ cluster_c1 ∷ []) all_listed cleaned_ok

abbrev all_killed : Result (Unit {0}) × Daemon storage engine
all_killed = kill_all_clusters storage engine choices as_alice daemon

all_killed_ok : all_killed.0 ≡ ok tt
unfolding kill_all_clusters kill_clusters kill_cluster may_kill context_ignore_ownership
    context_user new_context join first_error run_all kill_node nodes_to_kill short_id
all_killed_ok = rw (listed_alice, found_c1) refl

not_admin : context_ignore_ownership as_alice ≡ false
unfolding context_ignore_ownership new_context
not_admin = refl

kill_needs_ownership_example :
    ((kill_cluster storage engine choices as_alice "c1" daemon).0 ≡ ok tt
      → (alice ≡ context_user as_alice) × (alice ≡ context_user as_alice))
    × (alice ≢ context_user as_alice
        → ((kill_cluster storage engine choices as_alice "c1" daemon).0 ≢ ok tt)
          × ((kill_cluster storage engine choices as_alice "c1" daemon).1 ≡ daemon))
kill_needs_ownership_example =
    kill_needs_ownership storage engine choices as_alice "c1" daemon fleet cluster_c1
      swap_two-Reorders refl not_admin found_c1

-- A data base whose reads panic.
abbrev panicking : Storage
panicking = record storage { get = λ db k. panic }

abbrev unreadable_c2 : Cluster
unreadable_c2 = record cluster_c2 { owner = ""; timeout = pos 0 }

abbrev c2_containers : List Container
c2_containers = containers_of "c2" fleet

built_c2 : cluster_of panicking db ("c2", c2_containers) ≡ ok unreadable_c2
unfolding label lookup lookup_text cluster_of traverse node_of short_id creator_or_unknown
    creator_of get_cluster_meta read_meta
built_c2 = refl

panic_expires_example : is_expired (pos 1) unreadable_c2 ≡ true
panic_expires_example = panic_expires panicking "c2" c2_containers db unreadable_c2 0 refl built_c2

get_all_clusters-to_bag_example :
    to_bag (get_all_clusters storage engine swap_two as_alice daemon)
    ≡ to_bag (get_all_clusters storage engine (λ gs. gs) as_alice daemon)
get_all_clusters-to_bag_example =
    get_all_clusters-to_bag storage engine swap_two (λ gs. gs) as_alice daemon swap_two-Reorders
      (λ gs. Permᴰ.refl gs)
