-- ===== src/Tests/Web.antt =====
-- Requests to the handlers, by Alice.
use cbdynclusterd.Prelude.{
  if◌then◌else◌, String, true, false, none, [], ◌∷◌, length, ◌≡◌, ◌≢◌, refl, arith, ◌*◌, ◌≤◌, ◌==◌,
}
use cbdynclusterd.Prelude.Int.{pos, ◌≤ℤ◌, ◌+ℤ◌}
use cbdynclusterd.Prelude.Text.{has_suffix, split, atoi}
use cbdynclusterd.Prelude.Dict.{lookup, lookup_text}
use cbdynclusterd.Prelude.Result.{Result, failure, ok, err, traverse}
use cbdynclusterd.Prelude.Join.{join, run_all, first_error}
use cbdynclusterd.Time.{Time, Duration, second, hour, add, IsWritable}
use cbdynclusterd.Meta.{
  create_cluster_meta, read_meta, deserialize_meta, cluster_key, serialize_meta, get_cluster_meta,
}
use cbdynclusterd.Meta.Laws.{stored}
use cbdynclusterd.Context.{background, context_user, new_context, context_ignore_ownership}
use cbdynclusterd.Clusters.{
  Node, Cluster, Daemon, label, short_id, node_of, creator_of, creator_or_unknown, add_container,
  group_containers, visible, cluster_of, collect, find_cluster, get_all_clusters, get_cluster,
}
use cbdynclusterd.Kill.{kill_cluster, kill_node, may_kill, nodes_to_kill}
use cbdynclusterd.Refresh.{refresh_cluster}
use cbdynclusterd.Version.{
  Products, alias_server_version, parse_server_version, flavor_from_version, version_to_flavor,
}
use cbdynclusterd.Images.{
  check_build_exists, parse_image_event, image_build, ensure_image_exists, wrapped,
}
use cbdynclusterd.Allocate.{
  new_random_cluster_id, two_weeks, check_options, name_nodes, allocate_node, allocate_job,
  start_nodes, registrations, container_config, container_name_of, allocate_cluster,
}
use cbdynclusterd.WireJson.{CreateClusterJson}
use cbdynclusterd.Requests.{
  Request, Response, reply, respond, get_http_context, requested_timeout, create_options,
  node_options, timeout_to_refresh,
}
use cbdynclusterd.Handlers.{http_update_cluster, handle, http_delete_cluster, http_create_cluster}
use cbdynclusterd.Handlers.Laws.{delete_needs_ownership, create_answered}
use cbdynclusterd.Tests.Fixtures.{
  storage, storage-IsStorage, engine, swap_two, swap_two-Reorders, swapping, choices, alice,
  as_alice, fleet, daemon,
}
use cbdynclusterd.Tests.Start.{config, outside, uuid}

abbrev request : {A : Type 0} → String → Result A → Request A
request cluster_id body = record {
  user = alice;
  admin = "";
  cluster_id = cluster_id;
  body = body;
  context = background;
}

abbrev pub node : String → String → Node
node short name = record {
  container_id = short;
  container_name = name;
  state = "running";
  name = "";
  initial_server_version = "";
  ipv4_address = "10.0.0.7";
  ipv6_address = "";
}

abbrev pub cluster_c1 : Cluster
cluster_c1 = record {
  id = "c1";
  creator = alice;
  owner = alice;
  timeout = pos (5 * second);
  nodes = node "aaaaaaaaaaaa" "/aaaaaaaaaaaa0001" ∷ node "cccccccccccc" "/cccccccccccc0003" ∷ [];
  entry_point = "";
}

abbrev delete_c1 : Request (Unit {0})
delete_c1 = request "c1" (ok tt)

accepted : get_http_context delete_c1 ≡ ok (new_context background alice false)
unfolding get_http_context has_suffix
accepted = refl

pub found_c1 :
    get_cluster storage engine swap_two (new_context background alice false) "c1" daemon
    ≡ ok cluster_c1
unfolding get_all_clusters collect group_containers label lookup lookup_text add_container
    cluster_of traverse node_of short_id visible context_ignore_ownership context_user new_context
    creator_or_unknown creator_of cluster_key deserialize_meta get_cluster_meta read_meta
    get_cluster find_cluster
found_c1 = refl

deleted : (http_delete_cluster storage engine choices delete_c1 daemon).0 ≡ reply tt
unfolding http_delete_cluster handle respond kill_cluster may_kill context_ignore_ownership
    context_user new_context join first_error run_all kill_node nodes_to_kill short_id
    get_http_context has_suffix
deleted = rw found_c1 refl

delete_needs_ownership_example :
    (has_suffix alice "@couchbase.com" ≡ true)
    × (◌≢◌ {A = String} "" "true" → (alice ≡ alice) × (alice ≡ alice))
delete_needs_ownership_example =
    delete_needs_ownership storage engine choices delete_c1 daemon fleet cluster_c1
      swap_two-Reorders refl found_c1 deleted

-- The one text that is read as a time.
abbrev pub parse_duration : String → Result Duration
parse_duration s =
    if s == "30s" then ok (pos (30 * second)) else err (failure "time: invalid duration")

abbrev pub now : Time
now = pos (60 * second)

-- A cluster that does not exist: the refresh fails, and the answer is 200.
abbrev prolong_c9 : Request String
prolong_c9 = request "c9" (ok "30s")

accepted_c9 : get_http_context prolong_c9 ≡ ok as_alice
unfolding get_http_context has_suffix
accepted_c9 = refl

refused_c9 :
    (refresh_cluster storage engine swap_two as_alice now "c9" (pos (30 * second)) daemon).0
    ≡ err (failure "cluster not found")
unfolding get_all_clusters collect group_containers label lookup lookup_text add_container
    cluster_of traverse node_of short_id visible context_ignore_ownership context_user new_context
    creator_or_unknown creator_of cluster_key deserialize_meta get_cluster_meta read_meta
    refresh_cluster get_cluster find_cluster
refused_c9 = refl

answered_c9 :
    (http_update_cluster storage engine swap_two parse_duration now prolong_c9 daemon).0 ≡ reply tt
unfolding http_update_cluster handle respond timeout_to_refresh
answered_c9 = rw (accepted_c9, refused_c9) refl

abbrev wanted : CreateClusterJson
wanted = record {
  timeout = "";
  nodes =
      record {
        name = "";
        platform = "";
        server_version = "7.0.2-6703";
        use_community_edition = false;
      }
      ∷ [];
}

abbrev pub create : Request CreateClusterJson
create = request "" (ok wanted)

abbrev pub products : Result Products
products = ok []

abbrev pub answered : Response String × Daemon storage engine
answered =
    http_create_cluster storage engine config outside choices swapping parse_duration products now
      uuid create daemon

answered_id : answered.0 ≡ reply "0a1b2c3d"
unfolding http_create_cluster handle respond get_http_context has_suffix create_options
    requested_timeout node_options alias_server_version parse_server_version flavor_from_version
    version_to_flavor split atoi traverse allocate_cluster check_options create_cluster_meta
    serialize_meta lookup cluster_key new_random_cluster_id name_nodes ensure_image_exists
    check_build_exists image_build wrapped parse_image_event start_nodes join first_error run_all
    allocate_job allocate_node container_config registrations container_name_of
answered_id = refl

hour-IsWritable : IsWritable (add now (pos hour))
unfolding ◌+ℤ◌
hour-IsWritable = omega arith

create_answered_example :
    (t : Duration) × (requested_timeout parse_duration "" ≡ ok t)
    × (pos 0 ≤ℤ t)
    × (t ≤ℤ two_weeks)
    × (1 ≤ length wanted.nodes)
    × (length wanted.nodes ≤ 10)
    × (get_cluster_meta storage "0a1b2c3d" answered.1.db
        ≡ (stored (record { owner = alice; timeout = add now (pos hour) }), none))
create_answered_example =
    create_answered storage storage-IsStorage engine config outside choices swapping parse_duration
      products now uuid "0a1b2c3d" create wanted daemon hour-IsWritable refl answered_id
