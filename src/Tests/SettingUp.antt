-- ===== src/Tests/SettingUp.antt =====
-- Requests to set up a cluster.
use cbdynclusterd.Prelude.{
  ℕ, ◌*◌, String, true, false, Option, none, some, List, [], ◌∷◌, ◌≡◌, refl, get_elem?, length,
}
use cbdynclusterd.Prelude.Int.{pos}
use cbdynclusterd.Prelude.Text.{has_suffix, split, join, contains, atoi, show_nat, itoa}
use cbdynclusterd.Prelude.Result.{Result, ok, message, wrap, traverse}
use cbdynclusterd.Prelude.Exec.{for_each}
use cbdynclusterd.Time.{second}
use cbdynclusterd.Context.{Context, background, new_context, context_user, context_ignore_ownership}
use cbdynclusterd.Clusters.{
  Cluster, get_cluster, label, short_id, node_of, creator_of, creator_or_unknown, add_container,
  group_containers, visible, cluster_of, collect, find_cluster, get_all_clusters,
}
use cbdynclusterd.Rest.{http_request, read_response, get_response, unstop, rest_retryer}
use cbdynclusterd.Server.{
  Server, form_call, bare_call, create_bucket_body, roles_or_admin, create_user_body, rest_unit,
  tolerating, add_node, provision, set_memory_quota, setup_memory_quota, rename,
  setup_initial_service, set_storage_mode, init_new_cluster, create_fts_index, create_n1ql_index,
  change_bucket_compression, create_bucket, create_collection, enable_developer_preview,
  create_user, delete_bucket, stop_rebalance, get_info,
}
use cbdynclusterd.Ssh.{Ssh}
use cbdynclusterd.Peer.{
  rebalance_node, get_id, resp_nodes, find_otp, take_nodes, find_membership, membership, aux_nodes,
  get_text, otp_post, fail_over_and_eject, fetch_nodes, update_node, remaining_ids, get_buckets,
  rest_call_to_aux, fail_over_and_eject_all,
}
use cbdynclusterd.Manager.{
  at, get_ep_node, indices, parse_version, add_existing, group_of, get_service_node, get_version,
  find_existing, clear_single_cluster, get_entry_point,
}
use cbdynclusterd.Manager.Setup.{
  add_other, poll_join_ready_all, manager_rebalance, setup_new_cluster, bucket_conf, at_run,
  rebalance_tries, setup_bucket, manager_change_bucket_compression, bucket_if_named,
  init_entry_point, start_cluster,
}
use cbdynclusterd.Setup.{
  respond_when_done, cluster_to_setup, CreateClusterSetupJson, setup_nodes, setup_cluster,
  http_setup_cluster, host_to_use, setup_node, manager_config, respond_when_done, cluster_to_setup,
  sample_server, add_sample_bucket, http_add_sample_bucket,
}
use cbdynclusterd.Setup.Laws.{Describes, setup_nodes-eq-ok, http_setup_cluster-reply}
use cbdynclusterd.WireJson.{ClusterJson, jsonify_cluster}
use cbdynclusterd.Requests.{
  Request, reply, get_http_context, respond, http_get_docker_host, http_get_version,
  requested_timeout, timeout_to_refresh, node_options, create_options, host_name_of, rest_server,
}
use cbdynclusterd.Tests.Fixtures.{storage, engine, swap_two, bob, daemon}
use cbdynclusterd.Tests.Peers.{net, decoder, waiting}
use cbdynclusterd.Tests.Web.{cluster_c1, node}
use cbdynclusterd.Peer.Polling.{
  progress_entries, parse_rebalance_progress, rebalance_status, join_status, compression_status,
  sample_count, sample_status, bucket_status, poll_rebalance, poll_compression_mode,
  poll_sample_bucket, poll_join_ready, wait_for_bucket_ready, wait_for_bucket_healthy, load_sample,
}
use cbdynclusterd.Prelude.Await.{in_time, await, await_all}
use cbdynclusterd.Prelude.Join.{run_all}
use cbdynclusterd.Poll.{poll}
use cbdynclusterd.Json.{field, as_text, as_number, as_object, is_nil}
use cbdynclusterd.Escape.{query_escape}
use cbdynclusterd.Meta.{
  cluster_key, serialize_meta, deserialize_meta, update, create_cluster_meta, read_meta,
  update_cluster_meta, get_cluster_meta,
}
use cbdynclusterd.Prelude.Dict.{lookup, lookup_text}
use cbdynclusterd.Tests.Managing.{config}

abbrev ssh : Ssh net
ssh = record {
  open_session = λ login n. (ok tt, n);
  run = λ login cmd n. (ok (record { stdout = ""; stderr = ""; error = none }), n);
}

abbrev setup_conf : CreateClusterSetupJson
setup_conf = record {
  services = "kv" ∷ "kv,n1ql" ∷ [];
  storage_mode = "plasma";
  ram_quota = pos 600;
  use_hostname = true;
  use_ipv6 = false;
  bucket = config.bucket;
  user = config.user;
  use_developer_preview = false;
}

-- For a cluster of one node, and with no bucket to create.
abbrev small_conf : CreateClusterSetupJson
small_conf = record setup_conf {
  services = "kv" ∷ [];
  bucket = some (record { name = ""; bucket_type = ""; password = "" });
}

abbrev built : Result (List Server)
built = setup_nodes setup_conf cluster_c1.nodes setup_conf.services

abbrev or_none : Result (List Server) → List Server
or_none (ok vs) = vs
or_none _ = []

built_two : built ≡ ok (or_none built)
unfolding host_to_use setup_node setup_nodes manager_config respond_when_done setup_cluster
    cluster_to_setup http_setup_cluster sample_server add_sample_bucket http_add_sample_bucket
    respond get_http_context http_get_docker_host http_get_version requested_timeout
    timeout_to_refresh node_options create_options host_name_of rest_server
built_two = refl

setup_nodes-eq-ok_example :
    (length (or_none built) ≡ 2)
    × ((i : ℕ) (v : Server)
        → get_elem? (or_none built) i ≡ some v
        → Describes setup_conf cluster_c1.nodes setup_conf.services i v)
setup_nodes-eq-ok_example =
    setup_nodes-eq-ok setup_conf cluster_c1.nodes setup_conf.services (or_none built) built_two

abbrev setup_c2 : Request CreateClusterSetupJson
setup_c2 = record {
  user = bob;
  admin = "";
  cluster_id = "c2";
  body = ok small_conf;
  context = background;
}

abbrev cluster_c2 : Cluster
cluster_c2 = record {
  id = "c2";
  creator = bob;
  owner = bob;
  timeout = pos (90 * second);
  nodes = node "bbbbbbbbbbbb" "/bbbbbbbbbbbb0002" ∷ [];
  entry_point = "";
}

found_c2 :
    get_cluster storage engine swap_two (new_context background bob false) "c2" daemon
    ≡ ok cluster_c2
unfolding label short_id node_of creator_of creator_or_unknown add_container group_containers
    visible cluster_of collect find_cluster get_all_clusters get_cluster new_context context_user
    context_ignore_ownership cluster_key serialize_meta deserialize_meta update create_cluster_meta
    read_meta update_cluster_meta get_cluster_meta lookup lookup_text message wrap traverse
found_c2 = refl

chosen_c2 :
    cluster_to_setup net decoder 1 ssh
      (λ gs. gs)
      waiting
      waiting
      storage
      engine
      swap_two
      setup_c2
      daemon
    ≡ ok (small_conf, cluster_c2)
unfolding cluster_to_setup get_http_context has_suffix
chosen_c2 = rw found_c2 refl

abbrev started : Option (Result String × ℕ)
started = setup_cluster net decoder 1 ssh (λ gs. gs) waiting waiting small_conf cluster_c2.nodes 0

abbrev world_after : {A : Type 0} → Option (A × ℕ) → ℕ
world_after none = 0
world_after (some (r, w)) = w

url_c2 : started ≡ some (ok "http://bbbbbbbbbbbb0002.couchbase.com:8091", world_after started)
unfolding indices parse_version add_existing group_of at get_ep_node get_service_node get_version
    find_existing clear_single_cluster get_entry_point bucket_conf at_run add_other
    poll_join_ready_all rebalance_tries manager_rebalance setup_bucket
    manager_change_bucket_compression bucket_if_named init_entry_point setup_new_cluster
    start_cluster get_id resp_nodes find_otp take_nodes find_membership membership aux_nodes
    get_text otp_post fail_over_and_eject fetch_nodes update_node remaining_ids rebalance_node
    get_buckets rest_call_to_aux fail_over_and_eject_all progress_entries parse_rebalance_progress
    rebalance_status join_status compression_status sample_count sample_status bucket_status
    poll_rebalance poll_compression_mode poll_sample_bucket poll_join_ready wait_for_bucket_ready
    wait_for_bucket_healthy load_sample http_request read_response get_response unstop rest_retryer
    form_call bare_call create_bucket_body roles_or_admin create_user_body rest_unit tolerating
    add_node provision set_memory_quota setup_memory_quota rename setup_initial_service
    set_storage_mode init_new_cluster create_fts_index create_n1ql_index change_bucket_compression
    create_bucket create_collection enable_developer_preview create_user delete_bucket
    stop_rebalance get_info in_time await await_all run_all split join has_suffix contains atoi
    show_nat itoa for_each poll field as_text as_number as_object is_nil query_escape host_to_use
    setup_node setup_nodes manager_config respond_when_done setup_cluster cluster_to_setup
    http_setup_cluster sample_server add_sample_bucket http_add_sample_bucket respond
    get_http_context http_get_docker_host http_get_version requested_timeout timeout_to_refresh
    node_options create_options host_name_of rest_server
url_c2 = refl

abbrev answer : ClusterJson
answer =
    jsonify_cluster storage
      (record cluster_c2 { entry_point = "http://bbbbbbbbbbbb0002.couchbase.com:8091" })

answered_c2 :
    http_setup_cluster net decoder 1 ssh
      (λ gs. gs)
      waiting
      waiting
      storage
      engine
      swap_two
      setup_c2
      daemon
      0
    ≡ some (reply answer, world_after started)
unfolding http_setup_cluster respond_when_done respond
answered_c2 = rw chosen_c2 (rw url_c2 refl)

http_setup_cluster-reply_example :
    (ctx : Context) × (conf : CreateClusterSetupJson) × (cluster : Cluster) × (url : String)
    × (get_http_context setup_c2 ≡ ok ctx)
    × (setup_c2.body ≡ ok conf)
    × (get_cluster storage engine swap_two ctx "c2" daemon ≡ ok cluster)
    × (length cluster.nodes ≡ length conf.services)
    × (setup_cluster net decoder 1 ssh (λ gs. gs) waiting waiting conf cluster.nodes 0
        ≡ some (ok url, world_after started))
    × (answer ≡ jsonify_cluster storage (record cluster { entry_point = url }))
http_setup_cluster-reply_example =
    http_setup_cluster-reply net decoder 1 ssh (λ gs. gs) waiting waiting storage engine swap_two
      setup_c2 daemon 0 (world_after started) answer answered_c2
