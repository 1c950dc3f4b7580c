-- ===== src/Tests/Managing.antt =====
-- The manager of two nodes that answer, and of one that does not start a rebalance.
use cbdynclusterd.Prelude.{
  ℕ, suc, String, true, false, Option, none, some, [], ◌∷◌, if◌then◌else◌, ◌≡◌, refl,
}
use cbdynclusterd.Prelude.Text.{has_suffix, split, join, contains, atoi, show_nat, itoa}
use cbdynclusterd.Prelude.Result.{Error, failure, Result, ok, err}
use cbdynclusterd.Prelude.Exec.{for_each}
use cbdynclusterd.Rest.{Net, http_request, read_response, get_response, unstop, rest_retryer}
use cbdynclusterd.Server.{
  Server, form_call, bare_call, create_bucket_body, roles_or_admin, create_user_body, rest_unit,
  tolerating, add_node, provision, set_memory_quota, setup_memory_quota, rename,
  setup_initial_service, set_storage_mode, init_new_cluster, create_fts_index, create_n1ql_index,
  change_bucket_compression, create_bucket, create_collection, enable_developer_preview,
  create_user, delete_bucket, stop_rebalance, get_info,
}
use cbdynclusterd.Peer.{
  rebalance_node, get_id, resp_nodes, find_otp, take_nodes, find_membership, membership, aux_nodes,
  get_text, otp_post, fail_over_and_eject, fetch_nodes, update_node, remaining_ids, get_buckets,
  rest_call_to_aux, fail_over_and_eject_all,
}
use cbdynclusterd.Manager.{
  ManagerConfig, Site, at, get_ep_node, indices, parse_version, add_existing, group_of,
  get_service_node, get_version, find_existing, clear_single_cluster, get_entry_point,
}
use cbdynclusterd.Manager.Setup.{
  add_other, poll_join_ready_all, manager_rebalance, setup_new_cluster, bucket_conf, at_run,
  rebalance_tries, setup_bucket, manager_change_bucket_compression, bucket_if_named,
  init_entry_point, start_cluster,
}
use cbdynclusterd.Manager.Rebalancing.{manager_rebalance_error}
use cbdynclusterd.Tests.Peers.{net, decoder, server, waiting}
use cbdynclusterd.Peer.Polling.{
  progress_entries, parse_rebalance_progress, rebalance_status, join_status, compression_status,
  sample_count, sample_status, bucket_status, poll_rebalance, poll_compression_mode,
  poll_sample_bucket, poll_join_ready, wait_for_bucket_ready, wait_for_bucket_healthy, load_sample,
}
use cbdynclusterd.Prelude.Await.{in_time, await, await_all}
use cbdynclusterd.Prelude.Join.{run_all}
use cbdynclusterd.Poll.{poll}
use cbdynclusterd.Json.{field, as_text, as_number, as_object, is_nil}
use cbdynclusterd.Escape.{query_escape}

abbrev site : Site net
site = record { world = 0; nodes = server "10.0.0.7" ∷ server "10.0.0.8" ∷ [] }

abbrev found : Result ℕ × Site net
found = get_ep_node net decoder true (0 ∷ 1 ∷ []) site

found_first : found.0 ≡ ok 0
unfolding indices parse_version add_existing group_of at get_ep_node get_service_node get_version
    find_existing clear_single_cluster get_entry_point bucket_conf at_run add_other
    poll_join_ready_all rebalance_tries manager_rebalance setup_bucket
    manager_change_bucket_compression bucket_if_named init_entry_point setup_new_cluster
    start_cluster get_id resp_nodes find_otp take_nodes find_membership membership aux_nodes
    get_text otp_post fail_over_and_eject fetch_nodes update_node remaining_ids rebalance_node
    get_buckets rest_call_to_aux fail_over_and_eject_all progress_entries parse_rebalance_progress
    rebalance_status join_status compression_status sample_count sample_status bucket_status
    poll_rebalance poll_compression_mode poll_sample_bucket poll_join_ready wait_for_bucket_ready
    wait_for_bucket_healthy load_sample http_request read_response get_response unstop rest_retryer
    form_call bare_call create_bucket_body roles_or_admin create_user_body rest_unit tolerating
    add_node provision set_memory_quota setup_memory_quota rename setup_initial_service
    set_storage_mode init_new_cluster create_fts_index create_n1ql_index change_bucket_compression
    create_bucket create_collection enable_developer_preview create_user delete_bucket
    stop_rebalance get_info in_time await await_all run_all split join has_suffix contains atoi
    show_nat itoa for_each poll field as_text as_number as_object is_nil query_escape
found_first = refl

-- It refuses to rebalance.
abbrev busy : Net
busy = record {
  World = ℕ;
  send = λ req n. (
    ok (record {
      status_code = if has_suffix req.url "/controller/rebalance" then 500 else 200;
      body = "";
      read_error = none;
    }),
    suc n,
  );
  show_request = λ req. req.url;
}

abbrev busy_site : Site busy
busy_site = record { world = 0; nodes = server "10.0.0.7" ∷ [] }

abbrev pub config : ManagerConfig
config = record {
  memory_quota = "600";
  user = some (record { name = ""; password = ""; roles = none });
  storage_mode = "plasma";
  bucket = some (record { name = "beer"; bucket_type = "ephemeral"; password = "" });
  use_hostname = false;
  use_dev_preview = false;
}

abbrev set_up : Option (Result String × Site net)
set_up = setup_new_cluster net decoder 1 config waiting (0 ∷ 1 ∷ []) site

abbrev left : {A : Type 0} {net' : Net} → Site net' → Option (Result A × Site net') → Site net'
left s none = s
left s (some (r, s')) = s'

abbrev rebalanced : Option (Result (Unit {0}) × Site busy)
rebalanced = manager_rebalance busy decoder 1 busy_site

abbrev reason : {A S : Type 0} → Option (Result A × S) → Error
reason (some (err e, s)) = e
reason _ = failure ""

not_rebalanced : rebalanced ≡ some (err (reason rebalanced), left busy_site rebalanced)
unfolding indices parse_version add_existing group_of at get_ep_node get_service_node get_version
    find_existing clear_single_cluster get_entry_point bucket_conf at_run add_other
    poll_join_ready_all rebalance_tries manager_rebalance setup_bucket
    manager_change_bucket_compression bucket_if_named init_entry_point setup_new_cluster
    start_cluster get_id resp_nodes find_otp take_nodes find_membership membership aux_nodes
    get_text otp_post fail_over_and_eject fetch_nodes update_node remaining_ids rebalance_node
    get_buckets rest_call_to_aux fail_over_and_eject_all progress_entries parse_rebalance_progress
    rebalance_status join_status compression_status sample_count sample_status bucket_status
    poll_rebalance poll_compression_mode poll_sample_bucket poll_join_ready wait_for_bucket_ready
    wait_for_bucket_healthy load_sample http_request read_response get_response unstop rest_retryer
    form_call bare_call create_bucket_body roles_or_admin create_user_body rest_unit tolerating
    add_node provision set_memory_quota setup_memory_quota rename setup_initial_service
    set_storage_mode init_new_cluster create_fts_index create_n1ql_index change_bucket_compression
    create_bucket create_collection enable_developer_preview create_user delete_bucket
    stop_rebalance get_info in_time await await_all run_all split join has_suffix contains atoi
    show_nat itoa for_each poll field as_text as_number as_object is_nil query_escape
not_rebalanced = refl

manager_rebalance_error_example :
    (before : Site busy) × (at busy 0 (rebalance_node busy decoder [] [] []) before
      ≡ (err (reason rebalanced), left busy_site rebalanced))
manager_rebalance_error_example =
    manager_rebalance_error busy decoder 1 busy_site (left busy_site rebalanced) (reason rebalanced)
      not_rebalanced
