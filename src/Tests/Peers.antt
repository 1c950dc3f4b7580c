-- ===== src/Tests/Peers.antt =====
-- Couchbase nodes that answer every call as it is meant, and one that does not start a rebalance.
use Prim.Native.String.{◌++◌}
use cbdynclusterd.Prelude.{
  some-injective, ℕ, suc, String, ◌&&◌, none, some, List, [], ◌∷◌, if◌then◌else◌, ◌==◌, map, Permᴰ,
  ◌≡◌, ◌↔◌, refl, ap, subst, sym, ◌∙◌,
}
use cbdynclusterd.Prelude.Int.{pos}
use cbdynclusterd.Prelude.Text.{itoa, has_suffix, contains, show_nat}
use cbdynclusterd.Prelude.Result.{Result, ok}
use cbdynclusterd.Prelude.Join.{run_all}
use cbdynclusterd.Prelude.Await.{Waiting, IsWaiting, in_time, await, await_all}
use cbdynclusterd.Poll.{poll}
use cbdynclusterd.Json.{number, str, member, end}
use cbdynclusterd.Rest.{
  HttpRequest, Net, Cred, http_request, read_response, get_response, unstop, rest_retryer,
}
use cbdynclusterd.Server.{Server, RespNode, form_call, bare_call, rest_unit}
use cbdynclusterd.Peer.{
  Decoder, Place, rest_call_to_aux, aux_nodes, get_id, fail_over_and_eject, resp_nodes, find_otp,
  take_nodes, find_membership, membership, get_text, otp_post, fetch_nodes, update_node,
  remaining_ids, rebalance_node, get_buckets, fail_over_and_eject_all,
}
use cbdynclusterd.Peer.Polling.{
  wait_for_bucket_ready, progress_entries, parse_rebalance_progress, rebalance_status, join_status,
  compression_status, sample_count, sample_status, bucket_status, poll_rebalance,
  poll_compression_mode, poll_sample_bucket, poll_join_ready, wait_for_bucket_healthy, load_sample,
}
use cbdynclusterd.Peer.Ready.{ComesReady, wait_for_bucket_ready_iff}
use cbdynclusterd.Peer.Laws.{CalledOthers, rest_call_to_aux-eq-ok}
use cbdynclusterd.Tests.Fixtures.{swap_two, swap_two-Reorders}

-- The status that a call of this method and path expects.
abbrev status_for : HttpRequest → ℕ
status_for req = if (req.method == "POST") && has_suffix req.url "/buckets" then 202 else 200

-- The number of calls is the state of the world.
abbrev pub net : Net
net = record {
  World = ℕ;
  send =
      λ req n. (ok (record { status_code = status_for req; body = ""; read_error = none }), suc n);
  show_request = λ req. req.url;
}

abbrev member_of : String → RespNode
member_of host = record {
  cluster_membership = "active";
  host_name = host ++ ":8091";
  status = "healthy";
  ns_otp_node = "ns_1@" ++ host;
}

abbrev pub members : List RespNode
members = member_of "10.0.0.7" ∷ member_of "10.0.0.8" ∷ []

-- Every answer says the same.
abbrev pub decoder : Decoder
decoder = record {
  pools_nodes = λ old text. (members, none);
  ref_info = λ old text. (record { cluster_version = "7.0.2"; pools = [] }, none);
  buckets = λ text. ([], none);
  values = λ old text.
      (member "clusterCompatibility" (number (pos 1) 0) (member "status" (str "none") end), none);
}

abbrev login : String → ℕ → Cred
login host port = record {
  username = "Administrator";
  password = "password";
  hostname = host;
  port = pos port;
}

abbrev pub server : String → Server
server host = record {
  ssh_login = login host 22;
  rest_login = login host 8091;
  n1ql_login = login host 8093;
  fts_login = login host 8094;
  host_name = host;
  port = "8091";
  version = "";
  services = "kv";
  otp_node = "";
  pools_nodes = none;
}

abbrev pub waiting : {X : Type 0} → Waiting X
waiting = record { run = swap_two; receive = map some }

in_time_all : {A : Type 0} (rs : List A) → in_time (map some rs) ≡ some rs
unfolding in_time
in_time_all [] = refl
in_time_all (r ∷ rs) = rw (in_time_all rs)

same_order : {A : Type 0} (rs : List A) → Permᴰ rs rs
same_order [] = Permᴰ.nil
same_order (r ∷ rs) = Permᴰ.cons refl (same_order rs)

in_time-map : (rs xs : List (Result (Unit {0}))) → in_time (map some rs) ≡ some xs → Permᴰ rs xs
unfolding in_time
in_time-map rs xs h = subst (Permᴰ rs) (some-injective (sym (in_time_all rs) ∙ h)) (same_order rs)

pub waiting-IsWaiting : {X : Type 0} → IsWaiting (waiting {X = X})
waiting-IsWaiting = record { run = swap_two-Reorders; receive = in_time-map }

abbrev place : Place net
place = record { world = 0; node = server "10.0.0.7" }

abbrev updated : Place net
updated = record {
  world = 1;
  node = record (server "10.0.0.7") { pools_nodes = some members; otp_node = "ns_1@10.0.0.7" };
}

wait_for_bucket_ready_iff_example :
    ((rounds : ℕ) × (wait_for_bucket_ready net decoder rounds place ≡ some (ok tt, updated)))
    ↔ ComesReady net decoder updated place
wait_for_bucket_ready_iff_example = wait_for_bucket_ready_iff net decoder place updated

-- One round is enough here.
at_once : wait_for_bucket_ready net decoder 1 place ≡ some (ok tt, updated)
unfolding get_id resp_nodes find_otp take_nodes find_membership membership aux_nodes get_text
    otp_post fail_over_and_eject fetch_nodes update_node remaining_ids rebalance_node get_buckets
    rest_call_to_aux fail_over_and_eject_all progress_entries parse_rebalance_progress
    rebalance_status join_status compression_status sample_count sample_status bucket_status
    poll_rebalance poll_compression_mode poll_sample_bucket poll_join_ready wait_for_bucket_ready
    wait_for_bucket_healthy load_sample poll http_request read_response get_response unstop
    rest_retryer bare_call rest_unit has_suffix show_nat
at_once = refl

abbrev ejected : Result (Unit {0}) × Place net
ejected =
    rest_call_to_aux net decoder waiting (fail_over_and_eject net (login "10.0.0.7" 8091)) place

ejected_all : ejected.0 ≡ ok tt
unfolding itoa get_id resp_nodes find_otp take_nodes find_membership membership aux_nodes get_text
    otp_post fail_over_and_eject fetch_nodes update_node remaining_ids rebalance_node get_buckets
    rest_call_to_aux fail_over_and_eject_all http_request read_response get_response unstop
    rest_retryer form_call bare_call rest_unit in_time await await_all run_all has_suffix contains
    show_nat
ejected_all = refl

rest_call_to_aux-eq-ok_example :
    CalledOthers net decoder waiting waiting-IsWaiting
      (fail_over_and_eject net (login "10.0.0.7" 8091))
      ejected.1
rest_call_to_aux-eq-ok_example =
    rest_call_to_aux-eq-ok net decoder waiting waiting-IsWaiting
      (fail_over_and_eject net (login "10.0.0.7" 8091)) place ejected.1
      (ap (λ r. (r, ejected.1)) ejected_all)
