-- ===== src/Tests/Start.antt =====
-- Starting a cluster of two nodes, and building images.
use cbdynclusterd.Prelude.{String, none, [], ◌∷◌, length, ◌≡◌, ◌≢◌, ◌↔◌, refl, arith, ◌*◌, ◌≤◌}
use cbdynclusterd.Prelude.Int.{pos, ◌≤ℤ◌, ◌+ℤ◌}
use cbdynclusterd.Prelude.Dict.{lookup}
use cbdynclusterd.Prelude.Result.{Result, ok}
use cbdynclusterd.Prelude.Join.{join, run_all, first_error}
use cbdynclusterd.Time.{Time, second, hour, add, IsWritable}
use cbdynclusterd.Meta.{create_cluster_meta, cluster_key, serialize_meta, get_cluster_meta}
use cbdynclusterd.Meta.Laws.{stored}
use cbdynclusterd.Context.{context_user}
use cbdynclusterd.Clusters.{Daemon}
use cbdynclusterd.Version.{NodeVersion, enterprise, to_image_name}
use cbdynclusterd.Images.{
  Config, Outside, check_build_exists, parse_image_event, pkg_url, image_pull, image_build,
  ensure_image_exists, wrapped,
}
use cbdynclusterd.Images.Laws.{ensure_without_build}
use cbdynclusterd.Allocate.{
  NodeOptions, ClusterOptions, new_random_cluster_id, two_weeks, check_options, name_nodes,
  allocate_node, allocate_job, start_nodes, registrations, container_config, container_name_of,
  allocate_cluster,
}
use cbdynclusterd.Allocate.Laws.{check_options_iff, allocate_cluster-eq-ok}
use cbdynclusterd.Tests.Fixtures.{
  storage, storage-IsStorage, engine, swapping, choices, as_alice, fleet, daemon,
}

abbrev pub config : Config
config = record {
  docker_registry = "";
  docker_host = "tcp://10.0.0.1:2376";
  dns_svc_host = "10.0.0.2";
}

-- The package of every build is there.
abbrev pub outside : Outside
outside = record {
  head = λ url. ok 200;
  tar_create = λ path. ok tt;
  tar_add_all = λ path. ok tt;
  tar_close = ok tt;
}

abbrev pub version : NodeVersion
version = record {
  version = "7.0.2";
  flavor = "cheshire-cat";
  build = "6703";
  edition = enterprise;
}

abbrev node_options : String → NodeOptions
node_options name = record {
  name = name;
  platform = "";
  server_version = "7.0.2-6703";
  version_info = version;
}

abbrev options : ClusterOptions
options = record { timeout = pos (2 * hour); nodes = node_options "" ∷ node_options "kv" ∷ [] }

check_options_iff_example : (check_options options ≡ ok tt) ↔ (
    (pos 0 ≤ℤ options.timeout)
    × (options.timeout ≤ℤ two_weeks)
    × (1 ≤ length options.nodes)
    × (length options.nodes ≤ 10))
check_options_iff_example = check_options_iff options

abbrev now : Time
now = pos (60 * second)

abbrev pub uuid : String
uuid = "0a1b2c3d-0000-4000-8000-000000000000"

abbrev allocated : Result String × Daemon storage engine
allocated =
    allocate_cluster storage engine config outside choices swapping as_alice now uuid options daemon

allocated_ok : allocated.0 ≡ ok "0a1b2c3d"
unfolding allocate_cluster check_options create_cluster_meta serialize_meta lookup cluster_key
    new_random_cluster_id name_nodes ensure_image_exists check_build_exists image_build wrapped
    parse_image_event start_nodes join first_error run_all allocate_job allocate_node
    container_config registrations container_name_of
allocated_ok = refl

hour-IsWritable : IsWritable (add now (pos hour))
unfolding ◌+ℤ◌
hour-IsWritable = omega arith

allocate_cluster-eq-ok_example :
    (pos 0 ≤ℤ options.timeout)
    × (options.timeout ≤ℤ two_weeks)
    × (1 ≤ length options.nodes)
    × (length options.nodes ≤ 10)
    × (◌≡◌ {A = String} "0a1b2c3d" (new_random_cluster_id uuid))
    × (get_cluster_meta storage "0a1b2c3d" allocated.1.db
        ≡ (stored (record { owner = context_user as_alice; timeout = add now (pos hour) }), none))
allocate_cluster-eq-ok_example =
    allocate_cluster-eq-ok storage engine config outside storage-IsStorage choices swapping as_alice
      now uuid "0a1b2c3d" options daemon hour-IsWritable allocated_ok

-- No package is there.
abbrev nothing_there : Outside
nothing_there = record outside { head = λ url. ok 404 }

not_there : check_build_exists nothing_there (pkg_url version) ≢ ok tt
unfolding check_build_exists
not_there e = cc

ensure_without_build_example :
    (config.docker_registry ≡ ""
      → ((ensure_image_exists engine config nothing_there version fleet).1 ≡ fleet)
        × ((ensure_image_exists engine config nothing_there version fleet).0 ≢ ok tt))
    × (config.docker_registry ≢ ""
        → ((ensure_image_exists engine config nothing_there version fleet).1
            ≡ (image_pull engine config (to_image_name config.docker_registry version) fleet).1)
          × (((ensure_image_exists engine config nothing_there version fleet).0 ≡ ok tt) ↔ (
              (image_pull engine config (to_image_name config.docker_registry version) fleet).0
              ≡ ok tt)))
ensure_without_build_example =
    ensure_without_build engine config nothing_there version fleet not_there
