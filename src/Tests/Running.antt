-- ===== src/Tests/Running.antt =====
-- The daemon from an empty data base on, and the packages of two versions.
use cbdynclusterd.Prelude.{String, true, if◌then◌else◌, ◌==◌, none, some, [], ◌≡◌, refl}
use cbdynclusterd.Prelude.Int.{pos}
use cbdynclusterd.Prelude.Text.{has_suffix, atoi, split, contains, show_nat, itoa}
use cbdynclusterd.Prelude.Result.{Result, ok, message, wrap, traverse}
use cbdynclusterd.Meta.{
  ClusterMeta, read_meta, cluster_key, serialize_meta, deserialize_meta, update,
  create_cluster_meta, update_cluster_meta, get_cluster_meta,
}
use cbdynclusterd.Clusters.{Daemon}
use cbdynclusterd.Version.{
  NodeVersion, version_to_flavor, edition_name, to_tag_name, to_image_name, to_pkg_name, to_url,
  flavor_from_version, parse_server_version, product_version, server_build, alias_server_version,
}
use cbdynclusterd.Images.{
  pkg_url, wrapped, parse_image_event, check_build_exists, image_pull, image_push, image_build,
  ensure_image_exists,
}
use cbdynclusterd.Install.{VersionMatch, build_flavor, package_url, tuple}
use cbdynclusterd.Install.Laws.{centos7, package_url-pkg_url}
use cbdynclusterd.System.{Reachable, starts, steps_to, creates}
use cbdynclusterd.System.Owners.{Reachable-AllOwned}
use cbdynclusterd.Tests.Fixtures.{storage, storage-IsStorage, engine, swapping, choices, fleet}
use cbdynclusterd.Tests.Start.{config, outside, uuid, version}
use cbdynclusterd.Tests.Web.{parse_duration, products, now, create}
use cbdynclusterd.Handlers.{
  http_create_cluster, handle, http_get_clusters, http_get_cluster, http_delete_cluster,
  http_update_cluster, http_build_image, add_bucket, add_collection, http_add_bucket,
  http_add_collection,
}
use cbdynclusterd.Prelude.Dict.{lookup, lookup_text}
use cbdynclusterd.Allocate.{
  new_random_cluster_id, container_name_of, container_config, registrations, name_nodes,
  check_options, allocate_node, allocate_job, start_nodes, allocate_cluster,
}
use cbdynclusterd.Requests.{
  respond, get_http_context, http_get_docker_host, http_get_version, requested_timeout,
  timeout_to_refresh, node_options, create_options, host_name_of, rest_server,
}
use cbdynclusterd.Prelude.Join.{first_error, run_all, join}
use cbdynclusterd.Context.{new_context, context_user, context_ignore_ownership}

abbrev empty : Daemon storage engine
empty = record { db = []; engine = fleet; registered = [] }

nothing_stored :
    (id : String) (m : ClusterMeta)
    → read_meta storage id empty.db ≡ ok m
    → has_suffix m.owner "@couchbase.com" ≡ true
unfolding read_meta lookup lookup_text
nothing_stored id m h = cc

abbrev after_create : Daemon storage engine
after_create =
    (http_create_cluster storage engine config outside choices swapping parse_duration products now
      uuid create empty).1

reached : Reachable storage engine config outside empty after_create
reached = steps_to starts (creates choices swapping parse_duration products now uuid create)

abbrev entry : Result ClusterMeta
entry = read_meta storage "0a1b2c3d" after_create.db

abbrev read_entry : Result ClusterMeta → ClusterMeta
read_entry (ok m) = m
read_entry _ = record { owner = ""; timeout = pos 0 }

is_stored : entry ≡ ok (read_entry entry)
unfolding handle http_get_clusters http_get_cluster http_delete_cluster http_update_cluster
    http_create_cluster http_build_image add_bucket add_collection http_add_bucket
    http_add_collection new_random_cluster_id container_name_of container_config registrations
    name_nodes check_options allocate_node allocate_job start_nodes allocate_cluster respond
    get_http_context http_get_docker_host http_get_version requested_timeout timeout_to_refresh
    node_options create_options host_name_of rest_server edition_name to_tag_name to_image_name
    to_pkg_name to_url version_to_flavor flavor_from_version parse_server_version product_version
    server_build alias_server_version cluster_key serialize_meta deserialize_meta update
    create_cluster_meta read_meta update_cluster_meta get_cluster_meta lookup lookup_text split join
    has_suffix contains atoi show_nat itoa message wrap traverse first_error run_all wrapped
    parse_image_event check_build_exists pkg_url image_pull image_push image_build
    ensure_image_exists new_context context_user context_ignore_ownership
is_stored = refl

Reachable-AllOwned_example : has_suffix (read_entry entry).owner "@couchbase.com" ≡ true
Reachable-AllOwned_example =
    Reachable-AllOwned storage storage-IsStorage engine config outside empty after_create
      nothing_stored reached "0a1b2c3d" (read_entry entry) is_stored

abbrev matches : VersionMatch
matches version = if version == "6.6.0" then some ("6", "6", "0") else none

abbrev mad_hatter : NodeVersion
mad_hatter = record version { version = "6.6.0"; flavor = "mad-hatter"; build = "7909" }

parsed : tuple matches "6.6.0" ≡ ok (pos 6, pos 6, pos 0)
unfolding tuple atoi
parsed = refl

agrees : build_flavor (pos 6) (pos 6) ≡ "mad-hatter"
unfolding build_flavor
agrees = refl

package_url-pkg_url_example :
    package_url matches "6.6.0" "7909" true centos7 ≡ ok (pkg_url mad_hatter)
package_url-pkg_url_example =
    package_url-pkg_url matches mad_hatter (pos 6) (pos 6) (pos 0) parsed agrees
