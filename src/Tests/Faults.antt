-- ===== src/Tests/Faults.antt =====
-- A cleanup in which Docker stops one container of the expired cluster and fails to stop the other.
use mathlib.Core.List.Permᴰ
use cbdynclusterd.Prelude.{
  Bool, true, false, not, List, [], ◌∷◌, keep, All, ◌≡◌, refl, ◌==◌, Bool-cases, inl, inr, ap,
  if◌then◌else◌,
}
use cbdynclusterd.Prelude.Dict.{lookup, lookup_text}
use cbdynclusterd.Prelude.Result.{failure, ok, err, ok-injective, traverse}
use cbdynclusterd.Meta.{get_cluster_meta, cluster_key, read_meta, deserialize_meta}
use cbdynclusterd.Context.{context_ignore_ownership, context_user, new_context}
use cbdynclusterd.Docker.{Docker, Container}
use cbdynclusterd.Clusters.{
  Cluster, Daemon, label, short_id, node_of, creator_of, creator_or_unknown, add_container,
  group_containers, visible, cluster_of, collect, find_cluster, get_all_clusters, get_cluster,
}
use cbdynclusterd.Kill.{system_ctx, may_kill, nodes_to_kill, is_expired, expired_ids}
use cbdynclusterd.Kill.Effect.{has_short}
use cbdynclusterd.Kill.Cleanup.{in_expired}
use cbdynclusterd.Kill.Pool.{killing, start_kill, Picks, Takes, Pool, Step, Steps, start}
use cbdynclusterd.Kill.Pool.Spared.{IsContained, cleanup_spares}
use cbdynclusterd.Tests.Fixtures.{storage, engine, fleet, daemon, label_of, fleet-TellsLabel}
use cbdynclusterd.Tests.Fleet.{cluster_c1, cluster_c2, now}

-- It does not stop the container with this ID.
abbrev flaky : Docker
flaky = record engine {
  container_stop = λ x cs.
      if x == "cccccccccccc"
      then (err (failure "context deadline exceeded"), cs)
      else (ok tt, keep (λ c. not (has_short x c)) cs);
}

flaky-IsContained : IsContained flaky
flaky-IsContained = record {
  list-any_stop = λ e cs x listed. elim (Bool-cases (x == "cccccccccccc")) [
    | inl refused ↦ inl (rw refused listed)
    | inr stopped ↦
        inr (rw stopped (ap (λ l. ok (keep (λ c. not (has_short x c)) l)) (ok-injective listed)))
  ];
}

abbrev listing : List Cluster
listing = cluster_c2 ∷ cluster_c1 ∷ []

abbrev on : List Container → Daemon storage flaky
on cs = record { db = daemon.db; engine = cs; registered = [] }

abbrev left_over : List Container
left_over = keep (λ c. not (has_short "aaaaaaaaaaaa" c)) fleet

abbrev last : Pool storage flaky system_ctx
last = record {
  daemon = on left_over;
  jobs = killing "c1" [] (err (failure "context deadline exceeded")) ∷ [];
}

looked_up :
    Steps storage flaky system_ctx
      (start storage flaky system_ctx (on fleet) (expired_ids now listing))
      (record {
        daemon = on fleet;
        jobs = killing "c1" ("aaaaaaaaaaaa" ∷ "cccccccccccc" ∷ []) (ok tt) ∷ [];
      })
unfolding start_kill may_kill nodes_to_kill get_cluster get_all_clusters collect group_containers
    label lookup lookup_text add_container cluster_of traverse node_of short_id visible find_cluster
    context_ignore_ownership context_user new_context creator_or_unknown creator_of cluster_key
    deserialize_meta get_cluster_meta read_meta is_expired expired_ids
looked_up =
    Steps.then_step Steps.none_yet (Step.looks_up (λ gs. gs) "c1" (λ gs. Permᴰ.refl gs) Picks.this)

failed :
    Steps storage flaky system_ctx
      (start storage flaky system_ctx (on fleet) (expired_ids now listing))
      last
unfolding short_id
failed =
    Steps.then_step
      (Steps.then_step looked_up
        (Step.stops "c1" "cccccccccccc" (Takes.in_tail Takes.at_head) Picks.this))
      (Step.stops "c1" "aaaaaaaaaaaa" Takes.at_head Picks.this)

cleanup_spares_example :
    (left : Container → Bool) × (flaky.container_list last.daemon.engine ≡ ok (keep left fleet))
    × All (λ c. in_expired now listing c ≡ false → left c ≡ true) fleet
    × (last.daemon.db ≡ daemon.db)
cleanup_spares_example =
    cleanup_spares storage flaky flaky-IsContained label_of (on fleet) fleet now listing last
      fleet-TellsLabel refl failed
