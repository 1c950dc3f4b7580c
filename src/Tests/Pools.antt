-- ===== src/Tests/Pools.antt =====
-- Both clusters are killed at once: both are looked up before a container is stopped, and the stops
-- of one come between those of the other.
use mathlib.Core.List.Permᴰ
use cbdynclusterd.Prelude.{String, List, [], ◌∷◌, refl}
use cbdynclusterd.Prelude.Dict.{lookup, lookup_text}
use cbdynclusterd.Prelude.Result.{ok, traverse}
use cbdynclusterd.Meta.{get_cluster_meta, cluster_key, read_meta, deserialize_meta}
use cbdynclusterd.Context.{context_ignore_ownership, context_user, new_context}
use cbdynclusterd.Clusters.{
  Daemon, label, short_id, node_of, creator_of, creator_or_unknown, add_container, group_containers,
  visible, cluster_of, collect, find_cluster, get_all_clusters, get_cluster,
}
use cbdynclusterd.Kill.{system_ctx, may_kill, nodes_to_kill}
use cbdynclusterd.Kill.Removal.{Removed, in_clusters}
use cbdynclusterd.Kill.Pool.{killing, start_kill, Picks, Takes, Pool, Step, Steps, start}
use cbdynclusterd.Kill.Pool.Interleaving.{Steps-Removed}
use cbdynclusterd.Tests.Fixtures.{
  storage, engine, engine-IsDocker, fleet, daemon, label_of, fleet-TellsLabel,
}

abbrev both : List String
both = "c1" ∷ "c2" ∷ []

abbrev pool : Daemon storage engine → List String → List String → Pool storage engine system_ctx
pool s xs ys = record { daemon = s; jobs = killing "c1" xs (ok tt) ∷ killing "c2" ys (ok tt) ∷ [] }

looked_up :
    Steps storage engine system_ctx
      (start storage engine system_ctx daemon both)
      (pool daemon ("aaaaaaaaaaaa" ∷ "cccccccccccc" ∷ []) ("bbbbbbbbbbbb" ∷ []))
unfolding start_kill may_kill nodes_to_kill get_cluster get_all_clusters collect group_containers
    label lookup lookup_text add_container cluster_of traverse node_of short_id visible find_cluster
    context_ignore_ownership context_user new_context creator_or_unknown creator_of cluster_key
    deserialize_meta get_cluster_meta read_meta
looked_up =
    Steps.then_step
      (Steps.then_step Steps.none_yet
        (Step.looks_up (λ gs. gs) "c1" (λ gs. Permᴰ.refl gs) Picks.this))
      (Step.looks_up (λ gs. gs) "c2" (λ gs. Permᴰ.refl gs) (Picks.other Picks.this))

-- After a stop.
abbrev without : String → Daemon storage engine → Daemon storage engine
without x s = record s { engine = (engine.container_stop x s.engine).1 }

abbrev last : Pool storage engine system_ctx
last = pool (without "aaaaaaaaaaaa" (without "bbbbbbbbbbbb" (without "cccccccccccc" daemon))) [] []

ended : Steps storage engine system_ctx (start storage engine system_ctx daemon both) last
unfolding short_id
ended =
    Steps.then_step
      (Steps.then_step
        (Steps.then_step looked_up
          (Step.stops "c1" "cccccccccccc" (Takes.in_tail Takes.at_head) Picks.this))
        (Step.stops "c2" "bbbbbbbbbbbb" Takes.at_head (Picks.other Picks.this)))
      (Step.stops "c1" "aaaaaaaaaaaa" Takes.at_head Picks.this)

Steps-Removed_example : Removed storage engine fleet (in_clusters both) daemon.db last.daemon
Steps-Removed_example =
    Steps-Removed storage engine engine-IsDocker system_ctx label_of daemon fleet both last
      fleet-TellsLabel refl ended ((refl, refl), ((refl, refl), tt))
