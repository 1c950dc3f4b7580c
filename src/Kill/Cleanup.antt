-- ===== src/Kill/Cleanup.antt =====
-- cleanupClusters and killAllClusters: what is left when they succeed.
use mathlib.Core.Path.{fun_ext}
use cbdynclusterd.Prelude.{
  String, Bool, false, not, ◌||◌, ◌&&◌, ◌==◌, subst, [], ◌∷◌, List, map, keep, All, Permᴰ, Reorders,
  ◌≡◌, refl, sym, ◌∙◌, ap, arith,
}
use cbdynclusterd.Prelude.Result.{ok}
use cbdynclusterd.Prelude.Exec.{continue}
use cbdynclusterd.Prelude.Join.{IsSchedule, join, join_iff}
use cbdynclusterd.Time.{Time, before}
use cbdynclusterd.Meta.{Storage}
use cbdynclusterd.Context.{Context}
use cbdynclusterd.Docker.{Docker, Container}
use cbdynclusterd.Clusters.{Cluster, Daemon, label, cluster_id_label, get_all_clusters}
use cbdynclusterd.Kill.{
  Choices, system_ctx, kill_cluster, kill_clusters, kill_all_clusters, expired_ids, is_expired,
  cleanup_clusters,
}
use cbdynclusterd.Kill.Effect.{IsDocker}
use cbdynclusterd.Kill.Removal.{TellsLabel, in_clusters, Removed, run_all-kill_cluster}

-- What Go leaves open is still an order of all the jobs.
pub record IsChoices (ch : Choices) : Type 0 where
  pub order : Reorders ch.order
  pub clusters : IsSchedule ch.clusters
  pub nodes : (id : String) → IsSchedule (ch.nodes id)

in_clusters-perm :
    (c : Container) {xs ys : List String} → Permᴰ xs ys → in_clusters xs c ≡ in_clusters ys c
in_clusters-perm c Permᴰ.nil = refl
in_clusters-perm c (Permᴰ.cons e p) = rw (e, in_clusters-perm c p)
in_clusters-perm c (Permᴰ.swap e f) = rw (sym e, sym f) (ground arith)
in_clusters-perm c (Permᴰ.trans p q) = in_clusters-perm c p ∙ in_clusters-perm c q

-- The container belongs to a cluster of the list that has expired.
abbrev pub in_expired : Time → List Cluster → Container → Bool
in_expired now [] c = false
in_expired now (d ∷ ds) c =
    (before d.timeout now && (label cluster_id_label c == d.id)) || in_expired now ds c

pub in_clusters-expired_ids :
    (now : Time) (all : List Cluster) (c : Container)
    → in_clusters (expired_ids now all) c ≡ in_expired now all c
unfolding expired_ids is_expired
in_clusters-expired_ids now [] c = refl
in_clusters-expired_ids now (d ∷ ds) c = ground (arith, in_clusters-expired_ids now ds c)

module _ (st : Storage) (dk : Docker) (laws : IsDocker dk) (ch : Choices) (fair : IsChoices ch)
    (label_of : String → String) (s : Daemon st dk) (containers : List Container)
    (tells : All (TellsLabel label_of) containers)
    (listed : dk.container_list s.engine ≡ ok containers) where
  pub kill_clusters-Removed :
      (ctx : Context) (ids : List String)
      → (kill_clusters st dk ch ctx ids s).0 ≡ ok tt
      → Removed st dk containers (in_clusters ids) s.db (kill_clusters st dk ch ctx ids s).1
  unfolding kill_clusters join
  kill_clusters-Removed ctx ids h =
      let each = (join_iff ch.clusters fair.clusters (kill_cluster st dk ch ctx) ids s).0 h in
      let (left, kept) =
        run_all-kill_cluster st dk laws ch ctx (ch.clusters.run ids) s containers label_of
          fair.order fair.nodes tells listed each in
      (left ∙ ap (λ p. ok (keep p containers)) any_order, kept)
    where
      any_order :
          ◌≡◌ {A = Container → Bool}
            (λ c. not (in_clusters (ch.clusters.run ids) c))
            (λ c. not (in_clusters ids c))
      any_order = fun_ext λ c. ap not (sym (in_clusters-perm c (fair.clusters.run ids)))

  -- A cleanup that succeeds leaves in Docker's list exactly the containers that belong to no
  -- cluster of the listing whose expiry lies before `now`, and does not touch the data base.
  -- Supposes IsDocker, that the orders are permutations, that Docker's list can be read, that the
  -- listing is given, and that no two containers of different clusters share the first 12
  -- characters of their IDs.
  pub cleanup_clusters-Removed :
      (now : Time) (all : List Cluster)
      → get_all_clusters st dk ch.order system_ctx s ≡ ok all
      → (cleanup_clusters st dk ch now s).0 ≡ ok tt
      → Removed st dk containers (in_expired now all) s.db (cleanup_clusters st dk ch now s).1
  unfolding cleanup_clusters
  cleanup_clusters-Removed now all got h =
      subst (λ p. Removed st dk containers p s.db (cleanup_clusters st dk ch now s).1)
        (fun_ext (in_clusters-expired_ids now all))
        (rw (got, continue)
          (kill_clusters-Removed system_ctx (expired_ids now all) (rw (got, continue) at h)))

  -- If killing all clusters succeeds, Docker's list has left exactly the containers that belong to
  -- no cluster of the caller's listing, and the data base is as it was. Supposes IsDocker, that
  -- the orders are permutations, that Docker's list can be read, that the listing is given, and
  -- that no two containers of different clusters share the first 12 characters of their IDs.
  kill_all_clusters-Removed :
      (ctx : Context) (all : List Cluster)
      → get_all_clusters st dk ch.order ctx s ≡ ok all
      → (kill_all_clusters st dk ch ctx s).0 ≡ ok tt
      → Removed st dk containers
          (in_clusters (map (λ (c : Cluster). c.id) all))
          s.db
          (kill_all_clusters st dk ch ctx s).1
  unfolding kill_all_clusters
  kill_all_clusters-Removed ctx all got h =
      rw (got, continue)
        (kill_clusters-Removed ctx (map (λ (c : Cluster). c.id) all) (rw (got, continue) at h))
