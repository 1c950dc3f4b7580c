-- ===== src/Kill/Race.antt =====
-- cleanupClusters of daemon/daemon.go while a handler runs: it first lists the clusters and then
-- kills what had expired, and the daemon may do other things in between.
use mathlib.Core.List.{Memᴰ}
use cbdynclusterd.Prelude.{
  String, Bool, true, false, not, ◌||◌, ◌&&◌, ◌==◌, List, [], ◌∷◌, keep, All, All-map, ◌≡◌, refl,
  sym, ◌∙◌, subst, ap, arith, none, Option,
}
use cbdynclusterd.Prelude.Int.{◌≤ℤ◌}
use cbdynclusterd.Prelude.Result.{Error, ok}
use cbdynclusterd.Prelude.Exec.{Exec, reads, continue, ◌>>=◌, ◌>>◌}
use cbdynclusterd.Time.{Time, Duration, before, add, truncate_second, IsWritable}
use cbdynclusterd.Meta.{Storage, ClusterMeta, get_cluster_meta}
use cbdynclusterd.Meta.Laws.{IsStorage}
use cbdynclusterd.Context.{Context}
use cbdynclusterd.Docker.{Docker, Container}
use cbdynclusterd.Clusters.{Cluster, Group, Daemon, label, cluster_id_label, get_all_clusters}
use cbdynclusterd.Refresh.{refresh_cluster}
use cbdynclusterd.Refresh.Laws.{refresh_cluster-Refreshed, refresh_extends}
use cbdynclusterd.Kill.{Choices, system_ctx, kill_clusters, expired_ids, cleanup_clusters}
use cbdynclusterd.Kill.Effect.{IsDocker}
use cbdynclusterd.Kill.Removal.{TellsLabel, in_clusters}
use cbdynclusterd.Kill.Cleanup.{
  IsChoices, in_expired, in_clusters-expired_ids, kill_clusters-Removed,
}

module _ (st : Storage) (dk : Docker) where
  -- What another goroutine does: its error goes elsewhere.
  abbrev pub meanwhile : Exec (Daemon st dk) (Unit {0}) → Exec (Daemon st dk) (Unit {0})
  meanwhile other s = (ok tt, (other s).1)

  -- cleanupClusters with what another goroutine does after the listing and before the kills.
  unfoldable pub cleanup_around :
      Exec (Daemon st dk) (Unit {0}) → Choices → Time → Exec (Daemon st dk) (Unit {0})
  cleanup_around other ch now = do
    clusters ← reads (get_all_clusters st dk ch.order system_ctx)
    meanwhile other
    kill_clusters st dk ch system_ctx (expired_ids now clusters)

  -- With nothing in between, it is the cleanup.
  cleanup_around_nothing :
      (ch : Choices) (now : Time) (s : Daemon st dk)
      → cleanup_around (λ t. (ok tt, t)) ch now s ≡ cleanup_clusters st dk ch now s
  unfolding cleanup_around cleanup_clusters
  cleanup_around_nothing ch now s = refl

keep-All : {A : Type 0} (p : A → Bool) (xs : List A) → All (λ x. p x ≡ true) (keep p xs)
keep-All p [] = tt
keep-All p (x ∷ xs) = ground (arith, keep-All p xs)

second_of : (a b c : Bool) → a && b || c ≡ false → a ≡ true → b ≡ false
second_of a b c h e = ground arith

third_of : (a b c : Bool) → a && b || c ≡ false → c ≡ false
third_of a b c h = ground arith

in_expired-Memᴰ :
    (now : Time) (all : List Cluster) (c : Cluster) (k : Container)
    → Memᴰ c all
    → before c.timeout now ≡ true
    → in_expired now all k ≡ false
    → label cluster_id_label k == c.id ≡ false
in_expired-Memᴰ now [] c k m e h = elim m [ ]
in_expired-Memᴰ now (d ∷ ds) c k (Memᴰ.head same) e h =
    subst (λ x. label cluster_id_label k == x.id ≡ false) (sym same)
      (second_of _ _ _ h (subst (λ x. before x.timeout now ≡ true) same e))
in_expired-Memᴰ now (d ∷ ds) c k (Memᴰ.tail m) e h =
    in_expired-Memᴰ now ds c k m e
      (third_of (before d.timeout now) (label cluster_id_label k == d.id) _ h)

not-eq-true : (b : Bool) → not b ≡ true → b ≡ false
not-eq-true b h = ground arith

-- Of an expired cluster no container stays.
none_left :
    (now : Time) (all : List Cluster) (c : Cluster) (containers : List Container)
    → Memᴰ c all
    → before c.timeout now ≡ true
    → All
        (λ k. label cluster_id_label k == c.id ≡ false)
        (keep (λ k. not (in_clusters (expired_ids now all) k)) containers)
none_left now all c containers m e =
    All-map _ _ _
      (λ k kept.
        in_expired-Memᴰ now all c k m e
          (sym (in_clusters-expired_ids now all k) ∙ not-eq-true _ kept))
      (keep-All (λ k. not (in_clusters (expired_ids now all) k)) containers)

module _ (st : Storage) (storage : IsStorage st) (dk : Docker) (laws : IsDocker dk) (ch : Choices)
    (fair : IsChoices ch) (label_of : String → String) (s : Daemon st dk)
    (containers : List Container) (tells : All (TellsLabel label_of) containers)
    (listed : dk.container_list s.engine ≡ ok containers) where
  -- A cluster that had expired in the listing of a cleanup is ended by it though it is refreshed
  -- before the kills: if the refresh and the cleanup succeed, none of its containers is left in
  -- Docker's list, while its stored expiry is at least the time of the refresh plus the time asked
  -- for, rounded down to the second. Supposes IsStorage, IsDocker, IsChoices, that Docker's list can
  -- be read, that no two containers of different clusters share the first 12 characters of their
  -- IDs, that reading the entry gave no error, and that the two expiries have years from 1 to 9999.
  pub refreshed_is_killed :
      (order : List Group → List Group) (ctx : Context) (now later : Time) (d : Duration)
      (all : List Cluster) (c : Cluster) (old : ClusterMeta)
      → get_all_clusters st dk ch.order system_ctx s ≡ ok all
      → Memᴰ c all
      → before c.timeout now ≡ true
      → get_cluster_meta st c.id s.db ≡ (old, none)
      → IsWritable (add later d)
      → IsWritable old.timeout
      → (refresh_cluster st dk order ctx later c.id d s).0 ≡ ok tt
      → (cleanup_around st dk (refresh_cluster st dk order ctx later c.id d) ch now s).0 ≡ ok tt
      → let last =
          (cleanup_around st dk (refresh_cluster st dk order ctx later c.id d) ch now s).1 in
        (left : List Container) × (dk.container_list last.engine ≡ ok left)
        × All (λ k. label cluster_id_label k == c.id ≡ false) left
        × (truncate_second (add later d) ≤ℤ (get_cluster_meta st c.id last.db).0.timeout)
  unfolding cleanup_around
  refreshed_is_killed order ctx now later d all c old got m expired read w v refreshed done =
      let s1 = (refresh_cluster st dk order ctx later c.id d s).1 in
      let v' = subst (λ (r : ClusterMeta × Option Error). IsWritable r.0.timeout) (sym read) v in
      let (_, engine) =
        refresh_cluster-Refreshed st storage dk order ctx later c.id d s w v' refreshed in
      let (_, extended, _) =
        refresh_extends st storage dk order ctx later c.id d s old w v read refreshed in
      let listed1 : dk.container_list s1.engine ≡ ok containers =
        ap dk.container_list engine ∙ listed in
      let killed : (kill_clusters st dk ch system_ctx (expired_ids now all) s1).0 ≡ ok tt =
        rw (got, continue) at done in
      let (left, kept) =
        kill_clusters-Removed st dk laws ch fair label_of s1 containers tells listed1 system_ctx
          (expired_ids now all) killed in
      rw (got, continue)
        (
          _,
          left,
          none_left now all c containers m expired,
          subst (λ db. truncate_second (add later d) ≤ℤ (get_cluster_meta st c.id db).0.timeout)
              (sym kept) extended,
        )
