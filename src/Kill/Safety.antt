-- ===== src/Kill/Safety.antt =====
-- Who can kill a cluster, and what a swallowed panic of the data base does to it.
use cbdynclusterd.Prelude.{
  ℕ, suc, String, true, false, List, Reorders, eq_iff, ◌≡◌, ◌≢◌, sym, ◌∙◌, ap, arith, subst, Option,
}
use cbdynclusterd.Prelude.Int.{pos}
use cbdynclusterd.Prelude.Result.{Error, ok, panic, ok-injective}
use cbdynclusterd.Meta.{Storage, ClusterMeta, cluster_key, get_cluster_meta}
use cbdynclusterd.Meta.Laws.{get_of_panic}
use cbdynclusterd.Context.{Context, context_user, context_ignore_ownership}
use cbdynclusterd.Docker.{Docker, Container}
use cbdynclusterd.Clusters.{Cluster, Daemon, cluster_of, get_cluster}
use cbdynclusterd.Clusters.Lookup.{get_cluster_sound}
use cbdynclusterd.Clusters.Ownership.{visible-own}
use cbdynclusterd.Kill.{Choices, may_kill, kill_cluster, is_expired}
use cbdynclusterd.Kill.Effect.{kill_cluster-eq-ok}

may_kill-own :
    (ctx : Context) (c : Cluster)
    → context_ignore_ownership ctx ≡ false
    → may_kill ctx c ≡ true
    → c.owner ≡ context_user ctx
unfolding may_kill
may_kill-own ctx c own h = ground (arith, eq_iff c.owner (context_user ctx))

module _ (st : Storage) (dk : Docker) (ch : Choices) (ctx : Context) where
  -- A caller who does not ignore ownership kills only a cluster that he both created and owns; if
  -- the cluster found has another owner, the call fails and changes nothing. Supposes that the
  -- order is a permutation, that Docker's list can be read, and that getCluster finds the cluster.
  pub kill_needs_ownership :
      (id : String) (s : Daemon st dk) (containers : List Container) (c : Cluster)
      → Reorders ch.order
      → dk.container_list s.engine ≡ ok containers
      → context_ignore_ownership ctx ≡ false
      → get_cluster st dk ch.order ctx id s ≡ ok c
      → ((kill_cluster st dk ch ctx id s).0 ≡ ok tt
          → (c.creator ≡ context_user ctx) × (c.owner ≡ context_user ctx))
        × (c.owner ≢ context_user ctx
            → ((kill_cluster st dk ch ctx id s).0 ≢ ok tt)
              × ((kill_cluster st dk ch ctx id s).1 ≡ s))
  unfolding kill_cluster may_kill
  kill_needs_ownership id s containers c reorders listed own got = (
    λ h.
        let (built, seen) =
          get_cluster_sound st dk ch.order ctx id s containers c reorders listed got in
        let (d, got', allowed, done, same) = kill_cluster-eq-ok st dk ch ctx id s h in
        let killed : d ≡ c = ok-injective (sym got' ∙ got) in
        (
          visible-own ctx c.creator own seen,
          subst (λ x. x.owner ≡ context_user ctx) killed (may_kill-own ctx d own allowed),
        ),
    λ other. rw (got, kill_cluster) (ground (arith, eq_iff c.owner (context_user ctx))),
  )

timeout-cluster_of :
    (st : Storage) (db : st.Db) (id : String) (cs : List Container) (c : Cluster)
    → cluster_of st db (id, cs) ≡ ok c
    → c.timeout ≡ (get_cluster_meta st id db).0.timeout
unfolding cluster_of
timeout-cluster_of st db id cs c h = ground arith

-- If badger panics while a cluster's entry is read, a cluster built from that reading has expired
-- at every time after the zero time, whatever expiry is stored. Supposes that the cluster can be
-- built from its containers.
pub panic_expires :
    (st : Storage) (id : String) (containers : List Container) (db : st.Db) (c : Cluster) (n : ℕ)
    → st.get db (cluster_key id) ≡ panic
    → cluster_of st db (id, containers) ≡ ok c
    → is_expired (pos (suc n)) c ≡ true
unfolding is_expired
panic_expires st id containers db c n h built =
    let swallowed =
      ap (λ (m : ClusterMeta × Option Error). m.0.timeout) (get_of_panic st id db h) in
    let zero_time : c.timeout ≡ pos 0 =
      timeout-cluster_of st db id containers c built ∙ swallowed in
    rw zero_time (ground arith)
