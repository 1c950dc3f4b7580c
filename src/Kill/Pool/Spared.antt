-- ===== src/Kill/Pool/Spared.antt =====
-- What the goroutines that kill some clusters never touch, whatever fails.
use cbdynclusterd.Prelude.{
  String, Bool, true, false, not, ◌&&◌, ◌⊎◌, inl, inr, List, map, keep, keep-keep, keep_all,
  Reorders, All_of, All, All-map, All-map2, All-keep, ◌≡◌, refl, sym, ◌∙◌, ap, arith, Bool-cases,
}
use cbdynclusterd.Prelude.Result.{Result, ok, err, panic}
use cbdynclusterd.Time.{Time}
use cbdynclusterd.Meta.{Storage}
use cbdynclusterd.Context.{Context}
use cbdynclusterd.Docker.{Docker, Container}
use cbdynclusterd.Clusters.{Cluster, Group, Daemon, get_cluster}
use cbdynclusterd.Clusters.Grouping.{containers_of}
use cbdynclusterd.Clusters.Lookup.{get_cluster_sound}
use cbdynclusterd.Kill.{may_kill, nodes_to_kill, expired_ids, system_ctx}
use cbdynclusterd.Kill.Effect.{has_short}
use cbdynclusterd.Kill.Cleanup.{in_expired, in_clusters-expired_ids}
use cbdynclusterd.Kill.Removal.{TellsLabel, in_clusters, named_members, nodes-cluster_of}
use cbdynclusterd.Kill.Pool.{Job, pending, killing, start_kill, Pool, Step, Steps, start}
use cbdynclusterd.Kill.Pool.Jobs.{
  job_id, Picks-All, picked, Picks-ids, job_id-start_kill, All-Takes, All-pending, pending-ids,
}
use cbdynclusterd.Kill.Pool.Interleaving.{stopped_in}

-- A stop, whatever it returns, leaves Docker's list as it was or without the containers that the
-- name stands for.
pub record IsContained (dk : Docker) : Type 0 where
  pub list-any_stop :
      (e : dk.Engine) (cs : List Container) (x : String)
      → dk.container_list e ≡ ok cs
      → (dk.container_list (dk.container_stop x e).1 ≡ ok cs)
        ⊎ (dk.container_list (dk.container_stop x e).1 ≡ ok (keep (λ c. not (has_short x c)) cs))

module _ (st : Storage) (dk : Docker) (ctx : Context) (label_of : String → String)
    (containers : List Container) (ids : List String) (db : st.Db) where
  -- What a job is to stop belongs to its cluster.
  abbrev IsOwn : Job → Type 0
  IsOwn (pending id) = Unit {0}
  IsOwn (killing id xs r) = All (λ x. label_of x ≡ id) xs

  -- What is left passes the test; what is gone belonged to the clusters.
  record Spares (test : Container → Bool) (p : Pool st dk ctx) : Type 0 where
    listed : dk.container_list p.daemon.engine ≡ ok (keep test containers)
    kept : p.daemon.db ≡ db
    gone : All (λ c. test c ≡ false → in_clusters ids c ≡ true) containers
    own : All IsOwn p.jobs
    same : map job_id p.jobs ≡ ids

  start-Spares :
      (s : Daemon st dk)
      → dk.container_list s.engine ≡ ok containers
      → s.db ≡ db
      → Spares (λ _. true) (start st dk ctx s ids)
  start-Spares s listed kept = record {
    listed = rw keep_all listed;
    kept = kept;
    gone = All_of (λ c e. cc) containers;
    own = All-pending IsOwn (λ id. tt) ids;
    same = pending-ids ids;
  }

  module _ (contained : IsContained dk) (tells : All (TellsLabel label_of) containers) where
    found-IsOwn :
        (test : Container → Bool) (p : Pool st dk ctx) (order : List Group → List Group)
        (id : String) (answer : Result Cluster)
        → Reorders order
        → Spares test p
        → get_cluster st dk order ctx id p.daemon ≡ answer
        → IsOwn (start_kill ctx id answer)
    unfolding start_kill nodes_to_kill
    found-IsOwn test p order id (ok c) fair h found = elim (Bool-cases (may_kill ctx c)) [
      | inl may ↦
          let left = keep test containers in
          let (built, _) =
            get_cluster_sound st dk order ctx id p.daemon left c fair h.listed found in
          rw may (
            named_members label_of id left c.nodes (All-keep _ test containers tells)
              (nodes-cluster_of st p.daemon.db id (containers_of id left) c built))
      | inr not_his ↦ rw not_his tt
    ]
    found-IsOwn test p order id (err e) fair h found = tt
    found-IsOwn test p order id panic fair h found = tt

    Step-Spares :
        (test : Container → Bool) (p q : Pool st dk ctx)
        → Spares test p
        → Step st dk ctx p q
        → (left : Container → Bool) × Spares left q
    Step-Spares test p q h (Step.looks_up order id fair pick) =
        let answer = get_cluster st dk order ctx id p.daemon in
        (
          test,
          record {
            listed = h.listed;
            kept = h.kept;
            gone = h.gone;
            own = Picks-All IsOwn (λ _. found-IsOwn test p order id answer fair h refl) pick h.own;
            same = sym (Picks-ids (job_id-start_kill ctx id answer) pick) ∙ h.same;
          },
        )
    Step-Spares test p q h (Step.stops id x t pick) =
        let of_id = (All-Takes (λ y. label_of y ≡ id) t (picked IsOwn pick h.own)).0 in
        let own = Picks-All IsOwn (λ o. (All-Takes (λ y. label_of y ≡ id) t o).1) pick h.own in
        elim (contained.list-any_stop p.daemon.engine (keep test containers) x h.listed) [
          | inl stays ↦ (
            test,
            record {
              listed = stays;
              kept = h.kept;
              gone = h.gone;
              own = own;
              same = sym (Picks-ids refl pick) ∙ h.same;
            },
          )
          | inr stopped ↦ (
            (λ c. test c && not (has_short x c)),
            record {
              listed = stopped ∙ ap ok (keep-keep (λ c. not (has_short x c)) test containers);
              kept = h.kept;
              gone =
                  All-map2 _ _ _ containers
                    (λ c gone tell.
                      stopped_in st dk ctx label_of containers ids db test p id x of_id pick h.same
                        c gone tell)
                    h.gone tells;
              own = own;
              same = sym (Picks-ids refl pick) ∙ h.same;
            },
          )
        ]

    Steps-Spares :
        (p q : Pool st dk ctx) (test : Container → Bool)
        → Spares test p
        → Steps st dk ctx p q
        → (left : Container → Bool) × Spares left q
    Steps-Spares p q test h Steps.none_yet = (test, h)
    Steps-Spares p q test h (Steps.then_step {q = m} before step) =
        let (left, r) = Steps-Spares p m test h before in Step-Spares left m q r step

-- At every moment of the kills of a cleanup, in whatever order its goroutines look up and stop, and
-- whatever calls fail: Docker's list has lost only containers that belong to a cluster of the
-- listing whose expiry lies before `now`, and the data base is as it was. Supposes IsContained, that
-- Docker's list can be read at the start, and that no two containers of different clusters share the
-- first 12 characters of their IDs.
pub cleanup_spares :
    (st : Storage) (dk : Docker) (contained : IsContained dk) (label_of : String → String)
    (s : Daemon st dk) (containers : List Container) (now : Time) (all : List Cluster)
    (p : Pool st dk system_ctx)
    → All (TellsLabel label_of) containers
    → dk.container_list s.engine ≡ ok containers
    → Steps st dk system_ctx (start st dk system_ctx s (expired_ids now all)) p
    → (left : Container → Bool) × (dk.container_list p.daemon.engine ≡ ok (keep left containers))
      × All (λ c. in_expired now all c ≡ false → left c ≡ true) containers
      × (p.daemon.db ≡ s.db)
cleanup_spares st dk contained label_of s containers now all p tells listed run =
    let ids = expired_ids now all in
    let initial = start-Spares st dk system_ctx label_of containers ids s.db s listed refl in
    let (left, r) =
      Steps-Spares st dk system_ctx label_of containers ids s.db contained tells _ p _ initial
        run in
    (left, r.listed, All-map _ _ containers (λ c gone. stays left c gone) r.gone, r.kept)
  where
    stays :
        (left : Container → Bool) (c : Container)
        → (left c ≡ false → in_clusters (expired_ids now all) c ≡ true)
        → in_expired now all c ≡ false
        → left c ≡ true
    stays left c gone fresh = ground (arith, gone, in_clusters-expired_ids now all c)
