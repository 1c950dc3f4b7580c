-- ===== src/Kill/Pool/Interleaving.antt =====
-- What is left in Docker's list however the steps of the goroutines interleave.
use cbdynclusterd.Prelude.{
  String, Bool, true, false, not, ◌&&◌, List, map, keep, keep-keep, keep_all, Reorders, keep-congr,
  keep-All, All_of, All, All-map, All-map2, All-keep, ◌≡◌, refl, sym, ◌∙◌, subst, ap, arith, eq_iff,
  Bool-cases, inl, inr,
}
use cbdynclusterd.Prelude.Result.{Result, ok}
use cbdynclusterd.Prelude.Join.{keep_first}
use cbdynclusterd.Meta.{Storage}
use cbdynclusterd.Context.{Context}
use cbdynclusterd.Docker.{Docker, Container}
use cbdynclusterd.Clusters.{Group, Daemon, label, cluster_id_label, get_cluster}
use cbdynclusterd.Clusters.Grouping.{containers_of}
use cbdynclusterd.Clusters.Lookup.{get_cluster_sound}
use cbdynclusterd.Kill.{nodes_to_kill}
use cbdynclusterd.Kill.Effect.{has_short, has_short-eq, IsDocker}
use cbdynclusterd.Kill.Removal.{
  TellsLabel, Removed, in_clusters, node_ids, members_named, named_members, nodes-cluster_of,
}
use cbdynclusterd.Kill.Pool.{
  Job, pending, killing, start_kill, Picks, Takes, Pool, Step, Steps, start,
}
use cbdynclusterd.Kill.Pool.Jobs.{
  IsFine, IsDone, job_id, Picks-All, picked, result, Picks-back, Picks-ids, picked_in, both_ok,
  start_kill-IsFine, job_id-start_kill, All-Takes, All-pending, pending-ids, Names, Names-fewer,
  Names-stop, none_left,
}

-- An error stays an error.
Step-IsFine :
    (st : Storage) (dk : Docker) (ctx : Context) (p q : Pool st dk ctx)
    → Step st dk ctx p q
    → All IsFine q.jobs
    → All IsFine p.jobs
Step-IsFine st dk ctx p q (Step.looks_up order id fair pick) h = Picks-back IsFine tt pick h
Step-IsFine st dk ctx p q (Step.stops id x {r} t pick) h =
    Picks-back IsFine (both_ok r _ (result IsFine pick h)).0 pick h

module _ (st : Storage) (dk : Docker) (ctx : Context) (label_of : String → String)
    (containers : List Container) (ids : List String) (db : st.Db) where
  -- What is left passes the test; what is gone belonged to the clusters.
  record Remains (test : Container → Bool) (p : Pool st dk ctx) : Type 0 where
    listed : dk.container_list p.daemon.engine ≡ ok (keep test containers)
    kept : p.daemon.db ≡ db
    gone : All (λ c. test c ≡ false → in_clusters ids c ≡ true) containers
    named : All (Names label_of containers test) p.jobs
    same : map job_id p.jobs ≡ ids

  start-Remains :
      (s : Daemon st dk)
      → dk.container_list s.engine ≡ ok containers
      → s.db ≡ db
      → Remains (λ _. true) (start st dk ctx s ids)
  start-Remains s listed kept = record {
    listed = rw keep_all listed;
    kept = kept;
    gone = All_of (λ c e. cc) containers;
    named = All-pending (Names label_of containers (λ _. true)) (λ id. tt) ids;
    same = pending-ids ids;
  }

  -- Of the container that is stopped it is known which cluster it belonged to.
  pub stopped_in :
      (test : Container → Bool) (p : Pool st dk ctx) (id x : String) {xs : List String} {j' : Job}
      {r : Result (Unit {0})} {js : List Job}
      → label_of x ≡ id
      → Picks (killing id xs r) j' p.jobs js
      → map job_id p.jobs ≡ ids
      → (c : Container) → (test c ≡ false → in_clusters ids c ≡ true)
      → TellsLabel label_of c
      → test c && not (has_short x c) ≡ false
      → in_clusters ids c ≡ true
  stopped_in test p id x of_id pick same c gone tell e = elim (Bool-cases (has_short x c)) [
    | inl hit ↦
        let own : label cluster_id_label c ≡ id = sym (tell x (has_short-eq x c hit)) ∙ of_id in
        subst (λ is. in_clusters is c ≡ true) same
          (picked_in c pick ((eq_iff (label cluster_id_label c) id).1 own))
    | inr miss ↦ gone (left_of (test c) (has_short x c) e miss)
  ]
    where
      left_of : (a b : Bool) → a && not b ≡ false → b ≡ false → a ≡ false
      left_of a b e m = ground arith

  module _ (laws : IsDocker dk) (tells : All (TellsLabel label_of) containers) where
    look_up-Remains :
        (test : Container → Bool) (p : Pool st dk ctx) (order : List Group → List Group)
        (id : String) {js : List Job}
        → Reorders order
        → Picks (pending id) (start_kill ctx id (get_cluster st dk order ctx id p.daemon)) p.jobs js
        → All IsFine js
        → Remains test p
        → Remains test (record p { jobs = js })
    unfolding nodes_to_kill
    look_up-Remains test p order id fair pick fine r =
        let answer = get_cluster st dk order ctx id p.daemon in
        let (c, found, shape) = start_kill-IsFine ctx id answer (result IsFine pick fine) in
        let left = keep test containers in
        let (built, _) = get_cluster_sound st dk order ctx id p.daemon left c fair r.listed found in
        let nodes = nodes-cluster_of st p.daemon.db id (containers_of id left) c built in
        let names : Names label_of containers test (killing id (node_ids c.nodes) (ok tt)) = (
          keep-All _ test containers (members_named label_of id left c.nodes nodes),
          named_members label_of id left c.nodes (All-keep _ test containers tells) nodes,
        ) in
        record {
          listed = r.listed;
          kept = r.kept;
          gone = r.gone;
          named =
              Picks-All (Names label_of containers test)
                (λ _. subst (Names label_of containers test) (sym shape) names) pick r.named;
          same = sym (Picks-ids (job_id-start_kill ctx id answer) pick) ∙ r.same;
        }

    stop-Remains :
        (test : Container → Bool) (p : Pool st dk ctx) (id x : String) {xs ys : List String}
        {r : Result (Unit {0})} {js : List Job}
        → Takes x xs ys
        → Picks
            (killing id xs r)
            (killing id ys (keep_first r (dk.container_stop x p.daemon.engine).0))
            p.jobs
            js
        → All IsFine js
        → Remains test p
        → Remains
            (λ c. test c && not (has_short x c))
            (record {
              daemon = record p.daemon { engine = (dk.container_stop x p.daemon.engine).1 };
              jobs = js;
            })
    stop-Remains test p id x {xs} {ys} {r} t pick fine h =
        let stop = dk.container_stop x p.daemon.engine in
        let done = (both_ok r stop.0 (result IsFine pick fine)).1 in
        let fewer = λ (c : Container). test c && not (has_short x c) in
        let names = picked (Names label_of containers test) pick h.named in
        let of_id = (All-Takes (λ y. label_of y ≡ id) t names.1).0 in
        record {
          listed =
              laws.list-stop p.daemon.engine stop.1 (keep test containers) x h.listed
                (λ i. (done i, stop.1))
              ∙ ap ok (keep-keep (λ c. not (has_short x c)) test containers);
          kept = h.kept;
          gone =
              All-map2 _ _ _ containers
                (λ c gone tell. stopped_in test p id x of_id pick h.same c gone tell) h.gone tells;
          named =
              Picks-All (Names label_of containers fewer)
                (λ _.
                  Names-stop label_of containers test id x xs ys r (keep_first r stop.0) t names)
                pick
                (All-map _ _ p.jobs
                  (λ j. Names-fewer label_of containers test fewer j (λ c e. first_of (test c) _ e))
                  h.named);
          same = sym (Picks-ids refl pick) ∙ h.same;
        }
      where
        first_of : (a b : Bool) → a && b ≡ true → a ≡ true
        first_of a b e = ground arith

    Steps-Remains :
        (p q : Pool st dk ctx) (test : Container → Bool)
        → Remains test p
        → Steps st dk ctx p q
        → All IsFine q.jobs
        → (left : Container → Bool) × Remains left q
    Steps-Remains p q test h Steps.none_yet fine = (test, h)
    Steps-Remains p q test h (Steps.then_step {q = m} before step) fine =
        let (left, r) = Steps-Remains p m test h before (Step-IsFine st dk ctx m q step fine) in
        one_step m q left r step fine
      where
        one_step :
            (m q : Pool st dk ctx) (left : Container → Bool)
            → Remains left m
            → Step st dk ctx m q
            → All IsFine q.jobs
            → (fewer : Container → Bool) × Remains fewer q
        one_step m q left r (Step.looks_up order id fair pick) fine =
            (left, look_up-Remains left m order id fair pick fine r)
        one_step m q left r (Step.stops id x t pick) fine =
            (_, stop-Remains left m id x t pick fine r)

IsDone-IsFine : (j : Job) → IsDone j → IsFine j
IsDone-IsFine (pending id) h = tt
IsDone-IsFine (killing id xs r) h = h.1

-- Where the goroutines that kill some clusters have all ended, and none had an error, Docker's list
-- has lost exactly the containers of these clusters, in whatever order their look-ups and stops were
-- made, and the data base is as it was. Supposes IsDocker, that Docker's list can be read at the
-- start, and that no two containers of different clusters share the first 12 characters of their
-- IDs.
pub Steps-Removed :
    (st : Storage) (dk : Docker) (laws : IsDocker dk) (ctx : Context) (label_of : String → String)
    (s : Daemon st dk) (containers : List Container) (ids : List String) (last : Pool st dk ctx)
    → All (TellsLabel label_of) containers
    → dk.container_list s.engine ≡ ok containers
    → Steps st dk ctx (start st dk ctx s ids) last
    → All IsDone last.jobs
    → Removed st dk containers (in_clusters ids) s.db last.daemon
Steps-Removed st dk laws ctx label_of s containers ids last tells listed run done =
    let initial = start-Remains st dk ctx label_of containers ids s.db s listed refl in
    let fine = All-map IsDone IsFine last.jobs IsDone-IsFine done in
    let (left, r) =
      Steps-Remains st dk ctx label_of containers ids s.db laws tells _ last _ initial run fine in
    let none =
      subst (λ is. All (λ c. left c ≡ true → in_clusters is c ≡ false) containers) r.same
        (none_left label_of containers left last.jobs done r.named) in
    (
      r.listed
          ∙ ap ok (
              keep-congr left (λ c. not (in_clusters ids c)) containers
                (All-map2 _ _ _ containers
                  (λ c out stays. exact (left c) (in_clusters ids c) out stays) r.gone none)),
      r.kept,
    )
  where
    exact : (a b : Bool) → (a ≡ false → b ≡ true) → (a ≡ true → b ≡ false) → a ≡ not b
    exact true b out stays = rw (stays refl) refl
    exact false b out stays = rw (out refl) refl
