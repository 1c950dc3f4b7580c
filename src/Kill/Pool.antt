-- ===== src/Kill/Pool.antt =====
-- The goroutines of killAllClusters (daemon/clusters.go) and cleanupClusters (daemon/daemon.go) step
-- by step. One runs killCluster for each cluster, and starts one for each node, which stops it: a
-- step is the look-up of a cluster or one call of ContainerStop, in any order.
pub mod Jobs
pub mod Interleaving
pub mod Spared
use cbdynclusterd.Prelude.{String, List, [], ◌∷◌, map, Reorders, if◌then◌else◌}
use cbdynclusterd.Prelude.Result.{Result, ok, err, panic, failure}
use cbdynclusterd.Prelude.Join.{keep_first}
use cbdynclusterd.Meta.{Storage}
use cbdynclusterd.Context.{Context}
use cbdynclusterd.Docker.{Docker}
use cbdynclusterd.Clusters.{Cluster, Group, Daemon, get_cluster}
use cbdynclusterd.Kill.{may_kill, nodes_to_kill}

-- killCluster for an ID, before the look-up; and after it, with the nodes that are not stopped yet
-- and what it returns if they are: one of the errors, or nil.
pub data Job : Type 0 where
  pending : String → Job
  killing : String → List String → Result (Unit {0}) → Job

-- What is left of a job when its cluster has been looked up.
unfoldable pub start_kill : Context → String → Result Cluster → Job
start_kill ctx id (ok cluster) =
    if may_kill ctx cluster
    then killing id (nodes_to_kill cluster) (ok tt)
    else killing id [] (err (failure "cannot kill clusters you don't own"))
start_kill ctx id (err e) = killing id [] (err e)
start_kill ctx id panic = killing id [] panic

-- One job of a list goes from `j` to `j'`.
pub data Picks (j j' : Job) : List Job → List Job → Type 0 where
  this : {js : List Job} → Picks j j' (j ∷ js) (j' ∷ js)
  other : {k : Job} {js js' : List Job} → Picks j j' js js' → Picks j j' (k ∷ js) (k ∷ js')

-- One node is taken out of a list.
pub data Takes (x : String) : List String → List String → Type 0 where
  at_head : {xs : List String} → Takes x (x ∷ xs) xs
  in_tail : {y : String} {xs ys : List String} → Takes x xs ys → Takes x (y ∷ xs) (y ∷ ys)

module _ (st : Storage) (dk : Docker) (ctx : Context) where
  pub record Pool : Type 0 where
    pub daemon : Daemon st dk
    pub jobs : List Job

  -- `order` is the order in which Go ranges over clusterMap this time.
  pub data Step (p : Pool) : Pool → Type 0 where
    looks_up :
        (order : List Group → List Group) (id : String) {js : List Job}
        → Reorders order
        → Picks (pending id) (start_kill ctx id (get_cluster st dk order ctx id p.daemon)) p.jobs js
        → Step p (record p { jobs = js })
    stops :
        (id x : String) {xs ys : List String} {r : Result (Unit {0})} {js : List Job}
        → Takes x xs ys
        → Picks
            (killing id xs r)
            (killing id ys (keep_first r (dk.container_stop x p.daemon.engine).0))
            p.jobs
            js
        → Step p (record {
          daemon = record p.daemon { engine = (dk.container_stop x p.daemon.engine).1 };
          jobs = js;
        })

  -- What the loops over clustersToKill start with.
  abbrev pub start : Daemon st dk → List String → Pool
  start s ids = record { daemon = s; jobs = map pending ids }

  pub data Steps (p : Pool) : Pool → Type 0 where
    none_yet : Steps p p
    then_step : {q r : Pool} → Steps p q → Step q r → Steps p r
