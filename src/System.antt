-- ===== src/System.antt =====
-- The daemon as a whole: the steps that it takes while it serves, in any order. The handlers of
-- daemon/restserver.go answer requests, and cleanupClusters of daemon/daemon.go runs now and then.
-- Each step is one handler run from start to end: handlers do not interleave. Handlers that only
-- read, or that only call the servers of a cluster, leave the daemon as it is.
pub mod Owners
use cbdynclusterd.Prelude.{String, List}
use cbdynclusterd.Prelude.Result.{Result}
use cbdynclusterd.Prelude.Join.{Schedule}
use cbdynclusterd.Time.{Time, Duration}
use cbdynclusterd.Version.{Products}
use cbdynclusterd.Meta.{Storage}
use cbdynclusterd.Docker.{Docker}
use cbdynclusterd.Images.{Config, Outside}
use cbdynclusterd.Clusters.{Group, Daemon}
use cbdynclusterd.Kill.{Choices}
use cbdynclusterd.Allocate.{NodeOptions}
use cbdynclusterd.WireJson.{CreateClusterJson, BuildImageJson}
use cbdynclusterd.Requests.{Request}
use cbdynclusterd.Handlers.{
  http_create_cluster, http_update_cluster, http_delete_cluster, http_build_image,
}
use cbdynclusterd.Start.{cleanup_round}

module _ (st : Storage) (dk : Docker) (cfg : Config) (out : Outside) where
  pub data Step (s : Daemon st dk) : Daemon st dk → Type 0 where
    creates :
        (ch : Choices) (sched : Schedule NodeOptions) (parse : String → Result Duration)
        (products : Result Products) (now : Time) (uuid : String) (r : Request CreateClusterJson)
        → Step s (http_create_cluster st dk cfg out ch sched parse products now uuid r s).1
    updates :
        (order : List Group → List Group) (parse : String → Result Duration) (now : Time)
        (r : Request String)
        → Step s (http_update_cluster st dk order parse now r s).1
    deletes : (ch : Choices) (r : Request (Unit {0})) → Step s (http_delete_cluster st dk ch r s).1
    builds : (r : Request BuildImageJson) → Step s (http_build_image st dk cfg out r s).1
    cleans : (ch : Choices) (now : Time) → Step s (cleanup_round st dk ch now s).1
    -- Docker changes by itself: a container ends, or someone else starts one.
    engine_moves : (engine : dk.Engine) → Step s (record s { engine = engine })

  -- The states after any number of steps from `first`.
  pub data Reachable (first : Daemon st dk) : Daemon st dk → Type 0 where
    starts : Reachable first first
    steps_to : {s t : Daemon st dk} → Reachable first s → Step s t → Reachable first t
