-- ===== src/Manager/Setup.antt =====
-- cluster/manager.go: what waits, up to StartCluster. `rounds` bounds the polls of each loop that has
-- no end of its own. Waits between two tries and log lines are left out.
use Prim.Native.String.{◌++◌}
use cbdynclusterd.Prelude.{
  ℕ, zero, suc, String, not, Option, none, some, List, [], get_elem?, keep, eqb, if◌then◌else◌,
  ◌==◌,
}
use cbdynclusterd.Prelude.Int.{ℤ, pos, ltb_ℤ}
use cbdynclusterd.Prelude.Text.{atoi, contains}
use cbdynclusterd.Prelude.Result.{failure, message, Result, ok, err, panic}
use cbdynclusterd.Prelude.Exec.{Exec, pure, lift, reads, for_each}
use cbdynclusterd.Prelude.Run.{Run, returning, exec, ◌>>=◌, ◌>>◌}
use cbdynclusterd.Prelude.Await.{Waiting, await_all}
use cbdynclusterd.Rest.{Net}
use cbdynclusterd.Server.{
  Server, RespNode, Bucket, UserOption, add_node, setup_memory_quota, rename, setup_initial_service,
  init_new_cluster, change_bucket_compression, create_bucket, create_user, stop_rebalance,
}
use cbdynclusterd.Ssh.{Ssh}
use cbdynclusterd.Peer.{Decoder, Place, rebalance_node}
use cbdynclusterd.Peer.Polling.{
  poll_rebalance, poll_join_ready, poll_compression_mode, wait_for_bucket_ready,
}
use cbdynclusterd.Manager.{
  BucketOption, ManagerConfig, Site, set, indices, no_info, at, ask, get_version, find_existing,
  clear_single_cluster,
}
use cbdynclusterd.Manager.Actions.{manager_enable_developer_preview}

-- The bucket that SetupBucket asks for.
unfoldable pub bucket_conf : String → String → Bucket
bucket_conf name bucket_type = record {
  bucket_type =
      if bucket_type == "memcached"
      then "memcached"
      else if bucket_type == "ephemeral"
      then "ephemeral"
      else "membase";
  ram_quota_mb = "256";
  name = name;
  replica_count = pos 1;
  eph_eviction_policy = "noEviction";
}

-- strconv.Atoi(m.Config.MemoryQuota)
abbrev pub parse_quota : String → Result ℤ
parse_quota s = elim (atoi s) [
  | none ↦ err (failure ("strconv.Atoi: parsing " ++ s))
  | some n ↦ ok n
]

abbrev pub other_nodes : List ℕ → List ℕ
other_nodes all = keep (λ i. not (eqb i 0)) all

abbrev drop_answer : Result String → Result (Unit {0})
drop_answer (ok answer) = ok tt
drop_answer (err e) = err e
drop_answer panic = panic

module _ (net : Net) where
  abbrev put_back :
      {A : Type 0} → ℕ → List Server → Option (Result A × Place net) → Option (Result A × Site net)
  put_back i nodes none = none
  put_back i nodes (some (r, p)) = some (r, record { world = p.world; nodes = set nodes i p.node })

  abbrev visit_run : {A : Type 0} → Option Server → ℕ → Run (Place net) A → Run (Site net) A
  visit_run none i m s = some (panic, s)
  visit_run (some n) i m s = put_back i s.nodes (m (record { world = s.world; node = n }))

  -- A call of a method that waits, on the node that `i` points to.
  unfoldable pub at_run : {A : Type 0} → ℕ → Run (Place net) A → Run (Site net) A
  at_run i m s = visit_run (get_elem? s.nodes i) i m s

  -- One more try on an error of this text.
  abbrev pub add_retry : Server → Result (Unit {0}) → Exec (Site net) (Unit {0})
  add_retry new (ok u) s = (ok tt, s)
  add_retry new panic s = (panic, s)
  add_retry new (err e) s =
      if contains (message e) "Prepare join failed. Got HTTP status 500 from REST call"
      then ask net 0 (λ epnode. add_node net epnode new) s
      else (err e, s)

  abbrev join_node : Server → Exec (Site net) (Unit {0})
  join_node new s =
      let (r, s') = ask net 0 (λ epnode. add_node net epnode new) s in add_retry new r s'

  abbrev pub add_found : Option Server → Exec (Site net) (Unit {0})
  add_found none s = (panic, s)
  add_found (some new) s = join_node new s

  unfoldable pub add_other : ℕ → Exec (Site net) (Unit {0})
  add_other i s = add_found (get_elem? s.nodes i) s

  module _ (dec : Decoder) (rounds : ℕ) where
    -- One goroutine of pollJoinReadyAll. A poll that does not end sends nothing on the channel: what
    -- stands here for its result is no success, and the whole then has no result (all_joined).
    abbrev pub join_end :
        Option (Result (Unit {0}) × Site net) → Result (Unit {0}) × Option (Site net)
    join_end none = (err (failure "the poll has not ended"), none)
    join_end (some (r, s)) = (r, some s)

    abbrev pub join_job : ℕ → Option (Site net) → Result (Unit {0}) × Option (Site net)
    join_job i none = join_end none
    join_job i (some s) = join_end (at_run i (poll_join_ready net dec rounds) s)

    abbrev pub all_joined :
        Result (Unit {0}) × Option (Site net) → Option (Result (Unit {0}) × Site net)
    all_joined (r, none) = none
    all_joined (r, some s) = some (r, s)

    unfoldable pub poll_join_ready_all : Waiting ℕ → List ℕ → Run (Site net) (Unit {0})
    poll_join_ready_all w all s =
        all_joined
          (await_all "Timeout while polling rest of nodes" w join_job (other_nodes all) (some s))

    -- What a try at rebalancing leaves: `i < numRetry` holds in every round, so an error of
    -- PollRebalance starts the next round, and after the last one the loop just ends.
    abbrev pub try_again :
        Run (Site net) (Unit {0})
        → Option (Result (Unit {0}) × Site net)
        → Option (Result (Unit {0}) × Site net)
    try_again next none = none
    try_again next (some (ok u, s)) = some (ok tt, s)
    try_again next (some (err e, s)) = next s
    try_again next (some (panic, s)) = some (panic, s)

    unfoldable pub rebalance_tries : ℕ → Run (Site net) (Unit {0})
    rebalance_tries zero = returning tt
    rebalance_tries (suc k) =
        let next = rebalance_tries k in
        (exec (at net 0 (rebalance_node net dec [] [] []))
          >> (λ s. try_again next (at_run 0 (poll_rebalance net dec rounds) s)))

    -- Manager.Rebalance, and the same loop of setupNewCluster
    unfoldable pub manager_rebalance : Run (Site net) (Unit {0})
    manager_rebalance = rebalance_tries 2

    unfoldable pub setup_bucket : String → String → Run (Site net) (Unit {0})
    setup_bucket name bucket_type = do
      exec (ask net 0 (λ n. create_bucket net n (bucket_conf name bucket_type)))
      at_run 0 (wait_for_bucket_ready net dec rounds)

    unfoldable pub manager_change_bucket_compression : String → String → Run (Site net) (Unit {0})
    manager_change_bucket_compression bucket mode = do
      exec (ask net 0 (λ n. change_bucket_compression net n bucket mode))
      at_run 0 (wait_for_bucket_ready net dec rounds)

    abbrev pub user_if_named : Option UserOption → Exec (Site net) (Unit {0})
    user_if_named none = lift panic
    user_if_named (some user) =
        if user.name == "" then pure tt else ask net 0 (λ n. create_user net n user)

    -- if len(m.Config.Bucket.Name) > 0
    unfoldable pub bucket_if_named : Option BucketOption → Run (Site net) (Unit {0})
    bucket_if_named none = exec (lift panic)
    bucket_if_named (some bucket) =
        if bucket.name == "" then returning tt else setup_bucket bucket.name bucket.bucket_type

    -- The calls on the entry point before another node joins.
    unfoldable pub init_entry_point : ManagerConfig → Run (Site net) (Unit {0})
    init_entry_point config = do
      version ← exec (get_version net dec 0)
      quota ← exec (lift (parse_quota config.memory_quota))
      exec (ask net 0 (λ n. setup_memory_quota net n quota))
      exec (if config.use_hostname then ask net 0 (λ n. rename net n n.host_name) else pure tt)
      exec (ask net 0 (setup_initial_service net))
      exec (ask net 0 (λ n. init_new_cluster net n config.memory_quota config.storage_mode))
      exec (if ltb_ℤ version.major (pos 5) then pure tt else user_if_named config.user)

    unfoldable pub setup_new_cluster : ManagerConfig → Waiting ℕ → List ℕ → Run (Site net) String
    setup_new_cluster config w all = do
      init_entry_point config
      poll_join_ready_all w all
      exec (for_each tt add_other (other_nodes all))
      manager_rebalance
      bucket_if_named config.bucket
      exec
          (if config.use_dev_preview then manager_enable_developer_preview net dec all else pure tt)
      exec (at net 0 (reads (λ p. ok ("http://" ++ (p.node.host_name ++ (":" ++ p.node.port))))))

    abbrev unanswered : (Server → Exec net.World String) → Server → Exec net.World (Unit {0})
    unanswered f n s = let (r, s') = f n s in (drop_answer r, s')

    abbrev stop_at : ℕ → Exec (Site net) (Unit {0})
    stop_at i = ask net i (unanswered (stop_rebalance net))

    -- `order` is the order in which Go ranges over the map. StartServer only logs.
    unfoldable pub start_cluster :
        Ssh net
        → (List (String × List ℕ) → List (String × List ℕ))
        → Waiting RespNode
        → ManagerConfig
        → Waiting ℕ
        → Run (Site net) String
    start_cluster ssh order aux config w s =
        let all = indices 0 s.nodes in
        (do
          existing ← exec (find_existing net dec no_info all [])
          exec (for_each tt stop_at all)
          exec (for_each tt (λ g. clear_single_cluster net dec ssh aux g.1) (order existing))
          setup_new_cluster config w all)
          s

    unfoldable pub manager_poll_compression_mode : String → String → Run (Site net) (Unit {0})
    manager_poll_compression_mode bucket mode =
        at_run 0 (poll_compression_mode net dec rounds bucket mode)
