-- ===== src/Manager/Success.antt =====
-- What it means that setupNewCluster of cluster/manager.go succeeds.
use Prim.Native.String.{◌++◌}
use cbdynclusterd.Prelude.{ℕ, String, some, List, [], Permᴰ, ◌≡◌, if◌then◌else◌, ◌==◌}
use cbdynclusterd.Prelude.Int.{ℤ, pos, ltb_ℤ}
use cbdynclusterd.Prelude.Text.{atoi}
use cbdynclusterd.Prelude.Result.{Result, ok}
use cbdynclusterd.Prelude.Exec.{Exec, Gives, pure}
use cbdynclusterd.Prelude.Run.{returning}
use cbdynclusterd.Rest.{Net}
use cbdynclusterd.Server.{
  Server, setup_memory_quota, rename, setup_initial_service, init_new_cluster,
}
use cbdynclusterd.Peer.{Decoder, rebalance_node}
use cbdynclusterd.Manager.{BucketOption, ManagerConfig, VersionTuple, Site, at, ask, get_version}
use cbdynclusterd.Manager.Actions.{manager_enable_developer_preview}
use cbdynclusterd.Manager.Setup.{manager_rebalance, setup_bucket, user_if_named}
use cbdynclusterd.Manager.Joining.{NotFirst, AllReady, AllAdded}

-- fmt.Sprintf("http://%s:%s", epnode.HostName, epnode.Port)
abbrev first_url : Server → Result String
first_url n = ok ("http://" ++ (n.host_name ++ (":" ++ n.port)))

module _ (net : Net) (dec : Decoder) (rounds : ℕ) where
  -- What init_entry_point has done between two states, in this order: it asked the first node for its
  -- version, set its memory quota to the number in the options, renamed it if the options say so, set
  -- up its services and its cluster, and from version 5 on made the user, if he has a name.
  pub record IsInitialised (config : ManagerConfig) (s last : Site net) : Type 0 where
    pub version : VersionTuple
    pub quota : ℤ
    pub s1 : Site net
    pub s2 : Site net
    pub s3 : Site net
    pub s4 : Site net
    pub s5 : Site net
    pub versioned : Gives (get_version net dec 0) version s s1
    pub parsed : atoi config.memory_quota ≡ some quota
    pub quota_set : Gives (ask net 0 (λ n. setup_memory_quota net n quota)) tt s1 s2
    pub renamed :
        Gives
          (if config.use_hostname then ask net 0 (λ n. rename net n n.host_name) else pure tt)
          tt
          s2
          s3
    pub service_set : Gives (ask net 0 (setup_initial_service net)) tt s3 s4
    pub initialised :
        Gives
          (ask net 0 (λ n. init_new_cluster net n config.memory_quota config.storage_mode))
          tt
          s4
          s5
    pub user_made :
        Gives
          (if ltb_ℤ version.major (pos 5)
            then pure tt
            else user_if_named net dec rounds config.user)
          tt
          s5
          last

  -- What setupNewCluster has done between two states, in this order: the entry point was set up; each
  -- other node was found ready to join, in some order; each was added, in the order of the list; then
  -- a rebalance of the entry point was started, and the loop of rebalancing ended; a bucket that has
  -- a name was made on the entry point, and it was ready.
  pub record IsSetUp (config : ManagerConfig) (all : List ℕ) (s last : Site net) : Type 0 where
    pub others : List ℕ
    pub order : List ℕ
    pub bucket : BucketOption
    pub s1 : Site net
    pub s2 : Site net
    pub s3 : Site net
    pub s4 : Site net
    pub s5 : Site net
    pub rest : NotFirst all others
    pub reordered : Permᴰ others order
    pub given : config.bucket ≡ some bucket
    pub initialised : IsInitialised config s s1
    pub ready : AllReady net dec rounds order s1 s2
    pub added : AllAdded net others s2 s3
    pub started : (mid : Site net) × Gives (at net 0 (rebalance_node net dec [] [] [])) tt s3 mid
    pub rebalanced : manager_rebalance net dec rounds s3 ≡ some (ok tt, s4)
    pub filled :
        (if bucket.name == ""
            then returning tt
            else setup_bucket net dec rounds bucket.name bucket.bucket_type)
          s4
        ≡ some (ok tt, s5)
    pub previewed :
        Gives
          (if config.use_dev_preview then manager_enable_developer_preview net dec all else pure tt)
          tt
          s5
          last
