-- ===== src/Manager/Actions.antt =====
-- cluster/manager.go: the operations on a cluster, which act on the entry point, on the first node
-- with a service, or on all nodes.
use Prim.Native.String.{◌++◌}
use cbdynclusterd.Prelude.{
  ℕ, String, false, not, Option, none, some, List, [], ◌∷◌, get_elem?, keep, if◌then◌else◌, ◌==◌,
}
use cbdynclusterd.Prelude.Int.{pos, ◌+ℤ◌}
use cbdynclusterd.Prelude.Text.{contains}
use cbdynclusterd.Prelude.Result.{failure, message, Result, ok, err, panic}
use cbdynclusterd.Prelude.Exec.{raise, Exec, pure, ◌>>=◌}
use cbdynclusterd.Rest.{Net}
use cbdynclusterd.Server.{
  Server, UserOption, create_user, enable_developer_preview, create_fts_index, create_n1ql_index,
}
use cbdynclusterd.Ssh.{Ssh, Regexp, MemUsedStats, node_mem_used_stats, network_reset, network_delay}
use cbdynclusterd.Peer.{Decoder}
use cbdynclusterd.Scp.{Copying, scp_to_local, scp_to_local_dir}
use cbdynclusterd.Manager.{Site, ask, get_ep_node, get_service_node}

abbrev host_of : Option Server → String
host_of none = ""
host_of (some n) = n.host_name

-- The sums over all nodes, or the first error.
unfoldable pub sum_stats :
    {S : Type 0} → (ℕ → Exec S MemUsedStats) → MemUsedStats → List ℕ → Exec S MemUsedStats
sum_stats f total [] = pure total
sum_stats f total (i ∷ is) = do
  curr ← f i
  sum_stats f
      (record {
        uncompressed = total.uncompressed +ℤ curr.uncompressed;
        used = total.used +ℤ curr.used;
      })
      is

module _ (net : Net) (dec : Decoder) where
  -- The manager's methods that act on the entry point or on the first node with a service.
  module _ (all : List ℕ) where
    unfoldable pub manager_create_user : UserOption → Exec (Site net) (Unit {0})
    manager_create_user cred = do
      epnode ← get_ep_node net dec false all
      ask net epnode (λ n. create_user net n cred)

    unfoldable pub manager_enable_developer_preview : Exec (Site net) (Unit {0})
    manager_enable_developer_preview = do
      epnode ← get_ep_node net dec false all
      ask net epnode (enable_developer_preview net)

    unfoldable pub manager_network_reset : Ssh net → Exec (Site net) (Unit {0})
    manager_network_reset ssh = do
      epnode ← get_ep_node net dec false all
      ask net epnode (network_reset net ssh)

    unfoldable pub manager_network_delay : Ssh net → Exec (Site net) (Unit {0})
    manager_network_delay ssh = do
      epnode ← get_ep_node net dec false all
      ask net epnode (network_delay net ssh)

    unfoldable pub manager_create_n1ql_index : String → String → String → Exec (Site net) (Unit {0})
    manager_create_n1ql_index name fields bucket = do
      n1ql_node ← get_service_node net dec false "n1ql" all
      ask net n1ql_node (λ n. create_n1ql_index net n name fields bucket)

    -- newNodesExcept compares host names, not pointers.
    abbrev hosts_except : Site net → String → List ℕ → List ℕ
    hosts_except s host = keep (λ j. not (host_of (get_elem? s.nodes j) == host))

    -- Another try on an error of this text; any other error is dropped.
    abbrev fts_retry : String → String → String → ℕ → Result (Unit {0}) → Exec (Site net) (Unit {0})
    fts_retry name bucket_type bucket i (ok u) s = (ok tt, s)
    fts_retry name bucket_type bucket i panic s = (panic, s)
    fts_retry name bucket_type bucket i (err e) s =
        if contains (message e) "failed to connect to or retrieve information from source"
        then (do
          next ←
              get_service_node net dec false "fts"
                (hosts_except s (host_of (get_elem? s.nodes i)) all)
          ask net next (λ n. create_fts_index net n name bucket_type bucket))
            s
        else (ok tt, s)

    unfoldable pub manager_create_fts_index : String → String → String → Exec (Site net) (Unit {0})
    manager_create_fts_index name bucket_type bucket = do
      i ← get_service_node net dec false "fts" all
      (λ s.
          let (r, s') = ask net i (λ n. create_fts_index net n name bucket_type bucket) s in
          fts_retry name bucket_type bucket i r s')

    unfoldable pub manager_mem_used_stats : Ssh net → Regexp → String → Exec (Site net) MemUsedStats
    manager_mem_used_stats ssh match bucket =
        sum_stats (λ i. ask net i (node_mem_used_stats net ssh match bucket))
          (record { uncompressed = pos 0; used = pos 0 }) all

  -- ScpToLocal and ScpToLocalDir, which differ in the method `copy` that they call.
  unfoldable pub manager_scp :
      (Server → String → String → Exec net.World (Unit {0}))
      → String
      → String
      → String
      → List ℕ
      → Exec (Site net) (Unit {0})
  manager_scp copy hostname src dest [] s =
      raise (failure ("Can not find matching host" ++ hostname)) s
  manager_scp copy hostname src dest (i ∷ is) s =
      if host_of (get_elem? s.nodes i) == hostname
      then ask net i (λ n. copy n src dest) s
      else manager_scp copy hostname src dest is s

  module _ (files : Copying net) (all : List ℕ) where
    unfoldable pub manager_scp_to_local : String → String → String → Exec (Site net) (Unit {0})
    manager_scp_to_local hostname src dest =
        manager_scp (scp_to_local net files) hostname src dest all

    unfoldable pub manager_scp_to_local_dir : String → String → String → Exec (Site net) (Unit {0})
    manager_scp_to_local_dir hostname src dest =
        manager_scp (scp_to_local_dir net files) hostname src dest all
