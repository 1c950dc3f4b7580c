-- ===== src/Install/Nodes.antt =====
-- Install and runNode of cluster/install.go. Log lines are left out.
use Prim.Native.String.{◌++◌}
use cbdynclusterd.Prelude.{String, Bool, List, if◌then◌else◌}
use cbdynclusterd.Prelude.Exec.{Exec, pure, lift, ◌>>=◌, ◌>>◌}
use cbdynclusterd.Prelude.Join.{Schedule, join}
use cbdynclusterd.Rest.{Net}
use cbdynclusterd.Server.{Server}
use cbdynclusterd.Ssh.{Ssh, Regexp, run_ssh, get_system_info, fatal}
use cbdynclusterd.Scp.{Copying, scp_to_remote}
use cbdynclusterd.Install.{VersionMatch, package_url}

module _ (net : Net) (ssh : Ssh net) (files : Copying net) (regexp : Regexp)
    (match : VersionMatch) where
  unfoldable pub run_node : Bool → String → String → Bool → Server → Exec net.World (Unit {0})
  run_node slowlog version build is_enterprise node = do
    os_info ← get_system_info net ssh regexp node
    if slowlog
        then fatal (scp_to_remote net files ssh node "opcode-attributes.json" "/root/")
        else pure tt
    dl_url ← lift (package_url match version build is_enterprise os_info)
    fatal (scp_to_remote net files ssh node "../../cluster-install.py" "/root/")
    fatal (run_ssh net ssh ("python cluster-install.py " ++ dl_url) node)
    pure tt

  -- A goroutine for each node. They send nothing: what is left of one that fails is the panic.
  unfoldable pub install :
      Schedule Server → Bool → List Server → String → String → Bool → Exec net.World (Unit {0})
  install sched slowlog nodes version build is_enterprise =
      join sched (run_node slowlog version build is_enterprise) nodes
