-- ===== src/Scp.antt =====
-- ScpToRemote, ScpToLocal and ScpToLocalDir of cluster/node.go. The file system and the copying
-- protocol's client (scp) are a parameter, `Copying`. Log lines are left out.
use Prim.Native.String.{◌++◌}
use cbdynclusterd.Prelude.{ℕ, String, none, some, if◌then◌else◌, ◌==◌}
use cbdynclusterd.Prelude.Text.{show_nat}
use cbdynclusterd.Prelude.Result.{failure, Result, ok, err}
use cbdynclusterd.Prelude.Exec.{Exec, lift, reads, ◌>>=◌, ◌>>◌}
use cbdynclusterd.Rest.{Cred, Net}
use cbdynclusterd.Server.{Server}
use cbdynclusterd.Ssh.{Ssh, SshOutput, fatal}

-- `mode` is the permissions as %#o prints them.
pub record LocalFile : Type 0 where
  pub mode : String
  pub size : ℕ
  pub content : String

pub record Copying (net : Net) : Type 0 where
  -- os.Open and Stat
  pub open_file : String → net.World → Result LocalFile
  -- path.Base
  pub base : String → String
  -- StdinPipe and Start of a command in a session
  pub start : Cred → String → Exec net.World (Unit {0})
  -- writes the text and a zero byte, closes the pipe, and waits for the command
  pub send : Cred → String → Exec net.World SshOutput
  -- ssh.Dial
  pub dial : Cred → Exec net.World (Unit {0})
  -- ReceiveFile and ReceiveDir, from a path and to a path
  pub receive_file : Cred → String → String → Exec net.World (Unit {0})
  pub receive_dir : Cred → String → String → Exec net.World (Unit {0})

unfoldable pub scp_result : SshOutput → Result (Unit {0})
scp_result out =
    if out.stderr == ""
    then (elim out.error [ none ↦ ok tt | some e ↦ err e ])
    else err (failure out.stderr)

module _ (net : Net) (files : Copying net) where
  unfoldable pub scp_to_remote : Ssh net → Server → String → String → Exec net.World (Unit {0})
  scp_to_remote ssh n src dest = do
    f ← reads (files.open_file src)
    fatal (ssh.open_session n.ssh_login)
    files.start n.ssh_login ("scp -t " ++ dest)
    out ← files.send n.ssh_login (
        "C"
        ++ (f.mode
            ++ (" " ++ (show_nat f.size ++ (" " ++ (files.base src ++ ("\n" ++ f.content)))))))
    lift (scp_result out)

  unfoldable pub scp_to_local : Server → String → String → Exec net.World (Unit {0})
  scp_to_local n src dest = do files.dial n.ssh_login; files.receive_file n.ssh_login src dest

  unfoldable pub scp_to_local_dir : Server → String → String → Exec net.World (Unit {0})
  scp_to_local_dir n src dest = do files.dial n.ssh_login; files.receive_dir n.ssh_login src dest
