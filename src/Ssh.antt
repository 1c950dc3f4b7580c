-- ===== src/Ssh.antt =====
-- RunSsh, NetworkReset, NetworkDelay, GetMemUsedStats and GetSystemInfo of cluster/node.go. The SSH
-- client (golang.org/x/crypto/ssh) and regexp are parameters. glog.Fatalf ends the program: it is a
-- panic here.
pub mod Laws
use Prim.Native.String.{◌++◌}
use cbdynclusterd.Prelude.{String, ◌||◌, Option, none, some, List, [], ◌∷◌, if◌then◌else◌, ◌==◌}
use cbdynclusterd.Prelude.Int.{ℤ, pos, ◌+ℤ◌}
use cbdynclusterd.Prelude.Text.{split, atoi}
use cbdynclusterd.Prelude.Result.{Error, failure, Result, ok, err, panic}
use cbdynclusterd.Prelude.Exec.{Exec, pure, lift, ◌>>=◌, ◌>>◌}
use cbdynclusterd.Rest.{Cred, Net}
use cbdynclusterd.Server.{Server}

-- What a command wrote, and session.Run's error.
pub record SshOutput : Type 0 where
  pub stdout : String
  pub stderr : String
  pub error : Option Error

-- newSession's calls of ssh.Dial and NewSession, and session.Run.
pub record Ssh (net : Net) : Type 0 where
  pub open_session : Cred → Exec net.World (Unit {0})
  pub run : Cred → String → Exec net.World SshOutput

-- FindStringSubmatch(line)[1] of a pattern, if it matches.
abbrev pub Regexp : Type 0
Regexp = String → String → Option String

-- if err != nil { glog.Fatalf(...) }
abbrev pub or_fatal : {A : Type 0} → Result A → Result A
or_fatal (ok a) = ok a
or_fatal (err e) = panic
or_fatal panic = panic

unfoldable pub ssh_result : SshOutput → Result String
ssh_result out = elim out.error [
  | none ↦ ok out.stdout
  | some e ↦ if out.stderr == "" then err e else err (failure out.stderr)
]

pub record MemUsedStats : Type 0 where
  pub uncompressed : ℤ
  pub used : ℤ

-- val, _ := strconv.Atoi(matched[1]); the error's value is 0
abbrev matched_value : Option String → ℤ
matched_value none = pos 0
matched_value (some text) = elim (atoi text) [ none ↦ pos 0 | some n ↦ n ]

abbrev pub actual_pattern : String
actual_pattern = "\\s*vb_active_itm_memory:\\s*([0-9]+)"

abbrev pub replica_pattern : String
replica_pattern = "\\s*vb_replica_itm_memory:\\s*([0-9]+)"

abbrev pub uncompressed_pattern : String
uncompressed_pattern = "\\s*vb_active_itm_memory_uncompressed:\\s*([0-9]+)"

abbrev pub uncompressed_replica_pattern : String
uncompressed_replica_pattern = "\\s*vb_replica_itm_memory_uncompressed:\\s*([0-9]+)"

unfoldable pub add_line : Regexp → MemUsedStats → String → MemUsedStats
add_line match stats line = record {
  used =
      stats.used
      +ℤ matched_value (match actual_pattern line)
      +ℤ matched_value (match replica_pattern line);
  uncompressed =
      stats.uncompressed
      +ℤ matched_value (match uncompressed_pattern line)
      +ℤ matched_value (match uncompressed_replica_pattern line);
}

unfoldable pub add_lines : Regexp → MemUsedStats → List String → MemUsedStats
add_lines match stats [] = stats
add_lines match stats (l ∷ ls) = add_lines match (add_line match stats l) ls

pub record OsInfo : Type 0 where
  pub arch : String
  pub platform : String
  pub package_type : String

-- helper.MatchingString, its error dropped
abbrev pub matching_string : Regexp → String → String → String
matching_string match pattern line = elim (match pattern line) [ none ↦ "" | some s ↦ s ]

abbrev pub id_pattern : String
id_pattern = "ID=\"([a-z]+)\""

abbrev pub version_pattern : String
version_pattern = "VERSION_ID=\"([0-9]+)\""

abbrev pub arch_pattern : String
arch_pattern = "Architecture:\\s*([^\\s]+)\\s*"

-- The first line that gives a text.
unfoldable pub first_match : Regexp → String → List String → String
first_match match pattern [] = ""
first_match match pattern (l ∷ ls) =
    if matching_string match pattern l == ""
    then first_match match pattern ls
    else matching_string match pattern l

-- One variable of the loop over /etc/os-release: it keeps a text that it has.
abbrev pub or_matching : Regexp → String → String → String → String
or_matching match pattern old line = if old == "" then matching_string match pattern line else old

-- The loop over the lines of /etc/os-release: id and version, until both are there.
unfoldable pub scan_release : Regexp → String → String → List String → String × String
scan_release match id version [] = (id, version)
scan_release match id version (l ∷ ls) =
    let id' = or_matching match id_pattern id l in
    let version' = or_matching match version_pattern version l in
    let rest = scan_release match id' version' ls in
    if (id' == "") || (version' == "") then rest else (id', version')

-- packageType, platform and arch
unfoldable pub os_info_of : String → String → String → OsInfo
os_info_of id version arch =
    if id == "centos"
    then record { arch = arch; platform = id ++ version; package_type = "rpm" }
    else record { arch = "amd64"; platform = id ++ version; package_type = "deb" }

abbrev found_os : String → String → Result (Unit {0})
found_os id version = if (id == "") || (version == "") then panic else ok tt

-- An action whose error is fatal.
abbrev pub fatal : {S A : Type 0} → Exec S A → Exec S A
fatal m s = let (r, s') = m s in (or_fatal r, s')

module _ (net : Net) (ssh : Ssh net) where
  unfoldable pub run_ssh : String → Server → Exec net.World String
  run_ssh cmd n = do
    fatal (ssh.open_session n.ssh_login)
    out ← ssh.run n.ssh_login cmd
    lift (ssh_result out)

  unfoldable pub network_reset : Server → Exec net.World (Unit {0})
  network_reset n = do run_ssh "tc qdisc del dev eth0 root netem" n; pure tt

  unfoldable pub network_delay : Server → Exec net.World (Unit {0})
  network_delay n = do
    run_ssh "tc qdisc add dev eth0 root netem delay 500ms 200ms loss 10% 25%" n
    pure tt

  unfoldable pub node_mem_used_stats : Regexp → String → Server → Exec net.World MemUsedStats
  node_mem_used_stats match bucket n = do
    out ←
        run_ssh
          ("/opt/couchbase/bin/cbstats  localhost -u "
            ++ (n.rest_login.username
                ++ (" -p " ++ (n.rest_login.password ++ (" all -b " ++ bucket)))))
          n
    pure (add_lines match (record { uncompressed = pos 0; used = pos 0 }) (split b'\n' out))

  unfoldable pub get_system_info : Regexp → Server → Exec net.World OsInfo
  get_system_info match n = do
    release ← fatal (run_ssh "cat /etc/os-release" n)
    let found = scan_release match "" "" (split b'\n' release)
    lift (found_os found.0 found.1)
    cpu ← fatal (run_ssh "lscpu" n)
    pure (os_info_of found.0 found.1 (first_match match arch_pattern (split b'\n' cpu)))
