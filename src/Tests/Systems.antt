-- ===== src/Tests/Systems.antt =====
-- A node that runs centos, and one on which no line has an ID in quotes.
use Prim.Native.String.{◌++◌}
use cbdynclusterd.Prelude.{String, none, some, ◌≡◌, ◌≢◌, ◌⊎◌, refl, ◌==◌, ◌&&◌, if◌then◌else◌}
use cbdynclusterd.Prelude.Int.{pos}
use cbdynclusterd.Prelude.Text.{split}
use cbdynclusterd.Prelude.Result.{failure, ok, err, panic}
use cbdynclusterd.Rest.{Cred, Net}
use cbdynclusterd.Server.{Server}
use cbdynclusterd.Ssh.{
  Ssh, Regexp, id_pattern, version_pattern, arch_pattern, first_match, run_ssh, ssh_result,
  get_system_info, scan_release, os_info_of,
}
use cbdynclusterd.Ssh.Laws.{get_system_info_cases}

abbrev net : Net
net = record {
  World = Unit;
  send = λ req s. (err (failure "no route"), s);
  show_request = λ req. req.url;
}

abbrev os_release : String
os_release = "NAME=\"CentOS Linux\"\nID=\"centos\"\nVERSION_ID=\"7\"\nID=\"other\""

abbrev cpu : String
cpu = "CPU(s):  4\nArchitecture:  aarch64\n"

-- It prints `release`, or the architecture.
abbrev shell : String → Ssh net
shell release = record {
  open_session = λ cred s. (ok tt, s);
  run = λ cred cmd s. (
    ok (record { stdout = if cmd == "lscpu" then cpu else release; stderr = ""; error = none }),
    s,
  );
}

-- What the patterns find in these texts.
abbrev match : Regexp
match pattern line =
    if (pattern == id_pattern) && (line == "ID=\"centos\"")
    then some "centos"
    else if (pattern == id_pattern) && (line == "ID=\"other\"")
    then some "other"
    else if (pattern == version_pattern) && (line == "VERSION_ID=\"7\"")
    then some "7"
    else if (pattern == arch_pattern) && (line == "Architecture:  aarch64")
    then some "aarch64"
    else none

abbrev cred : Cred
cred = record { username = "root"; password = "couchbase"; hostname = "10.0.0.7"; port = pos 22 }

abbrev node : Server
node = record {
  ssh_login = cred;
  rest_login = cred;
  n1ql_login = cred;
  fts_login = cred;
  host_name = "10.0.0.7";
  port = "8091";
  version = "7.0.2-6703";
  services = "kv";
  otp_node = "";
  pools_nodes = none;
}

printed :
    (release : String)
    → run_ssh net (shell release) "cat /etc/os-release" node tt ≡ (ok release, tt)
unfolding run_ssh ssh_result
printed release = refl

get_system_info_cases_example :
    let id = first_match match id_pattern (split b'\n' os_release) in
    let version = first_match match version_pattern (split b'\n' os_release) in
    ((cpu : String) (s2 : Unit)
      → run_ssh net (shell os_release) "lscpu" node tt ≡ (ok cpu, s2)
      → id ≢ ""
      → version ≢ ""
      → get_system_info net (shell os_release) match node tt ≡ (
        ok (record {
          arch =
              if id == "centos" then first_match match arch_pattern (split b'\n' cpu) else "amd64";
          platform = id ++ version;
          package_type = if id == "centos" then "rpm" else "deb";
        }),
        s2,
      ))
    × ((id ≡ "") ⊎ (version ≡ "")
        → get_system_info net (shell os_release) match node tt ≡ (panic, tt))
get_system_info_cases_example =
    get_system_info_cases net (shell os_release) match node os_release tt tt (printed os_release)

on_centos :
    get_system_info net (shell os_release) match node tt
    ≡ (ok (record { arch = "aarch64"; platform = "centos7"; package_type = "rpm" }), tt)
unfolding get_system_info run_ssh ssh_result split scan_release first_match os_info_of
on_centos = refl

on_ubuntu :
    get_system_info net (shell "ID=ubuntu\nVERSION_ID=\"20.04\"") match node tt ≡ (panic, tt)
unfolding get_system_info run_ssh ssh_result split scan_release
on_ubuntu = refl
