-- ===== src/Start.antt =====
-- daemon/daemon.go: the configuration, the checks before the daemon serves, and one round of the
-- periodic cleanup. The file system, cobra's flags and viper are a parameter, `Settings`. The HTTP
-- server and the signals are not modelled; log lines are left out.
pub mod Laws
use Prim.Native.String.{◌++◌}
use cbdynclusterd.Prelude.{String, Bool, true, false, ◌||◌, List, [], ◌∷◌, if◌then◌else◌, ◌==◌}
use cbdynclusterd.Prelude.Int.{ℤ, pos, ltb_ℤ}
use cbdynclusterd.Prelude.Text.{itoa}
use cbdynclusterd.Prelude.Result.{Result, ok, err, panic}
use cbdynclusterd.Prelude.Exec.{Exec, lift, reads, ◌>>=◌, ◌>>◌}
use cbdynclusterd.Time.{Time}
use cbdynclusterd.Meta.{Storage}
use cbdynclusterd.Docker.{Docker}
use cbdynclusterd.Images.{Config}
use cbdynclusterd.Clusters.{Group, Daemon, network_name, get_all_clusters}
use cbdynclusterd.Kill.{Choices, system_ctx, cleanup_clusters}

pub data Setting : Type 0 where
  text_setting : String → Setting
  number_setting : ℤ → Setting

-- cfgFileFlag, dockerRegistryFlag, dockerHostFlag, dnsSvcHostFlag, dockerPortFlag
pub record Flags : Type 0 where
  pub cfg_file : String
  pub docker_registry : String
  pub docker_host : String
  pub dns_host : String
  pub docker_port : ℤ

pub record Settings : Type 1 where
  pub World : Type 0
  -- what a file holds
  pub Bytes : Type 0
  -- homedir.Dir and path.Join
  pub home_dir : World → Result String
  pub join_path : String → String → String
  -- os.IsNotExist of os.Stat's error, negated
  pub file_exists : World → String → Bool
  -- the error of toml.TreeFromMap(nil), and the text that String() gives of a tree with these
  -- values, which go-toml makes without telling an error of its encoding
  pub new_tree : Result (Unit {0})
  pub toml_text : List (String × Setting) → Bytes
  -- ioutil.WriteFile
  pub write_file : String → Bytes → Exec World (Unit {0})
  -- what viper finds under a key once AutomaticEnv and ReadInConfig have been called for a file
  pub get_string : World → String → String → String
  pub get_int32 : World → String → String → ℤ
  -- rootCmd.PersistentFlags().Changed
  pub changed : String → Bool

-- connectDocker's and openMeta's results, and which check fails first.
pub data Startup : Type 0 where
  meta_failed : Startup
  docker_failed : Startup
  no_network : Startup
  serving : Startup

unfoldable pub config_values : Flags → List (String × Setting)
config_values flags =
    let port =
      if ltb_ℤ (pos 0) flags.docker_port
      then ("docker-port", number_setting flags.docker_port) ∷ []
      else [] in
    ("docker-registry", text_setting flags.docker_registry)
    ∷ ("docker-host", text_setting flags.docker_host)
    ∷ ("dns-host", text_setting flags.dns_host)
    ∷ port

-- The host to connect to, for a flag and a port.
unfoldable pub docker_address : String → ℤ → String
docker_address host port =
    if ltb_ℤ (pos 0) port then "tcp://" ++ (host ++ (":" ++ itoa port)) else host

module _ (env : Settings) where
  -- getStringArg: `file` is the configuration file, `flag` the flag's value.
  unfoldable pub get_string_arg : env.World → String → String → String → String
  get_string_arg w file arg flag = if env.changed arg then flag else env.get_string w file arg

  unfoldable pub get_int32_arg : env.World → String → String → ℤ → ℤ
  get_int32_arg w file arg flag = if env.changed arg then flag else env.get_int32 w file arg

  unfoldable pub create_config_file : Flags → String → Exec env.World (Unit {0})
  create_config_file flags config_file = do
    lift env.new_tree
    env.write_file config_file (env.toml_text (config_values flags))

  -- The variables that the daemon works with from then on.
  unfoldable pub read_config : Flags → String → env.World → Config
  read_config flags file w = record {
    docker_registry = get_string_arg w file "docker-registry" flags.docker_registry;
    docker_host =
        docker_address (get_string_arg w file "docker-host" flags.docker_host)
          (get_int32_arg w file "docker-port" flags.docker_port);
    dns_svc_host = get_string_arg w file "dns-host" flags.dns_host;
  }

  -- If the file cannot be written, initConfig returns at once and the variables keep their values.
  abbrev pub config_after : Flags → Config → String → Result (Unit {0}) → env.World → Config
  config_after flags old file (ok u) w = read_config flags file w
  config_after flags old file (err e) w = old
  config_after flags old file panic w = old

  -- os.Exit(1)
  abbrev pub or_exit : Result String → Result String
  or_exit (ok home) = ok home
  or_exit (err e) = panic
  or_exit panic = panic

  abbrev pub default_file : Flags → Config → String → Exec env.World Config
  default_file flags old file w =
      if env.file_exists w file
      then (ok (read_config flags file w), w)
      else (let (r, w') = create_config_file flags file w in
          (ok (config_after flags old file r w'), w'))

  unfoldable pub init_config : Flags → Config → Exec env.World Config
  init_config flags old w =
      if flags.cfg_file == ""
      then (do
        home ← reads (λ v. or_exit (env.home_dir v))
        default_file flags old (env.join_path home ".cbdynclusterd.toml"))
          w
      else (ok (read_config flags flags.cfg_file w), w)

unfoldable pub has_name : String → List String → Bool
has_name name [] = false
has_name name (n ∷ ns) = (n == name) || has_name name ns

abbrev panic_on_error : Result (List String) → Result Bool
panic_on_error (ok networks) = ok (has_name network_name networks)
panic_on_error (err e) = panic
panic_on_error panic = panic

module _ (dk : Docker) where
  unfoldable pub has_macvlan0 : dk.Engine → Result Bool
  has_macvlan0 engine = panic_on_error (dk.network_list engine)

  abbrev serving_if : Result Bool → Result Startup
  serving_if (ok true) = ok serving
  serving_if (ok false) = ok no_network
  serving_if (err e) = err e
  serving_if panic = panic

  -- The checks of startDaemon, from openMeta's and connectDocker's results.
  unfoldable pub start_daemon : Result (Unit {0}) → Result (Unit {0}) → dk.Engine → Result Startup
  start_daemon (ok _) (ok _) engine = serving_if (has_macvlan0 engine)
  start_daemon (ok _) (err e) engine = ok docker_failed
  start_daemon (ok _) panic engine = panic
  start_daemon (err e) docker engine = ok meta_failed
  start_daemon panic docker engine = panic

module _ (st : Storage) (dk : Docker) where
  abbrev log_if_error : {A : Type 0} → Result A → Result (Unit {0})
  log_if_error (ok a) = ok tt
  log_if_error (err e) = ok tt
  log_if_error panic = panic

  -- getAndPrintClusters changes nothing.
  unfoldable pub get_and_print_clusters :
      (List Group → List Group) → Daemon st dk → Result (Unit {0})
  get_and_print_clusters order s = log_if_error (get_all_clusters st dk order system_ctx s)

  -- What the cleanup routine does every 5 minutes: an error is only logged.
  unfoldable pub cleanup_round : Choices → Time → Exec (Daemon st dk) (Unit {0})
  cleanup_round ch now s = let (r, s') = cleanup_clusters st dk ch now s in (log_if_error r, s')
