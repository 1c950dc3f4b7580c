-- ===== src/Start/Laws.antt =====
-- The configuration of the first start, and of those after it.
use cbdynclusterd.Prelude.{
  String, All, Bool, true, false, none, some, List, ◌≡◌, refl, ap, ◌∙◌, if◌then◌else◌,
}
use cbdynclusterd.Prelude.Int.{ℤ, pos, ltb_ℤ}
use cbdynclusterd.Prelude.Dict.{lookup}
use cbdynclusterd.Prelude.Result.{ok}
use cbdynclusterd.Images.{Config}
use cbdynclusterd.Start.{
  Setting, text_setting, number_setting, Flags, Settings, config_values, docker_address,
  get_string_arg, get_int32_arg, create_config_file, read_config, init_config,
}

-- It is a text.
abbrev pub IsText : Setting → Type 0
IsText (text_setting t) = Unit
IsText (number_setting n) = ⊥

-- A tree whose values are texts can be made, and is written in TOML so that viper finds them in the
-- file, and no other key; a file that was written is there, and writing leaves the home directory
-- where it is. No environment variable has the name of a key.
pub record IsSettings (env : Settings) : Type 0 where
  pub tree_made : env.new_tree ≡ ok tt
  pub there :
      (file : String) (text : env.Bytes) (w w' : env.World)
      → env.write_file file text w ≡ (ok tt, w')
      → env.file_exists w' file ≡ true
  pub home_stays :
      (file : String) (text : env.Bytes) (w w' : env.World)
      → env.write_file file text w ≡ (ok tt, w')
      → env.home_dir w' ≡ env.home_dir w
  pub text_read :
      (file key text : String) (values : List (String × Setting)) (w w' : env.World)
      → All (λ v. IsText v.1) values
      → env.write_file file (env.toml_text values) w ≡ (ok tt, w')
      → lookup key values ≡ some (text_setting text)
      → env.get_string w' file key ≡ text
  pub number_missing :
      (file key : String) (values : List (String × Setting)) (w w' : env.World)
      → All (λ v. IsText v.1) values
      → env.write_file file (env.toml_text values) w ≡ (ok tt, w')
      → lookup key values ≡ none
      → env.get_int32 w' file key ≡ pos 0

-- What flags without a port say.
abbrev pub from_flags : Flags → Config
from_flags flags = record {
  docker_registry = flags.docker_registry;
  docker_host = flags.docker_host;
  dns_svc_host = flags.dns_host;
}

-- As at a start at which no flag is given.
abbrev pub without_flags : Settings → Settings
without_flags env = record env { changed = λ key. false }

same_either : {A : Type 0} (b : Bool) (x y : A) → y ≡ x → (if b then x else y) ≡ x
same_either true x y e = refl
same_either false x y e = e

no_port : (host : String) (n : ℤ) → ltb_ℤ (pos 0) n ≡ false → docker_address host n ≡ host
unfolding docker_address
no_port host n h = rw h refl

module _ (flags : Flags) (portless : ltb_ℤ (pos 0) flags.docker_port ≡ false) where
  all_texts : All (λ v. IsText v.1) (config_values flags)
  unfolding config_values
  all_texts = rw portless (tt, (tt, (tt, tt)))

  port_missing : lookup "docker-port" (config_values flags) ≡ none
  unfolding lookup config_values
  port_missing = rw portless refl

module _ (env : Settings) (laws : IsSettings env) (flags : Flags) (file : String)
    (portless : ltb_ℤ (pos 0) flags.docker_port ≡ false) (w w' : env.World)
    (written : env.write_file file (env.toml_text (config_values flags)) w ≡ (ok tt, w')) where
  found :
      (key text : String)
      → lookup key (config_values flags) ≡ some (text_setting text)
      → env.get_string w' file key ≡ text
  found key text h =
      laws.text_read file key text (config_values flags) w w' (all_texts flags portless) written h

  registry_read : env.get_string w' file "docker-registry" ≡ flags.docker_registry
  unfolding lookup config_values
  registry_read = found "docker-registry" flags.docker_registry refl

  host_read : env.get_string w' file "docker-host" ≡ flags.docker_host
  unfolding lookup config_values
  host_read = found "docker-host" flags.docker_host refl

  dns_read : env.get_string w' file "dns-host" ≡ flags.dns_host
  unfolding lookup config_values
  dns_read = found "dns-host" flags.dns_host refl

  -- Whether the flag of the port counts or not.
  port_read :
      (b : Bool) (host : String)
      → docker_address host (if b then flags.docker_port else env.get_int32 w' file "docker-port")
        ≡ host
  port_read true host = no_port host flags.docker_port portless
  port_read false host =
      ap (docker_address host) (
        laws.number_missing file "docker-port" (config_values flags) w w' (all_texts flags portless)
          written (port_missing flags portless))
      ∙ no_port host (pos 0) refl

  -- The file tells what the flags said when it was written.
  later_config : (given : Flags) → read_config (without_flags env) given file w' ≡ from_flags flags
  unfolding read_config get_string_arg get_int32_arg
  later_config given =
      rw (registry_read, host_read, dns_read, port_read false flags.docker_host) refl

  first_config : read_config env flags file w' ≡ from_flags flags
  unfolding read_config get_string_arg get_int32_arg
  first_config =
      rw
        (
          same_either (env.changed "docker-registry") flags.docker_registry _ registry_read,
          same_either (env.changed "docker-host") flags.docker_host _ host_read,
          same_either (env.changed "dns-host") flags.dns_host _ dns_read,
          port_read (env.changed "docker-port") flags.docker_host,
        )
        refl

-- Where no configuration file was there, none is named, and the flags say no port above 0: the first
-- start works with what its flags say and writes it down, and a later start without flags works with
-- the same registry, Docker host and DNS server. Supposes IsSettings, that the home directory is
-- found, and that the file can be written.
pub init_config-init_config :
    (env : Settings) (laws : IsSettings env) (flags given : Flags) (old old' : Config)
    (home : String) (w w' : env.World)
    → flags.cfg_file ≡ ""
    → given.cfg_file ≡ ""
    → ltb_ℤ (pos 0) flags.docker_port ≡ false
    → env.home_dir w ≡ ok home
    → env.file_exists w (env.join_path home ".cbdynclusterd.toml") ≡ false
    → env.write_file
        (env.join_path home ".cbdynclusterd.toml")
        (env.toml_text (config_values flags))
        w
      ≡ (ok tt, w')
    → (init_config env flags old w ≡ (ok (from_flags flags), w'))
      × (init_config (without_flags env) given old' w' ≡ (ok (from_flags flags), w'))
unfolding init_config create_config_file config_values read_config get_string_arg get_int32_arg
init_config-init_config env laws flags given old old' home w w' unnamed unnamed' portless at_home
      fresh written =
    let file = env.join_path home ".cbdynclusterd.toml" in
    let text = env.toml_text (config_values flags) in
    let at_home' : env.home_dir w' ≡ ok home = laws.home_stays file text w w' written ∙ at_home in
    let found = laws.there file text w w' written in
    (
      rw (unnamed, at_home)
          (rw (fresh, laws.tree_made)
            (rw written
              (λ i. (ok (first_config env laws flags file portless w w' written i), w')))),
      rw (unnamed', at_home')
          (rw found
            (λ i. (ok (later_config env laws flags file portless w w' written given i), w'))),
    )
