-- ===== src/Tests/Configs.antt =====
-- The configuration file of a small machine.
use Prim.Native.String.{◌++◌}
use cbdynclusterd.Prelude.{
  String, Bool, true, false, Option, none, some, List, [], ◌≡◌, refl, sym, ap, ◌∙◌, ◌==◌,
}
use cbdynclusterd.Prelude.Int.{ℤ, pos}
use cbdynclusterd.Prelude.Dict.{lookup}
use cbdynclusterd.Prelude.Result.{ok}
use cbdynclusterd.Images.{Config}
use cbdynclusterd.Start.{
  Setting, text_setting, number_setting, Flags, Settings, config_values, init_config,
}
use cbdynclusterd.Start.Laws.{IsSettings, from_flags, without_flags, init_config-init_config}

abbrev as_text : Option Setting → String
as_text none = ""
as_text (some (text_setting t)) = t
as_text (some (number_setting n)) = ""

abbrev as_int32 : Option Setting → ℤ
as_int32 none = pos 0
as_int32 (some (text_setting t)) = pos 0
as_int32 (some (number_setting n)) = n

abbrev values_of : Option (List (String × Setting)) → List (String × Setting)
values_of none = []
values_of (some vs) = vs

abbrev is_there : Option (List (String × Setting)) → Bool
is_there none = false
is_there (some vs) = true

-- The world is the one file, if it is there; the flag docker-registry is given.
abbrev machine : Settings
machine = record {
  World = Option (List (String × Setting));
  Bytes = List (String × Setting);
  new_tree = ok tt;
  toml_text = λ values. values;
  home_dir = λ w. ok "/root";
  join_path = λ d f. d ++ ("/" ++ f);
  file_exists = λ w file. is_there w;
  write_file = λ file values w. (ok tt, some values);
  get_string = λ w file key. as_text (lookup key (values_of w));
  get_int32 = λ w file key. as_int32 (lookup key (values_of w));
  changed = λ key. key == "docker-registry";
}

holds :
    (values : List (String × Setting)) (w w' : machine.World)
    → machine.write_file "" values w ≡ (ok tt, w')
    → some values ≡ w'
holds values w w' h = ap (λ r. r.1) h

machine-IsSettings : IsSettings machine
machine-IsSettings = record {
  tree_made = refl;
  there = λ file values w w' h. ap is_there (sym (holds values w w' h));
  home_stays = λ file values w w' h. refl;
  text_read = λ file key text values w w' texts h found.
      ap (λ v. as_text (lookup key (values_of v))) (sym (holds values w w' h)) ∙ ap as_text found;
  number_missing = λ file key values w w' texts h found.
      ap (λ v. as_int32 (lookup key (values_of v))) (sym (holds values w w' h)) ∙ ap as_int32 found;
}

abbrev flags : Flags
flags = record {
  cfg_file = "";
  docker_registry = "registry:5000";
  docker_host = "10.0.0.7";
  dns_host = "";
  docker_port = pos 0;
}

abbrev no_flags : Flags
no_flags = record {
  cfg_file = "";
  docker_registry = "";
  docker_host = "";
  dns_host = "";
  docker_port = pos 0;
}

abbrev unset : Config
unset = record { docker_registry = ""; docker_host = ""; dns_svc_host = "" }

init_config-init_config_example :
    (init_config machine flags unset none ≡ (ok (from_flags flags), some (config_values flags)))
    × (init_config (without_flags machine) no_flags unset (some (config_values flags))
        ≡ (ok (from_flags flags), some (config_values flags)))
init_config-init_config_example =
    init_config-init_config machine machine-IsSettings flags no_flags unset unset "/root" none
      (some (config_values flags)) refl refl refl refl refl refl
