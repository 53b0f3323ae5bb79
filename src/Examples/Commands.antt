-- ===== src/Examples/Commands.antt =====
-- The commands over a disk that holds configurations, and the parts that they use.
use Prim.Native.String
use Prim.Native.String.{String}
use text.Mathlib.Text.{◌==◌}
use text.Mathlib.TextPositions.{eq_refl}
use covenant.Prelude.{
  errorf_text, ◌≡◌, refl, ap, subst, ◌↔◌, true, false, Option, none, some, List, [], ◌∷◌, library,
  Outcome, ok, err, if◌then◌else◌,
}
use covenant.Prelude.Exec.{pure}
use covenant.Machine.{World}
use covenant.Util.{file_exists, make_directory, replace_tilde, clean_and_expand_path}
use covenant.Util.Expanded.{IsExpanded, clean_and_expand_path-IsExpanded}
use covenant.Log.{console_encoding, info_level, stdout, to_lower, lower_char, new_root_logger}
use covenant.Log.Accepted.{IsFormat, IsLevel, new_root_logger_iff}
use covenant.Config.{Config}
use covenant.Config.Defaults.{default_config_with_home_path}
use covenant.Config.Network.{ConfigFiles, load_config, validate, network_params, config_file}
use covenant.Keyring.{sdk_priv_key}
use covenant.Keyring.Creation.{KeyringPackage, create_client_ctx, new_chain_keyring_controller}
use covenant.Keyring.Account.{create_covenant_key, create_chain_key, store_account}
use covenant.Controller.{ClientController}
use covenant.Controller.Babylon.{client_controller}
use covenant.Controller.Construction.{BbnPackage, new_client_controller, new_babylon_controller}
use covenant.Command.{Machine}
use covenant.Command.Ini.{IsReadBack}
use covenant.Command.Init.{init_home}
use covenant.Command.Key.{print_resp_json, with_key, create_key}
use covenant.Command.Main.{
  finished, init_command, create_key_command, run_command, init_action, create_key_action, main,
}
use covenant.Command.Main.Used.{load_config-main}
use covenant.Command.Key.Stored.{IsCreated}
use covenant.Examples.Toy.{toy, Chain, config, bbn_config, keyring_of, os_with, start}
use covenant.Examples.Settings.{babylon_config}
use covenant.Examples.Controller.{client_of, controller}

abbrev Disk : Type 0
Disk = List (String × Config toy)

abbrev lookup : String → Disk → Option (Config toy)
lookup path [] = none
lookup path ((name, cfg) ∷ disk) =
    let rest = lookup path disk in if name == path then some cfg else rest

abbrev found : Option (Config toy) → Outcome (Unit {0})
found none = err (library "no such file")
found (some cfg) = ok tt

abbrev parsed : Config toy → Option (Config toy) → Outcome (Config toy)
parsed zero none = err (library "no such file")
parsed zero (some cfg) = ok (record cfg { btc_net_params = zero.btc_net_params })

abbrev pub files_of : ConfigFiles toy (World Disk)
files_of = record {
  os = os_with (λ path w. (found (lookup path w.outside), w));
  parse_file = λ zero path w. (parsed zero (lookup path w.outside), w);
  write_file = λ cfg path w. (ok tt, record w { outside = (path, cfg) ∷ w.outside });
}

abbrev pub lib_of : {W : Type 0} → KeyringPackage W
lib_of = record {
  new_keyring = λ chain_id backend dir. pure keyring_of;
  new_signing_algo_from_string = λ name algos. ok name;
  new_entropy = λ n. pure (n ∷ []);
  new_mnemonic = λ seed. ok "mnemonic";
  user_home_dir = pure "/root";
  path_join = λ dir name. String.◌++◌ dir (String.◌++◌ "/" name);
}

abbrev pub bbn_of : {S : Type 0} → BbnPackage toy S
bbn_of = record { validate = λ cfg. ok tt; new = λ cfg. pure client_of }

abbrev machine : Machine toy Disk
machine = record {
  files = files_of;
  keyring = lib_of;
  bbn = bbn_of;
  zero_config = config;
  default_babylon_config = babylon_config;
  unicode_lower = λ c. c;
  marshal_hex = λ pk. "01";
  marshal_indent = λ key. ok key.public_key;
  print = λ text w. w;
  print_error = λ text e w. w;
  intercept = pure tt;
}

machine-IsReadBack : (cfg : Config toy) → IsReadBack machine cfg
unfolding file_exists
machine-IsReadBack cfg = record {
  kept = λ path s t h.
      let e : record s { outside = (path, cfg) ∷ s.outside } ≡ t = ap (λ r. r.1) h in
      subst
        (λ w.
          (file_exists machine.files.os path w ≡ (ok true, w))
          × (machine.files.parse_file machine.zero_config path w
              ≡ (ok (record cfg { btc_net_params = "simnet" }), w)))
        e (rw (eq_refl path) refl, rw (eq_refl path) refl);
}

abbrev empty_disk : World Disk
empty_disk = record { input = ""; outside = [] }

-- The disk after `init`.
abbrev initialised : World Disk
initialised = (init_home machine "/home" false empty_disk).1

initialises : init_home machine "/home" false empty_disk ≡ (ok tt, initialised)
unfolding init_home clean_and_expand_path file_exists make_directory default_config_with_home_path
    validate network_params
initialises = refl

abbrev taken_disk : World Disk
taken_disk = record empty_disk { outside = ("/home", config) ∷ [] }

refuses :
    init_home machine "/home" false taken_disk
    ≡ (err (errorf_text "home path %s already exists" "/home"), taken_disk)
unfolding init_home clean_and_expand_path file_exists
refuses = refl

-- The disk with a configuration, and after `create-key`.
abbrev configured_disk : World Disk
configured_disk = record empty_disk { outside = ("/home/covd.conf", config) ∷ [] }

abbrev keyed : World Disk
keyed = (create_key machine "/home" "chain-test" "committee" "test" "pass" "" configured_disk).1

creates :
    create_key machine "/home" "chain-test" "committee" "test" "pass" "" configured_disk
    ≡ (ok tt, keyed)
unfolding create_key load_config file_exists validate network_params config_file print_resp_json
    create_covenant_key create_chain_key store_account create_client_ctx
    new_chain_keyring_controller sdk_priv_key
creates = refl

new_root_logger_iff_example :
    (new_root_logger (λ c. c) "auto" "INFO" (stdout ∷ [])
      ≡ ok (record { encoding = console_encoding; level = info_level; writers = stdout ∷ [] }))
    ↔ (IsFormat "auto" console_encoding
        × IsLevel (to_lower (λ c. c) "INFO") info_level
        × (stdout ∷ [] ≡ stdout ∷ []))
new_root_logger_iff_example =
    new_root_logger_iff (λ c. c) "auto" "INFO" (stdout ∷ [])
      (record { encoding = console_encoding; level = info_level; writers = stdout ∷ [] })

lowers : to_lower (λ c. c) "Info" ≡ "info"
unfolding to_lower lower_char
lowers = refl

abbrev client : ClientController toy (World Chain)
client = client_controller (record controller { btc_params = "simnet" })

connects : new_client_controller bbn_of "babylon" bbn_config "simnet" start ≡ (ok client, start)
unfolding new_client_controller new_babylon_controller
connects = refl

clean_and_expand_path-IsExpanded_example :
    IsExpanded files_of.os "~/covd" empty_disk
      (clean_and_expand_path files_of.os "~/covd" empty_disk)
clean_and_expand_path-IsExpanded_example =
    clean_and_expand_path-IsExpanded files_of.os "~/covd" empty_disk

expands : clean_and_expand_path files_of.os "~/covd" empty_disk ≡ (ok "/root/covd", empty_disk)
unfolding clean_and_expand_path replace_tilde
expands = refl

-- `init` and `create-key` with the default flags.
abbrev main_initialised : World Disk
main_initialised = (main machine "/home" (init_command none false) empty_disk).1

main_initialises :
    main machine "/home" (init_command none false) empty_disk ≡ (finished, main_initialised)
unfolding main run_command init_action create_key_action init_home clean_and_expand_path file_exists
    make_directory default_config_with_home_path validate network_params
main_initialises = refl

abbrev main_keyed : World Disk
main_keyed =
    (main machine "/home" (create_key_command none "committee" none none none none)
      main_initialised).1

main_creates :
    main machine "/home" (create_key_command none "committee" none none none none) main_initialised
    ≡ (finished, main_keyed)
unfolding main run_command init_action create_key_action init_home clean_and_expand_path file_exists
    make_directory default_config_with_home_path validate network_params create_key load_config
    config_file print_resp_json create_covenant_key create_chain_key store_account create_client_ctx
    new_chain_keyring_controller sdk_priv_key
main_creates = refl

absolute_home : clean_and_expand_path files_of.os "/home" empty_disk ≡ (ok "/home", empty_disk)
unfolding clean_and_expand_path
absolute_home = refl

load_config-main_example :
    (cfg : Config toy) × (default_config_with_home_path babylon_config "/home" ≡ ok cfg)
    × IsCreated machine "/home" "chain-test" "committee" "test" "" "" main_initialised main_keyed
    × (load_config files_of config "/home" main_keyed
        ≡ (ok (with_key machine cfg "committee" "test"), main_keyed))
load_config-main_example =
    load_config-main machine "/home" "/home" "committee" false empty_disk main_initialised
      main_keyed empty_disk empty_disk
      (λ cfg e.
        (machine-IsReadBack cfg, machine-IsReadBack (with_key machine cfg "committee" "test")))
      refl absolute_home main_initialises main_creates
