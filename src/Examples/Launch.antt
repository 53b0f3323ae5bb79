-- ===== src/Examples/Launch.antt =====
-- `start`, and the server that it returns, over the toy chain.
use covenant.Prelude.{inl, some, ◌∷◌, ◌≡◌, refl, none, [], ok}
use covenant.Prelude.Exec.{pure}
use covenant.Util.{file_exists, make_directory, clean_and_expand_path}
use covenant.Log.{
  new_root_logger, new_root_logger_with_file, to_lower, lower_char, encoding_of, level_of,
}
use covenant.Config.Network.{load_config, validate, network_params}
use covenant.Keyring.{get_chain_priv_key}
use covenant.Keyring.Creation.{
  create_client_ctx, create_keyring, new_chain_keyring_controller_with_keyring,
}
use covenant.Controller.Construction.{new_babylon_controller}
use covenant.Emulator.Construction.{new_with_reader, new_covenant_emulator}
use covenant.Emulator.Defs.{CovenantEmulator}
use covenant.Service.{Steps, lives, more, new}
use covenant.Emulator.Lifecycle.{ticker_fires, tick_ends}
use covenant.Emulator.Batches.{delegations_to_batches}
use covenant.Emulator.Loop.{tick}
use covenant.Emulator.Loop.Complete.{none_left, submitted, tick_signs_all}
use covenant.Controller.Babylon.{
  client_controller, submit_covenant_sigs, covenant_msgs, must_get_tx_signer, get_key_address,
  reliably_send_msgs,
}
use covenant.Daemon.{over_babylon}
use covenant.Daemon.Deeds.{Deeds}
use covenant.Command.{Machine}
use covenant.Command.Start.{launch, start}
use covenant.Command.Start.Started.{IsStarted, start_serves}
use covenant.Examples.Toy
use covenant.Examples.Toy.{params, delegation, toy, Chain, config, keyring, os_with}
use covenant.Examples.Settings.{babylon_config}
use covenant.Examples.Controller.{controller, answers, fetches}
use covenant.Examples.Commands.{lib_of, bbn_of}
use covenant.Examples.Service.{called, to_called}
use covenant.Examples.Signing.{signatures, signing}
use covenant.Examples.Ticks.{repeat, repeat-IsRetry, updates, sanitizes}

abbrev machine : Machine toy Chain
machine = record {
  files = record {
    os = os_with (λ path. pure tt);
    parse_file = λ cfg path. pure config;
    write_file = λ cfg path. pure tt;
  };
  keyring = lib_of;
  bbn = bbn_of;
  zero_config = config;
  default_babylon_config = babylon_config;
  unicode_lower = λ c. c;
  marshal_hex = λ pk. "01";
  marshal_indent = λ key. ok key.public_key;
  print = λ text w. w;
  print_error = λ text e w. w;
  intercept = pure tt;
}

-- What `start` returns.
abbrev launched : CovenantEmulator toy Chain
launched = over_babylon (record (Toy.emulator []) { params = none }) controller

starts : start machine "/home" "pass" Toy.start ≡ (ok (new launched Toy.start), Toy.start)
unfolding start launch clean_and_expand_path load_config file_exists validate network_params
    new_root_logger_with_file make_directory new_root_logger to_lower lower_char encoding_of
    level_of new_babylon_controller new_covenant_emulator new_with_reader create_keyring
    create_client_ctx new_chain_keyring_controller_with_keyring get_chain_priv_key
starts = refl

-- The emulator once it has fetched the parameters.
abbrev updated : CovenantEmulator toy Chain
updated = record launched { params = some params }

sends :
    submit_covenant_sigs controller (signatures ∷ []) Toy.start
    ≡ (ok (record { tx_hash = "hash"; events = [] }), Toy.start)
unfolding submit_covenant_sigs covenant_msgs must_get_tx_signer get_key_address reliably_send_msgs
sends = refl

splits : delegations_to_batches 10 2 (some delegation ∷ []) ≡ ok ((some delegation ∷ []) ∷ [])
unfolding delegations_to_batches
splits = refl

-- The first tick signs the pending delegation.
ticks_once : tick repeat 10 launched Toy.start ≡ (ok updated, Toy.start)
ticks_once =
    tick_signs_all repeat 10 launched updated Toy.start Toy.start Toy.start Toy.start
      (some delegation ∷ []) (some delegation ∷ []) ((delegation ∷ []) ∷ [])
      (updates launched Toy.start fetches) answers sanitizes splits
      (submitted (signatures ∷ []) (record { tx_hash = "hash"; events = [] })
        (signing (client_controller controller)) sends none_left)

to_updated : Steps repeat 10 (new launched Toy.start) (called updated)
to_updated =
    more (more (to_called launched) (lives (ticker_fires refl) (inl refl) (inl refl)))
      (lives (tick_ends refl ticks_once) (inl refl) (inl refl))

start_serves_example :
    (started : IsStarted machine "pass" Toy.start (new launched Toy.start)) × Deeds
      started.launched.ce started.launched.bc Toy.start Toy.start
start_serves_example =
    start_serves machine "/home" "pass" Toy.start Toy.start (new launched Toy.start) repeat 10
      (called updated) repeat-IsRetry starts to_updated
