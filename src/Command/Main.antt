-- ===== src/Command/Main.antt =====
-- The flags of the commands of cmd/covd, with the defaults of flags.go, and `main`. The library cli
-- reads the command line, and refuses `create-key` without a key name.
pub mod Used
use covenant.Prelude.{
  String, Bool, Option, none, some, Error, Panic, Outcome, ok, err, panic, running,
}
use covenant.Prelude.Exec.{Exec, pure, ◌>>=◌}
use covenant.Libraries.{Btc}
use covenant.Machine.{World}
use covenant.Service.{Server}
use covenant.Command.{Machine}
use covenant.Command.Init.{init_home}
use covenant.Command.Key.{create_key}
use covenant.Command.Start.{start}

-- A flag that was given, or none.
abbrev pub Flag : Type 0
Flag = Option String

abbrev pub value : String → Flag → String
value default none = default
value default (some text) = text

abbrev pub default_chain_id : String
default_chain_id = "chain-test"

-- `keyring.BackendTest`
abbrev pub default_keyring_backend : String
default_keyring_backend = "test"

abbrev pub default_passphrase : String
default_passphrase = ""

abbrev pub default_hd_path : String
default_hd_path = ""

-- A command with its flags. Those of `create_key_command` are the chain's id, the key's name, the
-- passphrase, the hd path, the backend and the home directory.
pub data Command : Type 0 where
  start_command : (passphrase home : Flag) → Command
  init_command : (home : Flag) → (force : Bool) → Command
  create_key_command :
      (chain_id : Flag) (key_name : String) (passphrase hd_path keyring_backend home : Flag)
      → Command

-- What the process comes to: a server that runs until it is shut down, the status 0, the error that
-- `fatal` prints before it exits with the status 1, a panic, or a run that is not over.
pub data Ending (b : Btc) (W : Type 0) : Type 0 where
  serving : Server b W → Ending b W
  finished : Ending b W
  fatal : Error → Ending b W
  crashed : Panic → Ending b W
  unfinished : Ending b W

module _ {b : Btc} {W : Type 0} (m : Machine b W) (default_covenant_dir : String) where
  -- The three commands, each with the flags that it declares and the function that it runs.
  -- `DefaultCovenantDir` is the default of each home flag.
  unfoldable pub start_action : (passphrase home : Flag) → Exec (World W) (Option (Server b W))
  start_action passphrase home = do
    server ← start m (value default_covenant_dir home) (value default_passphrase passphrase)
    pure (some server)

  unfoldable pub init_action : (home : Flag) → (force : Bool) → Exec (World W) (Option (Server b W))
  init_action home force = do u ← init_home m (value default_covenant_dir home) force; pure none

  unfoldable pub create_key_action :
      (chain_id : Flag) (key_name : String) (passphrase hd_path keyring_backend home : Flag)
      → Exec (World W) (Option (Server b W))
  create_key_action chain_id key_name passphrase hd_path keyring_backend home = do
    u ←
        create_key m (value default_covenant_dir home) (value default_chain_id chain_id) key_name
          (value default_keyring_backend keyring_backend) (value default_passphrase passphrase)
          (value default_hd_path hd_path)
    pure none

  -- `app.Commands`
  unfoldable pub run_command : Command → Exec (World W) (Option (Server b W))
  run_command (start_command passphrase home) = start_action passphrase home
  run_command (init_command home force) = init_action home force
  run_command (create_key_command chain_id key_name passphrase hd_path keyring_backend home) =
      create_key_action chain_id key_name passphrase hd_path keyring_backend home

abbrev pub ending_of : {b : Btc} {W : Type 0} → Outcome (Option (Server b W)) → Ending b W
ending_of (ok none) = finished
ending_of (ok (some server)) = serving server
ending_of (err e) = fatal e
ending_of (panic p) = crashed p
ending_of running = unfinished

module _ {b : Btc} {W : Type 0} (m : Machine b W) (default_covenant_dir : String) where
  unfoldable pub main : Command → World W → Ending b W × World W
  main command w = let (r, w') = run_command m default_covenant_dir command w in (ending_of r, w')
