-- ===== src/Command/Init.antt =====
-- `initHome` of cmd/covd/init.go.
pub mod Stored
use covenant.Prelude.{String, Bool, not, ◌&&◌, errorf_text, err, if◌then◌else◌}
use covenant.Prelude.Exec.{Exec, lift, ◌>>=◌}
use covenant.Libraries.{Btc}
use covenant.Machine.{World}
use covenant.Util.{file_exists, make_directory, clean_and_expand_path}
use covenant.Config.Defaults.{default_config_with_home_path}
use covenant.Config.Network.{config_file, log_dir}
use covenant.Command.{Machine}

module _ {b : Btc} {W : Type 0} (m : Machine b W) where
  -- From the first `MakeDirectory` on.
  abbrev pub make_home : String → Exec (World W) (Unit {0})
  make_home home_path = do
    u ← make_directory m.files.os home_path
    v ← make_directory m.files.os (log_dir m.files.os home_path)
    default_config ← lift (default_config_with_home_path m.default_babylon_config home_path)
    m.files.write_file default_config (config_file m.files.os home_path)

  abbrev pub unless_taken : String → Bool → Exec (World W) (Unit {0})
  unless_taken home_path taken =
      if taken
      then lift (err (errorf_text "home path %s already exists" home_path))
      else make_home home_path

  unfoldable pub init_home : String → Bool → Exec (World W) (Unit {0})
  init_home home force = do
    absolute ← m.files.os.abs home
    home_path ← clean_and_expand_path m.files.os absolute
    exists ← file_exists m.files.os home_path
    unless_taken home_path (exists && not force)
