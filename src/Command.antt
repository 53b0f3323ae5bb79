-- ===== src/Command.antt =====
-- The commands of cmd/covd. Their flags are arguments; how the library cli reads them is left out.
pub mod Init
pub mod Key
pub mod Start
pub mod Ini
pub mod Main
use Prim.Native.Char.{Char}
use covenant.Prelude.{String, Error, Outcome}
use covenant.Prelude.Exec.{Exec}
use covenant.Libraries.{Btc}
use covenant.Machine.{World}
use covenant.Config.{Config}
use covenant.Config.Defaults.{BabylonConfig}
use covenant.Config.Network.{ConfigFiles}
use covenant.Keyring.Creation.{KeyringPackage}
use covenant.Controller.Construction.{BbnPackage}

-- `covenantKey` of key.go
pub record CovenantKey : Type 0 where
  pub name : String
  pub public_key : String

-- What the commands take from other packages and from the machine. `default_babylon_config` is what
-- `bbncfg.DefaultBabylonConfig` returns, `zero_config` the zero value of `Config`, and
-- `unicode_lower` the table of `unicode.ToLower`; `print` and `print_error` are `fmt.Printf` of a
-- text and `fmt.Println` of an error, which cannot fail.
pub record Machine (b : Btc) (W : Type 0) : Type 0 where
  pub files : ConfigFiles b (World W)
  pub keyring : KeyringPackage W
  pub bbn : BbnPackage b (World W)
  pub zero_config : Config b
  pub default_babylon_config : BabylonConfig b
  pub unicode_lower : Char → Char
  pub marshal_hex : b.Bip340PubKey → String
  pub marshal_indent : CovenantKey → Outcome String
  pub print : String → World W → World W
  pub print_error : String → Error → World W → World W
  pub intercept : Exec (World W) (Unit {0})
