-- ===== src/Itest.antt =====
-- itest/babylon_node_handler.go and itest/utils.go: the Babylon node that the end-to-end tests run as
-- a process of its own. What is printed is left out.
pub mod Node
pub mod Handler
use covenant.Prelude.{ℕ, String, Bool, Option, List, Outcome}
use covenant.Prelude.Exec.{Exec}
use covenant.Libraries.{Btc}

-- `exec.Cmd`: `process` is its field `Process`, by its `Pid`.
pub record Cmd : Type 0 where
  pub name : String
  pub args : List String
  pub stdout : Option String
  pub process : Option ℕ

-- `babylonNode`; `cmd` is a pointer.
pub record BabylonNode (b : Btc) : Type 0 where
  pub cmd : Option Cmd
  pub pid_file : String
  pub data_dir : String
  pub chain_id : String
  pub slashing_addr : String
  pub covenant_pk : b.Bip340PubKey

pub data Signal : Type 0 where
  kill interrupt : Signal

-- Packages os, os/exec and path/filepath, and `MarshalHex` of Babylon's types. `start_cmd` gives the
-- process its id, `signal` and `wait` take it; a file is known by its path, and `print_pid` writes
-- an id and a newline to it.
pub record NodeOs (b : Btc) (S : Type 0) : Type 0 where
  pub is_windows : Bool
  pub join : String → String → String
  pub marshal_hex : b.Bip340PubKey → String
  pub temp_dir : Exec S String
  pub mkdir_temp : String → String → Exec S String
  pub chmod : String → Exec S (Unit {0})
  pub create : String → Exec S (Unit {0})
  pub print_pid : String → ℕ → Exec S (Unit {0})
  pub close : String → Exec S (Unit {0})
  pub remove : String → Exec S (Unit {0})
  pub remove_all : String → Exec S (Unit {0})
  pub run_cmd : Cmd → Exec S (Unit {0})
  pub start_cmd : Cmd → Exec S ℕ
  pub signal : ℕ → Signal → Exec S (Unit {0})
  pub wait : ℕ → Exec S (Unit {0})

-- The node that a method is called on, and everything else.
pub record Site (b : Btc) (S : Type 0) : Type 0 where
  pub node : BabylonNode b
  pub outside : S
