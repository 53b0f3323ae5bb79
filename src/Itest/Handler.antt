-- ===== src/Itest/Handler.antt =====
-- `BabylonNodeHandler`, and `baseDir` of itest/utils.go.
pub mod Created
use Prim.Native.String
use covenant.Prelude.{String, Option, none, some, List, [], ◌∷◌, Outcome, ok, err, panic, running}
use covenant.Prelude.Exec.{Exec, pure, lift, ◌>>=◌}
use covenant.Libraries.{Btc}
use covenant.Itest.{Cmd, BabylonNode, NodeOs, Site}
use covenant.Itest.Node.{new_babylon_node, cleanup, shutdown}
use covenant.Itest.Node

module _ {b : Btc} {S : Type 0} (os : NodeOs b S) where
  unfoldable pub base_dir : String → Exec S String
  base_dir pattern = do
    temp_path ← os.temp_dir
    temp_name ← os.mkdir_temp temp_path pattern
    changed ← os.chmod temp_name
    pure temp_name

  abbrev pub node_data_dir : String → String
  node_data_dir dir = os.join (os.join dir "node0") "babylond"

  abbrev pub slashing_addr : String
  slashing_addr = "SZtRT4BySL3o4efdGLh3k7Kny8GAnsBrSW"

  abbrev pub init_testnet_cmd : String → b.Bip340PubKey → Cmd
  init_testnet_cmd test_dir covenant_pk = record {
    name = "babylond";
    args =
        "testnet"
        ∷ "--v=1"
        ∷ String.◌++◌ "--output-dir=" test_dir
        ∷ "--starting-ip-address=192.168.10.2"
        ∷ "--keyring-backend=test"
        ∷ "--chain-id=chain-test"
        ∷ "--additional-sender-account"
        ∷ String.◌++◌ "--slashing-address=" slashing_addr
        ∷ String.◌++◌ "--covenant-pks=" (os.marshal_hex covenant_pk)
        ∷ "--covenant-quorum=1"
        ∷ [];
    stdout = none;
    process = none;
  }

  abbrev pub log_path : String → String
  log_path test_dir = os.join test_dir "babylon.log"

  abbrev pub start_cmd_of : String → Cmd
  start_cmd_of test_dir = record {
    name = "babylond";
    args = "start" ∷ String.◌++◌ "--home=" (node_data_dir test_dir) ∷ "--log_level=debug" ∷ [];
    stdout = some (log_path test_dir);
    process = none;
  }

  -- The deferred removal: a `require.NoError` that fails ends the test with `err` set.
  abbrev pub remove_after : String → Outcome (BabylonNode b) → Exec S (BabylonNode b)
  remove_after test_dir (ok n) = pure n
  remove_after test_dir (err e) = λ s. (err e, (os.remove_all test_dir s).1)
  remove_after test_dir (panic p) = lift (panic p)
  remove_after test_dir running = lift running

  -- From the first command on.
  abbrev pub init_testnet : String → b.Bip340PubKey → Exec S (BabylonNode b)
  init_testnet test_dir covenant_pk = do
    ran ← os.run_cmd (init_testnet_cmd test_dir covenant_pk)
    opened ← os.create (log_path test_dir)
    pure (
        new_babylon_node test_dir (some (start_cmd_of test_dir)) "chain-test" slashing_addr
          covenant_pk)

  abbrev pub with_removal : String → Exec S (BabylonNode b) → Exec S (BabylonNode b)
  with_removal test_dir m s = let (r, t) = m s in remove_after test_dir r t

  -- The handler is the node that it holds.
  unfoldable pub new_babylon_node_handler : b.Bip340PubKey → Exec S (BabylonNode b)
  new_babylon_node_handler covenant_pk = do
    test_dir ← base_dir "zBabylonTest"
    with_removal test_dir (init_testnet test_dir covenant_pk)

  -- The outcome of the cleanup after a start that failed is dropped.
  abbrev pub cleaned_start : Outcome (Unit {0}) → Exec (Site b S) (Unit {0})
  cleaned_start (ok u) = pure tt
  cleaned_start (err e) = λ s. (err e, (cleanup os s).1)
  cleaned_start (panic p) = lift (panic p)
  cleaned_start running = lift running

  unfoldable pub handler_start : Exec (Site b S) (Unit {0})
  handler_start s = let (r, t) = Node.start os s in cleaned_start r t

  unfoldable pub handler_stop : Exec (Site b S) (Unit {0})
  handler_stop = shutdown os

  unfoldable pub get_node_data_dir : BabylonNode b → String
  get_node_data_dir n = node_data_dir n.data_dir

unfoldable pub get_covenant_pk : {b : Btc} → BabylonNode b → b.Bip340PubKey
get_covenant_pk n = n.covenant_pk
