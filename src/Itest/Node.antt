-- ===== src/Itest/Node.antt =====
-- `newBabylonNode` and the methods of `babylonNode`.
pub mod Stopped
pub mod Leaked
pub mod Cycle
use text.Mathlib.Text.{◌==◌}
use covenant.Prelude.{
  ℕ, String, Bool, true, false, Option, none, some, Outcome, ok, err, panic, running,
  nil_dereference, if◌then◌else◌,
}
use covenant.Prelude.Exec.{Exec, pure, lift, ◌>>=◌}
use covenant.Libraries.{Btc}
use covenant.Itest.{Cmd, BabylonNode, Signal, kill, interrupt, NodeOs, Site}

module _ {b : Btc} where
  unfoldable pub new_babylon_node :
      String → Option Cmd → String → String → b.Bip340PubKey → BabylonNode b
  new_babylon_node data_dir cmd chain_id slashing_addr covenant_pk = record {
    cmd = cmd;
    pid_file = "";
    data_dir = data_dir;
    chain_id = chain_id;
    slashing_addr = slashing_addr;
    covenant_pk = covenant_pk;
  }

module _ {b : Btc} {S : Type 0} where
  -- A call that leaves the node alone.
  abbrev pub on_outside : {A : Type 0} → Exec S A → Exec (Site b S) A
  on_outside m s = let (r, outside) = m s.outside in (r, record s { outside = outside })

  -- Assignments to the node's fields.
  abbrev pub set_process : Cmd → ℕ → Exec (Site b S) (Unit {0})
  set_process cmd pid s =
      (ok tt, record s { node = record s.node { cmd = some (record cmd { process = some pid }) } })

  abbrev pub set_pid_file : String → Exec (Site b S) (Unit {0})
  set_pid_file name s = (ok tt, record s { node = record s.node { pid_file = name } })

  -- An error is logged and dropped.
  abbrev pub best_effort : Exec S (Unit {0}) → Exec (Site b S) (Unit {0})
  best_effort m s = let (r, outside) = m s.outside in (dropped r, record s { outside = outside })
    where
      dropped : Outcome (Unit {0}) → Outcome (Unit {0})
      dropped (err e) = ok tt
      dropped (ok u) = ok tt
      dropped (panic p) = panic p
      dropped running = running

module _ {b : Btc} {S : Type 0} (os : NodeOs b S) where
  abbrev pub pid_file_name : BabylonNode b → String
  pid_file_name n = os.join n.data_dir "config.pid"

  -- From `os.Create` on.
  abbrev pub write_pid : BabylonNode b → ℕ → Exec (Site b S) (Unit {0})
  write_pid n pid = do
    created ← on_outside (os.create (pid_file_name n))
    assigned ← set_pid_file (pid_file_name n)
    printed ← on_outside (os.print_pid (pid_file_name n) pid)
    on_outside (os.close (pid_file_name n))

  abbrev pub start_process : BabylonNode b → Option Cmd → Exec (Site b S) (Unit {0})
  start_process n none = lift (panic nil_dereference)
  start_process n (some cmd) = do
    pid ← on_outside (os.start_cmd cmd)
    assigned ← set_process cmd pid
    write_pid n pid

  unfoldable pub start : Exec (Site b S) (Unit {0})
  start s = start_process s.node s.node.cmd s

  abbrev pub stop_signal : Bool → Signal
  stop_signal true = kill
  stop_signal false = interrupt

  -- The deferred `Wait`, whose error is the one that is returned.
  abbrev pub deferred_wait : ℕ → Outcome (Unit {0}) → Exec S (Unit {0})
  deferred_wait pid (ok u) = os.wait pid
  deferred_wait pid (err e) = os.wait pid
  deferred_wait pid (panic p) = λ s. (panic p, (os.wait pid s).1)
  deferred_wait pid running = lift running

  abbrev pub signal_and_wait : ℕ → Exec S (Unit {0})
  signal_and_wait pid s =
      let (r, t) = os.signal pid (stop_signal os.is_windows) s in deferred_wait pid r t

  abbrev pub stop_process : Option ℕ → Exec S (Unit {0})
  stop_process none = pure tt
  stop_process (some pid) = signal_and_wait pid

  abbrev pub stop_cmd : Option Cmd → Exec S (Unit {0})
  stop_cmd none = pure tt
  stop_cmd (some cmd) = stop_process cmd.process

  unfoldable pub stop : Exec (Site b S) (Unit {0})
  stop s = on_outside (stop_cmd s.node.cmd) s

  abbrev pub remove_pid_file : String → Exec (Site b S) (Unit {0})
  remove_pid_file pid_file = if pid_file == "" then pure tt else best_effort (os.remove pid_file)

  unfoldable pub cleanup : Exec (Site b S) (Unit {0})
  cleanup s =
      (do removed ← remove_pid_file s.node.pid_file; best_effort (os.remove_all s.node.data_dir)) s

  unfoldable pub shutdown : Exec (Site b S) (Unit {0})
  shutdown = do stopped ← stop; cleanup
