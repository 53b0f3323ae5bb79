-- ===== src/Itest/Node/Stopped.antt =====
-- When `Stop` removes the node's directory.
use text.Mathlib.Text.{◌==◌}
use covenant.Prelude.{
  ℕ, ◌≡◌, refl, ap, sym, subst, Bool, true, false, if◌then◌else◌, Option, none, some, Error,
  Outcome, ok, err, panic, running, Panic,
}
use covenant.Prelude.Exec.{pure, ◌>>=◌, continue}
use covenant.Libraries.{Btc}
use covenant.Itest.{Cmd, BabylonNode, NodeOs, Site}
use covenant.Itest.Node.{
  best_effort, deferred_wait, stop_process, stop_signal, stop_cmd, stop, cleanup, shutdown,
}
use covenant.Itest.Handler.{handler_stop}

abbrev pub process_id : Option Cmd → Option ℕ
process_id none = none
process_id (some cmd) = cmd.process

module _ {b : Btc} {S : Type 0} (os : NodeOs b S) where
  -- There is no process, or it is sent the signal, whatever comes of that, and then waited for.
  pub data Awaited (s : S) : Option ℕ → Outcome (Unit {0}) × S → Type 0 where
    not_started : Awaited s none (ok tt, s)
    awaited :
        (pid : ℕ)
        → Awaited s (some pid) (os.wait pid (os.signal pid (stop_signal os os.is_windows) s).1)

  -- The directory, after the file with the process id if one has been written.
  abbrev pub without_files : BabylonNode b → S → S
  without_files n s =
      (os.remove_all n.data_dir (if n.pid_file == "" then s else (os.remove n.pid_file s).1)).1

  -- An error of `Wait` is returned and keeps the files; without one they are removed.
  pub data Stopped (s : Site b S) : Outcome (Unit {0}) × Site b S → Type 0 where
    removed :
        (u : S)
        → Awaited s.outside (process_id s.node.cmd) (ok tt, u)
        → Stopped s (ok tt, record s { outside = without_files s.node u })
    kept :
        (e : Error) (u : S)
        → Awaited s.outside (process_id s.node.cmd) (err e, u)
        → Stopped s (err e, record s { outside = u })
    panicked : (p : Panic) (t : Site b S) → Stopped s (panic p, t)
    unfinished : (t : Site b S) → Stopped s (running, t)

  -- What `Stop` did first, and whether an error keeps the files.
  Waited : Site b S → Outcome (Unit {0}) × S → Type 0
  Waited s (ok tt, u) = Awaited s.outside (process_id s.node.cmd) (ok tt, u)
  Waited s (err e, u) = Awaited s.outside (process_id s.node.cmd) (err e, u)
  Waited s (panic p, u) = Unit
  Waited s (running, u) = Unit

  Awaited-Waited :
      (s : Site b S) (x : Outcome (Unit {0}) × S)
      → Awaited s.outside (process_id s.node.cmd) x
      → Waited s x
  unfolding Waited
  Awaited-Waited s (ok tt, u) h = h
  Awaited-Waited s (err e, u) h = h
  Awaited-Waited s (panic p, u) h = tt
  Awaited-Waited s (running, u) h = tt

  deferred_wait-Waited :
      (s : Site b S) (pid : ℕ) (r : Outcome (Unit {0}))
      → Awaited s.outside
          (process_id s.node.cmd)
          (os.wait pid (os.signal pid (stop_signal os os.is_windows) s.outside).1)
      → Waited s (deferred_wait os pid r (os.signal pid (stop_signal os os.is_windows) s.outside).1)
  unfolding Waited
  deferred_wait-Waited s pid (ok x) h = Awaited-Waited s _ h
  deferred_wait-Waited s pid (err e) h = Awaited-Waited s _ h
  deferred_wait-Waited s pid (panic p) h = tt
  deferred_wait-Waited s pid running h = tt

  stop_process-Waited :
      (s : Site b S) (process : Option ℕ)
      → process_id s.node.cmd ≡ process
      → Waited s (stop_process os process s.outside)
  unfolding Waited
  stop_process-Waited s none h =
      subst (λ p. Awaited s.outside p (ok tt, s.outside)) (sym h) not_started
  stop_process-Waited s (some pid) h =
      let (r, t) = os.signal pid (stop_signal os os.is_windows) s.outside in
      deferred_wait-Waited s pid r
        (subst (λ p. Awaited s.outside p (os.wait pid t)) (sym h) (awaited pid))

  stop_cmd-Waited :
      (s : Site b S) (command : Option Cmd)
      → s.node.cmd ≡ command
      → Waited s (stop_cmd os command s.outside)
  stop_cmd-Waited s none h = stop_process-Waited s none (ap process_id h)
  stop_cmd-Waited s (some cmd) h = stop_process-Waited s cmd.process (ap process_id h)

  module _ (s : Site b S) (u : S) where
    best_effort-Stopped :
        (r : Outcome (Unit {0})) (w x : S)
        → Stopped s (ok tt, record s { outside = w })
        → Stopped s (best_effort (λ v. (r, w)) (record s { outside = x }))
    best_effort-Stopped (ok tt) w x h = h
    best_effort-Stopped (err e) w x h = h
    best_effort-Stopped (panic p) w x h = panicked p _
    best_effort-Stopped running w x h = unfinished _

    then_directory :
        (r : Outcome (Unit {0})) (w : S)
        → Stopped s (ok tt, record s { outside = (os.remove_all s.node.data_dir w).1 })
        → Stopped s (
            (best_effort (λ v. (r, w)) >>= λ x. best_effort (os.remove_all s.node.data_dir))
              (record s { outside = u }))
    then_directory (ok tt) w h = best_effort-Stopped (os.remove_all s.node.data_dir w).0 _ w h
    then_directory (err e) w h = best_effort-Stopped (os.remove_all s.node.data_dir w).0 _ w h
    then_directory (panic p) w h = panicked p _
    then_directory running w h = unfinished _

    file_and_directory :
        (t : Bool)
        → Stopped s (
          ok tt,
          record s {
            outside =
                (os.remove_all s.node.data_dir
                  (if t then u else (os.remove s.node.pid_file u).1)).1;
          },
        )
        → Stopped s (
            ((if t then pure tt else best_effort (os.remove s.node.pid_file)) >>= λ x.
            best_effort (os.remove_all s.node.data_dir))
              (record s { outside = u }))
    file_and_directory true h = best_effort-Stopped (os.remove_all s.node.data_dir u).0 _ u h
    file_and_directory false h = let (r, w) = os.remove s.node.pid_file u in then_directory r w h

    after_stop :
        (r : Outcome (Unit {0}))
        → Waited s (r, u)
        → Stopped s (continue r (λ x. cleanup os) (record s { outside = u }))
    unfolding cleanup Waited
    after_stop (ok tt) h = file_and_directory (s.node.pid_file == "") (removed u h)
    after_stop (err e) h = kept e u h
    after_stop (panic p) h = panicked p _
    after_stop running h = unfinished _

  pub handler_stop-Stopped : (s : Site b S) → Stopped s (handler_stop os s)
  unfolding handler_stop shutdown stop
  handler_stop-Stopped s =
      let (r, u) = stop_cmd os s.node.cmd s.outside in
      after_stop s u r (stop_cmd-Waited s s.node.cmd refl)
