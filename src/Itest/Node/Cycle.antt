-- ===== src/Itest/Node/Cycle.antt =====
-- A start of the node, and then a stop.
use covenant.Prelude.{
  ℕ, ◌≡◌, refl, ap, sym, ◌∙◌, subst, String, Option, none, some, Outcome, ok, err, panic, running,
}
use covenant.Prelude.Exec.{Exec, ◌>>=◌, bind-eq-ok}
use covenant.Libraries.{Btc}
use covenant.Itest.{Cmd, BabylonNode, NodeOs, Site}
use covenant.Itest.Node.{
  on_outside, set_process, set_pid_file, write_pid, start_process, pid_file_name, start,
  stop_signal,
}
use covenant.Itest.Handler.{cleaned_start, handler_start, handler_stop}
use covenant.Itest.Node.Leaked.{FileCalls, Filed, write_pid-Filed}
use covenant.Itest.Node.Stopped.{
  Awaited, awaited, not_started, Stopped, removed, kept, panicked, unfinished, process_id,
  without_files, handler_stop-Stopped,
}

module _ {b : Btc} {S : Type 0} (os : NodeOs b S) where
  write_pid-node :
      (n : BabylonNode b) (pid : ℕ) (s t : Site b S)
      → write_pid os n pid s ≡ (ok tt, t)
      → t.node ≡ record s.node { pid_file = pid_file_name os n }
  write_pid-node n pid s t h =
      let (x, u, c, k) = bind-eq-ok (on_outside (os.create path)) from_name s h in
      let (y, v, d, l) =
        bind-eq-ok (on_outside (os.print_pid path pid)) from_close (set_pid_file path u).1 k in
      ap (λ w. w.1.node) (sym l)
      ∙ ap (λ w. w.1.node) (sym d)
      ∙ ap (λ w. record w.1.node { pid_file = path }) (sym c)
    where
      path : String
      path = pid_file_name os n

      from_close : Unit {0} → Exec (Site b S) (Unit {0})
      from_close x = on_outside (os.close path)

      from_name : Unit {0} → Exec (Site b S) (Unit {0})
      from_name x = set_pid_file path >>= λ y. on_outside (os.print_pid path pid) >>= from_close

  -- The process runs, and the node has its id and the file that was written.
  pub data Running (s t : Site b S) : Type 0 where
    runs :
        (cmd : Cmd) (pid : ℕ) (u : S)
        → s.node.cmd ≡ some cmd
        → os.start_cmd cmd s.outside ≡ (ok pid, u)
        → FileCalls os u t.outside
        → t.node ≡ record s.node {
          cmd = some (record cmd { process = some pid });
          pid_file = pid_file_name os s.node;
        }
        → Running s t

  start_process-Running :
      (s : Site b S) (command : Option Cmd) (t : Site b S)
      → s.node.cmd ≡ command
      → start_process os s.node command s ≡ (ok tt, t)
      → Running s t
  start_process-Running s none t c h = cc
  start_process-Running s (some cmd) t c h =
      let (pid, v, d, k) = bind-eq-ok (on_outside (os.start_cmd cmd)) rest s h in
      let began = (set_process cmd pid v).1 in
      let (same, calls) =
        subst (λ w. Filed os began w) (ap (λ x. x.1) k) (write_pid-Filed os s.node pid began) in
      runs cmd pid v.outside c (ap (λ x. (x.0, x.1.outside)) d) calls (
        write_pid-node s.node pid began t k
        ∙ ap
            (λ x. record x.1.node {
              cmd = some (record cmd { process = some pid });
              pid_file = pid_file_name os s.node;
            })
            (sym d))
    where
      rest : ℕ → Exec (Site b S) (Unit {0})
      rest pid = set_process cmd pid >>= λ a. write_pid os s.node pid

  cleaned_start-ok :
      (r : Outcome (Unit {0})) (u t : Site b S)
      → cleaned_start os r u ≡ (ok tt, t)
      → ◌≡◌ {A = Outcome (Unit {0}) × Site b S} (r, u) (ok tt, t)
  cleaned_start-ok (ok tt) u t h = h
  cleaned_start-ok (err d) u t h = cc
  cleaned_start-ok (panic p) u t h = cc
  cleaned_start-ok running u t h = cc

  pub handler_start-Running : (s t : Site b S) → handler_start os s ≡ (ok tt, t) → Running s t
  unfolding handler_start start
  handler_start-Running s t h =
      let (r, u) = start os s in
      start_process-Running s s.node.cmd t refl (cleaned_start-ok r u t h)

  Stopped-removed :
      (s : Site b S) (x : Outcome (Unit {0}) × Site b S) (t : Site b S)
      → Stopped os s x
      → x ≡ (ok tt, t)
      → (u : S) × Awaited os s.outside (process_id s.node.cmd) (ok tt, u)
        × (t.outside ≡ without_files os s.node u)
  Stopped-removed s x t (removed u a) h = (u, a, ap (λ y. y.1.outside) (sym h))
  Stopped-removed s x t (kept e u a) h = cc
  Stopped-removed s x t (panicked p u) h = cc
  Stopped-removed s x t (unfinished u) h = cc

  Awaited-some :
      (s : S) (process : Option ℕ) (x : Outcome (Unit {0}) × S) (pid : ℕ)
      → Awaited os s process x
      → process ≡ some pid
      → os.wait pid (os.signal pid (stop_signal os os.is_windows) s).1 ≡ x
  Awaited-some s p x pid not_started h = cc
  Awaited-some s p x pid (awaited q) h = cc

  -- The process that was started is the one that is signalled and waited for, and then the files
  -- that the node had are removed.
  pub data Ended (s t w : Site b S) : Type 0 where
    ended :
        (cmd : Cmd) (pid : ℕ) (u v : S)
        → os.start_cmd cmd s.outside ≡ (ok pid, u)
        → FileCalls os u t.outside
        → os.wait pid (os.signal pid (stop_signal os os.is_windows) t.outside).1 ≡ (ok tt, v)
        → w.outside ≡ without_files os (record s.node { pid_file = pid_file_name os s.node }) v
        → Ended s t w

  Running-Ended : (s t w : Site b S) → Running s t → handler_stop os t ≡ (ok tt, w) → Ended s t w
  Running-Ended s t w (runs cmd pid u c d calls n) k =
      let (v, a, e) = Stopped-removed t (handler_stop os t) w (handler_stop-Stopped os t) k in
      ended cmd pid u v d calls
        (Awaited-some t.outside (process_id t.node.cmd) (ok tt, v) pid a
          (ap (λ m. process_id m.cmd) n))
        (e ∙ ap (λ m. without_files os m v) n)

  -- After a start that returned nil, a stop that returns nil has sent the signal to the process that
  -- was started, has waited for it, and has then removed the file with its id and the directory;
  -- between the start of the process and the signal there were only calls on files.
  pub stop_after_start :
      (s t w : Site b S)
      → handler_start os s ≡ (ok tt, t)
      → handler_stop os t ≡ (ok tt, w)
      → Ended s t w
  stop_after_start s t w h k = Running-Ended s t w (handler_start-Running s t h) k
