-- ===== src/Itest/Node/Leaked.antt =====
-- What a start of the node does, and a process that runs though the start has failed.
use text.Mathlib.Text.{◌==◌}
use covenant.Prelude.{
  ℕ, ◌≡◌, refl, ap, sym, ◌∙◌, subst, String, Bool, true, false, if◌then◌else◌, Option, none, some,
  Error, Outcome, ok, err, panic, running,
}
use covenant.Prelude.Exec.{Exec, pure, ◌>>=◌, Moves, Moves-bind}
use covenant.Libraries.{Btc}
use covenant.Itest.{Cmd, BabylonNode, NodeOs, Site}
use covenant.Itest.Node.{
  on_outside, set_process, set_pid_file, write_pid, start_process, best_effort, remove_pid_file,
  pid_file_name, start, cleanup,
}
use covenant.Itest.Handler.{cleaned_start, handler_start}

module _ {b : Btc} {S : Type 0} (os : NodeOs b S) where
  -- Any number of calls on files and directories, and no other.
  pub data FileCalls : S → S → Type 0 where
    no_call : {s : S} → FileCalls s s
    by_create : {s t : S} (path : String) → FileCalls (os.create path s).1 t → FileCalls s t
    by_print :
        {s t : S} (path : String) (pid : ℕ)
        → FileCalls (os.print_pid path pid s).1 t
        → FileCalls s t
    by_close : {s t : S} (path : String) → FileCalls (os.close path s).1 t → FileCalls s t
    by_remove : {s t : S} (path : String) → FileCalls (os.remove path s).1 t → FileCalls s t
    by_remove_all : {s t : S} (path : String) → FileCalls (os.remove_all path s).1 t → FileCalls s t

  FileCalls-trans : (s t u : S) → FileCalls s t → FileCalls t u → FileCalls s u
  FileCalls-trans s t u no_call k = k
  FileCalls-trans s t u (by_create path h) k = by_create path (FileCalls-trans _ t u h k)
  FileCalls-trans s t u (by_print path pid h) k = by_print path pid (FileCalls-trans _ t u h k)
  FileCalls-trans s t u (by_close path h) k = by_close path (FileCalls-trans _ t u h k)
  FileCalls-trans s t u (by_remove path h) k = by_remove path (FileCalls-trans _ t u h k)
  FileCalls-trans s t u (by_remove_all path h) k = by_remove_all path (FileCalls-trans _ t u h k)

  -- The node keeps its command, with the process in it.
  abbrev pub Filed : Site b S → Site b S → Type 0
  Filed s t = (t.node.cmd ≡ s.node.cmd) × FileCalls s.outside t.outside

  Filed-refl : (s : Site b S) → Filed s s
  Filed-refl s = (refl, no_call)

  Filed-trans : (s t u : Site b S) → Filed s t → Filed t u → Filed s u
  Filed-trans s t u (e, h) (d, k) = (d ∙ e, FileCalls-trans _ _ _ h k)

  bind-Filed :
      {A B : Type 0} (m : Exec (Site b S) A) (f : A → Exec (Site b S) B)
      → Moves Filed m
      → ((a : A) → Moves Filed (f a))
      → Moves Filed (m >>= f)
  bind-Filed = Moves-bind Filed Filed-refl Filed-trans

  pub write_pid-Filed : (n : BabylonNode b) (pid : ℕ) → Moves Filed (write_pid os n pid)
  write_pid-Filed n pid =
      bind-Filed (on_outside (os.create path)) from_name (λ s. (refl, by_create path no_call))
        (λ u.
          bind-Filed (set_pid_file path) from_print (λ s. (refl, no_call))
            (λ v.
              bind-Filed (on_outside (os.print_pid path pid)) from_close
                (λ s. (refl, by_print path pid no_call)) (λ w s. (refl, by_close path no_call))))
    where
      path : String
      path = pid_file_name os n

      from_close : Unit {0} → Exec (Site b S) (Unit {0})
      from_close u = on_outside (os.close path)

      from_print : Unit {0} → Exec (Site b S) (Unit {0})
      from_print u = on_outside (os.print_pid path pid) >>= from_close

      from_name : Unit {0} → Exec (Site b S) (Unit {0})
      from_name u = set_pid_file path >>= from_print

  remove_pid_file-Filed : (path : String) → Moves Filed (remove_pid_file os path)
  remove_pid_file-Filed path s = test (path == "") s
    where
      test : (t : Bool) → Moves Filed (if t then pure tt else best_effort (os.remove path))
      test true u = (refl, no_call)
      test false u = (refl, by_remove path no_call)

  cleanup-Filed : Moves Filed (cleanup os)
  unfolding cleanup
  cleanup-Filed s =
      bind-Filed (remove_pid_file os s.node.pid_file)
        (λ u. best_effort (os.remove_all s.node.data_dir)) (remove_pid_file-Filed s.node.pid_file)
        (λ u t. (refl, by_remove_all s.node.data_dir no_call)) s

  -- Why a start fails: the process was refused, or it has its id and runs.
  pub data Failed (s : Site b S) (e : Error) (t : Site b S) : Type 0 where
    refused :
        (cmd : Cmd) (u : S)
        → s.node.cmd ≡ some cmd
        → os.start_cmd cmd s.outside ≡ (err e, u)
        → t.node.cmd ≡ some cmd
        → FileCalls u t.outside
        → Failed s e t
    left_running :
        (cmd : Cmd) (pid : ℕ) (u : S)
        → s.node.cmd ≡ some cmd
        → os.start_cmd cmd s.outside ≡ (ok pid, u)
        → t.node.cmd ≡ some (record cmd { process = some pid })
        → FileCalls u t.outside
        → Failed s e t

  cleaned_start-err :
      (r : Outcome (Unit {0})) (u : Site b S) (e : Error) (t : Site b S)
      → cleaned_start os r u ≡ (err e, t)
      → (r ≡ err e) × Filed u t
  cleaned_start-err (ok x) u e t h = cc
  cleaned_start-err (err d) u e t h =
      (ap (λ x. x.0) h, subst (λ w. Filed u w) (ap (λ x. x.1) h) (cleanup-Filed u))
  cleaned_start-err (panic p) u e t h = cc
  cleaned_start-err running u e t h = cc

  start_process-err :
      (s : Site b S) (command : Option Cmd) (e : Error) (u t : Site b S)
      → s.node.cmd ≡ command
      → start_process os s.node command s ≡ (err e, u)
      → Filed u t
      → Failed s e t
  start_process-err s none e u t c h k = cc
  start_process-err s (some cmd) e u t c h k = begun (os.start_cmd cmd s.outside) refl h
    where
      begun :
          (x : Outcome ℕ × S)
          → os.start_cmd cmd s.outside ≡ x
          → ((λ v. (x.0, record s { outside = x.1 })) >>= λ pid.
                (set_process cmd pid >>= λ a. write_pid os s.node pid))
              s
            ≡ (err e, u)
          → Failed s e t
      begun (ok pid, v) d h =
          let began = (set_process cmd pid (record s { outside = v })).1 in
          let moved =
            subst (λ w. Filed began w) (ap (λ x. x.1) h) (write_pid-Filed s.node pid began) in
          let (kept, calls) = Filed-trans began u t moved k in left_running cmd pid v c d kept calls
      begun (err f, v) d h =
          let same = ap (λ x. x.0) h in
          let (kept, calls) = subst (λ w. Filed w t) (sym (ap (λ x. x.1) h)) k in
          refused cmd v c (cc) (kept ∙ c) calls
      begun (panic p, v) d h = cc
      begun (running, v) d h = cc

  -- A start that returns an error: the process was refused, or it has been started, the node has its
  -- id, and from then on there were only calls on files and directories, so that it still runs.
  pub handler_start-Failed :
      (s : Site b S) (e : Error) (t : Site b S) → handler_start os s ≡ (err e, t) → Failed s e t
  unfolding handler_start start
  handler_start-Failed s e t h =
      let (r, k) = cleaned_start-err (start os s).0 (start os s).1 e t h in
      start_process-err s s.node.cmd e (start os s).1 t refl (ap (λ x. (x, (start os s).1)) r) k
