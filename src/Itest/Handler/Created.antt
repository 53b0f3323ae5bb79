-- ===== src/Itest/Handler/Created.antt =====
-- The node that `NewBabylonNodeHandler` makes, and the directory of one that it does not.
use Prim.Native.String
use covenant.Prelude.{
  ◌≡◌, refl, String, none, some, [], ◌∷◌, Error, Panic, Outcome, ok, err, panic, running,
}
use covenant.Prelude.Exec.{Exec, pure, ◌>>=◌, continue}
use covenant.Libraries.{Btc}
use covenant.Itest.{BabylonNode, NodeOs}
use covenant.Itest.Node.{new_babylon_node}
use covenant.Itest.Handler.{
  base_dir, init_testnet, init_testnet_cmd, start_cmd_of, log_path, with_removal,
  new_babylon_node_handler, get_node_data_dir, get_covenant_pk,
}

module _ {b : Btc} {S : Type 0} (os : NodeOs b S) (covenant_pk : b.Bip340PubKey) where
  -- The command `babylond start` over the data of the node, which has not been run, for a key that
  -- the network in that directory was made with.
  pub record IsFresh (dir : String) (n : BabylonNode b) : Type 0 where
    pub in_dir : n.data_dir ≡ dir
    pub not_run : n.pid_file ≡ ""
    pub starts :
        n.cmd
        ≡ some (record {
          name = "babylond";
          args =
              "start" ∷ String.◌++◌ "--home=" (get_node_data_dir os n) ∷ "--log_level=debug" ∷ [];
          stdout = some (os.join n.data_dir "babylon.log");
          process = none;
        })
    pub has_key : get_covenant_pk n ≡ covenant_pk

  pub data Created (s : S) : Outcome (BabylonNode b) × S → Type 0 where
    no_directory :
        (e : Error) (t : S) → base_dir os "zBabylonTest" s ≡ (err e, t) → Created s (err e, t)
    created :
        (dir : String) (t u : S) (n : BabylonNode b)
        → base_dir os "zBabylonTest" s ≡ (ok dir, t)
        → os.run_cmd (init_testnet_cmd os dir covenant_pk) t ≡ (ok tt, u)
        → IsFresh dir n
        → Created s (ok n, (os.create (os.join dir "babylon.log") u).1)
    removed :
        (dir : String) (t u : S) (e : Error)
        → base_dir os "zBabylonTest" s ≡ (ok dir, t)
        → Created s (err e, (os.remove_all dir u).1)
    panicked : (p : Panic) (t : S) → Created s (panic p, t)
    unfinished : (t : S) → Created s (running, t)

  module _ (s : S) (dir : String) (t : S) (h : base_dir os "zBabylonTest" s ≡ (ok dir, t)) where
    from_log : Exec S (BabylonNode b)
    from_log = do
      log_file ← os.create (log_path os dir)
      pure (
          new_babylon_node dir (some (start_cmd_of os dir)) "chain-test"
            "SZtRT4BySL3o4efdGLh3k7Kny8GAnsBrSW" covenant_pk)

    opened :
        (u : S)
        → os.run_cmd (init_testnet_cmd os dir covenant_pk) t ≡ (ok tt, u)
        → (r : Outcome (Unit {0}))
        → Created s (
            with_removal os dir
              (λ v.
                continue r
                  (λ x. pure (
                    new_babylon_node dir
                      (some (start_cmd_of os dir))
                      "chain-test"
                      "SZtRT4BySL3o4efdGLh3k7Kny8GAnsBrSW"
                      covenant_pk))
                  (os.create (log_path os dir) u).1)
              t)
    unfolding new_babylon_node get_node_data_dir get_covenant_pk
    opened u k (ok x) =
        created dir t u _ h k
          (record { in_dir = refl; not_run = refl; starts = refl; has_key = refl })
    opened u k (err d) = removed dir t _ d h
    opened u k (panic p) = panicked p _
    opened u k running = unfinished _

    ran :
        (x : Outcome (Unit {0}) × S)
        → os.run_cmd (init_testnet_cmd os dir covenant_pk) t ≡ x
        → Created s (with_removal os dir (λ v. continue x.0 (λ y. from_log) x.1) t)
    unfolding from_log
    ran (ok x, u) k = opened u k (os.create (log_path os dir) u).0
    ran (err d, u) k = removed dir t u d h
    ran (panic p, u) k = panicked p u
    ran (running, u) k = unfinished u

  made :
      (s : S) (x : Outcome String × S)
      → base_dir os "zBabylonTest" s ≡ x
      → Created s (continue x.0 (λ dir. with_removal os dir (init_testnet os dir covenant_pk)) x.1)
  unfolding from_log
  made s (ok dir, t) h = ran s dir t h (os.run_cmd (init_testnet_cmd os dir covenant_pk) t) refl
  made s (err e, t) h = no_directory e t h
  made s (panic p, t) h = panicked p t
  made s (running, t) h = unfinished t

  pub new_babylon_node_handler-Created :
      (s : S) → Created s (new_babylon_node_handler os covenant_pk s)
  unfolding new_babylon_node_handler
  new_babylon_node_handler-Created s = made s (base_dir os "zBabylonTest" s) refl
