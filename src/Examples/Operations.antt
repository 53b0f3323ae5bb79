-- ===== src/Examples/Operations.antt =====
-- An operation of the end-to-end tests over the toy chain.
use covenant.Prelude.{[], ◌∷◌, Int.pos}
use covenant.Controller.Messages.{create_btc_delegation}
use covenant.Controller.Operations.{create_delegation}
use covenant.Controller.Operations.Single.{Sends, hash_of, create_delegation-Sends}
use covenant.Examples.Toy.{start}
use covenant.Examples.Controller.{controller}

create_delegation-Sends_example :
    Sends controller
      (λ signer. create_btc_delegation (record {
        signer = signer;
        babylon_pk = 5;
        pop = 6;
        btc_pk = 7;
        fp_btc_pk_list = 8 ∷ 9 ∷ [];
        staking_time = 1000;
        staking_value = pos 5000;
        staking_tx = "info";
        slashing_tx = "bb";
        delegator_slashing_sig = 1 ∷ [];
        unbonding_tx = 204 ∷ [];
        unbonding_time = 101;
        unbonding_value = pos 4000;
        unbonding_slashing_tx = "dd";
        delegator_unbonding_slashing_sig = 2 ∷ [];
      }))
      (hash_of controller)
      start
      (create_delegation controller 5 7
        (8 ∷ 9 ∷ [])
        6
        1000
        (pos 5000)
        "info"
        "bb"
        (1 ∷ [])
        (204 ∷ [])
        101
        (pos 4000)
        "dd"
        (2 ∷ [])
        start)
create_delegation-Sends_example =
    create_delegation-Sends controller 5 7 (8 ∷ 9 ∷ []) 6 1000 (pos 5000) "info" "bb" (1 ∷ [])
      (204 ∷ []) 101 (pos 4000) "dd" (2 ∷ []) start
