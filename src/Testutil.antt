-- ===== src/Testutil.antt =====
-- testutil/datagen.go: the random values that the tests of the emulator start from. `time.Now` and
-- the test's own state, to which the seeds are added, are parameters.
pub mod Generated
use Prim.Native.String
use covenant.Prelude.{
  ℕ, zero, suc, ◌+◌, ◌*◌, String, List, [], ◌∷◌, ◌++◌, errorf, panic_with, Outcome, ok, err, panic,
  uint32, uint64, Int.ℤ, Int.pos, Int.negsuc, Int.int64,
}
use covenant.Prelude.Exec.{Exec, pure, lift, ◌>>=◌}
use covenant.Libraries.{Btc, Bytes}
use covenant.Types.Params.{StakingParams}
use covenant.Controller.Hex.{encode_to_string}

-- Packages testutil/datagen of Babylon, math/rand and cosmossdk.io/math, over the state `R` of a
-- `rand.Rand`, with the tests' state `F`.
pub record Datagen (b : Btc) (R F : Type 0) : Type 0 where
  pub random_int : ℕ → Exec R ℕ
  pub gen_random_byte_array : ℕ → Exec R Bytes
  pub gen_random_btc_key_pair : Exec R (b.PrivateKey × b.PublicKey)
  pub gen_random_btc_address : b.NetParams → Exec R b.Address
  pub new_source : ℤ → R
  pub int63 : R → ℤ × R
  pub fuzz_add : ℤ → F → F
  pub legacy_new_dec_with_prec : ℤ → ℤ → b.LegacyDec
  -- the zero value of `LegacyDec`
  pub zero_dec : b.LegacyDec

module _ {b : Btc} {R F : Type 0} (d : Datagen b R F) where
  unfoldable pub gen_random_hex_str : ℕ → Exec R String
  gen_random_hex_str length = do
    rand_bytes ← d.gen_random_byte_array length
    pure (encode_to_string rand_bytes)

  -- The loop, with the rounds that are left.
  abbrev pub add_seeds : ℕ → R → F → F
  add_seeds zero r f = f
  add_seeds (suc rounds) r f = let (seed, r') = d.int63 r in add_seeds rounds r' (d.fuzz_add seed f)

  unfoldable pub add_random_seeds_to_fuzzer : ℤ → ℕ → F → F
  add_random_seeds_to_fuzzer now num f = add_seeds num (d.new_source now) f

  unfoldable pub gen_valid_slashing_rate : Exec R b.LegacyDec
  gen_valid_slashing_rate = do
    n ← d.random_int 41
    pure (d.legacy_new_dec_with_prec (int64 (uint64 (n + 10))) (pos 2))

  -- `make` with this capacity; how much memory there is is left out.
  abbrev pub make_slice : ℤ → Outcome (Unit {0})
  make_slice (pos n) = ok tt
  make_slice (negsuc n) = panic (panic_with (errorf "makeslice: cap out of range"))

  -- The loop up to `num`, with the keys so far.
  abbrev pub append_keys : ℕ → List b.PublicKey → Exec R (List b.PublicKey)
  append_keys zero pks = pure pks
  append_keys (suc rounds) pks = do
    (priv, cov_pk) ← d.gen_random_btc_key_pair
    append_keys rounds (pks ++ cov_pk ∷ [])

  abbrev pub key_loop : ℤ → Exec R (List b.PublicKey)
  key_loop (pos n) = append_keys n []
  key_loop (negsuc n) = pure []

  unfoldable pub gen_btc_public_keys : ℤ → Exec R (List b.PublicKey)
  gen_btc_public_keys num = do made ← lift (make_slice num); key_loop num

  -- From the threshold on; the number of keys is a `uint64`.
  abbrev pub params_of : ℕ → ℕ → Exec R (StakingParams b)
  params_of cov_threshold cov_num = do
    made ← lift (make_slice (int64 cov_num))
    covenant_pks ← key_loop (int64 cov_num)
    slashing_addr ← d.gen_random_btc_address b.sim_net_params
    slashing_rate ← gen_valid_slashing_rate
    pure (record {
      comfirmation_time_blocks = 10;
      finalization_timeout_blocks = 100;
      min_unbonding_time = 100;
      min_slashing_tx_fee_sat = pos 1;
      covenant_pks = covenant_pks;
      slashing_address = slashing_addr;
      covenant_quorum = uint32 cov_threshold;
      slashing_rate = slashing_rate;
      min_comission_rate = d.zero_dec;
    })

  unfoldable pub gen_random_params : Exec R (StakingParams b)
  gen_random_params = do
    n ← d.random_int 5
    params_of (uint64 (n + 1)) (uint64 (uint64 (n + 1) * 2))
