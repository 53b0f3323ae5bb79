-- ===== src/Testutil/Generated.antt =====
-- What the generated values are like.
use covenant.Prelude.{
  ℕ, zero, suc, ◌+◌, ◌*◌, ◌≤◌, ◌<◌, ◌≡◌, refl, ap, sym, ◌∙◌, subst, List, [], ◌∷◌, ◌++◌, length,
  length-append, arith, ok, uint32, uint64, Int.ℤ, Int.int64, Int.pos, Int.negsuc,
}
use covenant.Prelude.Results.{ok-injective}
use covenant.Prelude.Exec.{lift, continue, Returns, bind-Returns, bind-eq-ok}
use covenant.Libraries.{Btc}
use covenant.Types.Params.{StakingParams}
use covenant.Testutil.{
  Datagen, append_keys, key_loop, gen_btc_public_keys, gen_valid_slashing_rate, params_of,
  gen_random_params, make_slice,
}

-- `RandomInt` is below its bound.
pub record IsDatagen {b : Btc} {R F : Type 0} (d : Datagen b R F) : Type 0 where
  pub random_int_below : (bound n : ℕ) (r s : R) → d.random_int bound r ≡ (ok n, s) → n < bound

-- The generators of numbers, keys and addresses return.
pub record IsWorking {b : Btc} {R F : Type 0} (d : Datagen b R F) : Type 0 where
  pub random_int_returns : (bound : ℕ) → 0 < bound → Returns (d.random_int bound)
  pub key_pair_returns : Returns d.gen_random_btc_key_pair
  pub address_returns : (net : b.NetParams) → Returns (d.gen_random_btc_address net)

-- Parameters for a committee of twice the quorum, and a rate of 10 to 50 percent.
pub record IsValid {b : Btc} {R F : Type 0} (d : Datagen b R F) (p : StakingParams b) : Type 0 where
  pub percent : ℕ
  pub quorum_positive : 1 ≤ p.covenant_quorum
  pub quorum_small : p.covenant_quorum ≤ 5
  pub committee : length p.covenant_pks ≡ 2 * p.covenant_quorum
  pub rate : p.slashing_rate ≡ d.legacy_new_dec_with_prec (pos percent) (pos 2)
  pub percent_from : 10 ≤ percent
  pub percent_to : percent ≤ 50

module _ {b : Btc} {R F : Type 0} (d : Datagen b R F) where
  length-append_keys :
      (n : ℕ) (pks out : List b.PublicKey) (r s : R)
      → append_keys d n pks r ≡ (ok out, s)
      → length out ≡ n + length pks
  length-append_keys zero pks out r s h =
      let e = ap length (sym (ok-injective (ap (λ x. x.0) h))) in omega (arith, e)
  length-append_keys (suc n) pks out r s h =
      let ((priv, pk), u, e, k) = bind-eq-ok d.gen_random_btc_key_pair _ r h in
      omega (arith, length-append_keys n (pks ++ pk ∷ []) out u s k, length-append pks (pk ∷ []))

  pub length-gen_btc_public_keys :
      (n : ℕ) (pks : List b.PublicKey) (r s : R)
      → gen_btc_public_keys d (pos n) r ≡ (ok pks, s)
      → length pks ≡ n
  unfolding gen_btc_public_keys
  length-gen_btc_public_keys n pks r s h = omega (arith, length-append_keys n [] pks r s h)

  int64_small : (n : ℕ) → n < 9223372036854775808 → int64 n ≡ pos n
  int64_small n h = ground arith

  rate_of :
      IsDatagen d
      → (r s : R) (rate : b.LegacyDec) → gen_valid_slashing_rate d r ≡ (ok rate, s)
      → (percent : ℕ) × (rate ≡ d.legacy_new_dec_with_prec (pos percent) (pos 2))
        × (10 ≤ percent)
        × (percent ≤ 50)
  unfolding gen_valid_slashing_rate
  rate_of law r s rate h =
      let (n, u, e, k) = bind-eq-ok (d.random_int 41) _ r h in
      let small = law.random_int_below 41 n r u e in
      let same : uint64 (n + 10) ≡ n + 10 = omega arith in
      (
        n + 10,
        sym (ok-injective (ap (λ x. x.0) k))
            ∙ ap (λ m. d.legacy_new_dec_with_prec m (pos 2))
                (ap int64 same ∙ int64_small (n + 10) (omega arith)),
        omega arith,
        omega arith,
      )

  params_of-IsValid :
      IsDatagen d
      → (q : ℕ) → 1 ≤ q
      → q ≤ 5
      → (r s : R) (p : StakingParams b) → params_of d q (2 * q) r ≡ (ok p, s)
      → IsValid d p
  params_of-IsValid law q from to r s p h =
      let (made, r0, e0, h0) = bind-eq-ok (lift (make_slice d (int64 (2 * q)))) _ r h in
      let (pks, r1, e1, h1) = bind-eq-ok (key_loop d (int64 (2 * q))) _ r0 h0 in
      let (addr, r2, e2, h2) = bind-eq-ok (d.gen_random_btc_address b.sim_net_params) _ r1 h1 in
      let (rate, r3, e3, h3) = bind-eq-ok (gen_valid_slashing_rate d) _ r2 h2 in
      let (percent, rate_is, lo, hi) = rate_of law r2 r3 rate e3 in
      let keys =
        length-append_keys (2 * q) [] pks r0 r1
          (ap (λ m. key_loop d m r0) (sym (int64_small (2 * q) (omega arith))) ∙ e1) in
      let same : uint32 q ≡ q = omega arith in
      subst (λ w. IsValid d w) (ok-injective (ap (λ x. x.0) h3))
        (record {
          percent = percent;
          quorum_positive = omega arith;
          quorum_small = omega arith;
          committee = omega (arith, keys);
          rate = rate_is;
          percent_from = lo;
          percent_to = hi;
        })

  pub gen_random_params-IsValid :
      IsDatagen d
      → (r s : R) (p : StakingParams b) → gen_random_params d r ≡ (ok p, s)
      → IsValid d p
  unfolding gen_random_params
  gen_random_params-IsValid law r s p h =
      let (n, u, e, k) = bind-eq-ok (d.random_int 5) _ r h in
      let small = law.random_int_below 5 n r u e in
      let q = uint64 (n + 1) in
      let same : uint64 (n + 1) ≡ n + 1 = omega arith in
      let twice : uint64 (uint64 (n + 1) * 2) ≡ 2 * q = omega arith in
      params_of-IsValid law q (omega arith) (omega arith) u s p
        (ap (λ m. params_of d q m u) (sym twice) ∙ k)

  append_keys-Returns :
      IsWorking d → (n : ℕ) (pks : List b.PublicKey) → Returns (append_keys d n pks)
  append_keys-Returns law zero pks = λ r. (pks, r, refl)
  append_keys-Returns law (suc n) pks =
      bind-Returns d.gen_random_btc_key_pair _ law.key_pair_returns
        (λ keys. append_keys-Returns law n (pks ++ keys.1 ∷ []))

  key_loop-Returns : IsWorking d → (z : ℤ) → Returns (key_loop d z)
  key_loop-Returns law (pos n) = append_keys-Returns law n []
  key_loop-Returns law (negsuc n) = λ r. ([], r, refl)

  params_of-Returns : IsWorking d → (q n : ℕ) → n < 9223372036854775808 → Returns (params_of d q n)
  unfolding gen_valid_slashing_rate
  params_of-Returns law q n small =
      bind-Returns (lift (make_slice d (int64 n))) _
        (λ r. (tt, r, ap (λ z. (make_slice d z, r)) (int64_small n small)))
        (λ made. bind-Returns (key_loop d (int64 n)) _ (key_loop-Returns law (int64 n)) (λ pks.
          bind-Returns (d.gen_random_btc_address b.sim_net_params) _
            (law.address_returns b.sim_net_params)
            (λ addr.
              bind-Returns (gen_valid_slashing_rate d) _
                (bind-Returns (d.random_int 41) _ (law.random_int_returns 41 (omega arith))
                  (λ m r. (_, r, refl)))
                (λ rate r. (_, r, refl)))))

  -- If the generators of numbers, keys and addresses return, and `RandomInt` stays below its bound,
  -- `GenRandomParams` returns parameters with a quorum from 1 to 5, twice as many covenant keys, and
  -- a slashing rate from 10 to 50 percent.
  pub gen_random_params_returns :
      IsDatagen d
      → IsWorking d
      → (r : R)
      → (p : StakingParams b) × (s : R) × (gen_random_params d r ≡ (ok p, s)) × IsValid d p
  unfolding gen_random_params
  gen_random_params_returns law works r =
      let (n, u, c) = works.random_int_returns 5 (omega arith) r in
      let small = law.random_int_below 5 n r u c in
      let (p, s, k) =
        params_of-Returns works (uint64 (n + 1)) (uint64 (uint64 (n + 1) * 2)) (omega arith) u in
      let e =
        ap (λ x. continue x.0 (λ m. params_of d (uint64 (m + 1)) (uint64 (uint64 (m + 1) * 2))) x.1)
          c
        ∙ k in
      (p, s, e, gen_random_params-IsValid law r s p e)
