-- ===== src/Views/Farms.antt =====
-- The views of the farms after a deposit of farm tokens.
use staking_farm.Prelude.{
  ℕ, ◌+◌, ◌≤◌, ◌<◌, ◌≡◌, ◌==◌, true, String, List, [], ◌∷◌, ◌++◌, leb, ltb, ap, sym, ◌∙◌,
  if◌then◌else◌, arith,
}
use staking_farm.Machine.{
  ok_injective, ok, bind_ok, assert, add_u64, sub, err_farm_too_early, err_farm_date,
  err_farm_amount_non_zero,
}
use staking_farm.Sdk.{AccountId}
use staking_farm.Env.{Env}
use staking_farm.Farm.{Farm, session_interval, is_active}
use staking_farm.Contract.{Sdk, StakingContract}
use staking_farm.Rewards.{internal_get_farm}
use staking_farm.Farms.{internal_deposit_farm_tokens, assert_amount_per_session, fresh_distribution}
use staking_farm.Views.{get_farm, readable_farm}

module _ ⦃sdk : Sdk⦄ where
  read_pushed :
      (c : StakingContract) (f : Farm) (act : List ℕ) (i : ℕ)
      → get_farm (record c { farms = sdk.farms.push c.farms f; active_farms = act }) i
        ≡ (if i == sdk.farms.len c.farms then ok (readable_farm i f) else get_farm c i)
  unfolding get_farm internal_get_farm
  read_pushed c f act i = ground (arith, sdk.farms.get-push c.farms f i)

  -- A deposit of farm tokens that succeeds starts no earlier than now, lasts more than a session
  -- and is of a positive amount. It creates a farm with the next id, which is among the active
  -- ones, which `get_farm` then shows as it was asked for and active; the other farms are shown as
  -- before.
  pub deposit_creates_farm :
      (e : Env) (c : StakingContract) (token_id : AccountId) (name : String)
      (amount start_date end_date : ℕ) (c' : StakingContract) (i : ℕ)
      → internal_deposit_farm_tokens e c token_id name amount start_date end_date ≡ ok c'
      → let farm_id = sdk.farms.len c.farms in
        (e.block_timestamp ≤ start_date)
        × (start_date + session_interval < end_date)
        × (0 < amount)
        × (c'.active_farms ≡ c.active_farms ++ farm_id ∷ [])
        × (get_farm c' i ≡ (
            if i == farm_id
            then ok (record {
              farm_id = i;
              name = name;
              token_id = token_id;
              amount = amount;
              start_date = start_date;
              end_date = end_date;
              active = true;
            })
            else get_farm c i))
  unfolding internal_deposit_farm_tokens readable_farm is_active fresh_distribution add_u64
  deposit_creates_farm e c token_id name amount start_date end_date c' i h =
      let n = sdk.farms.len c.farms in
      let f : Farm = record {
        name = name;
        token_id = token_id;
        amount = amount;
        start_date = start_date;
        end_date = end_date;
        last_distribution = fresh_distribution amount 0;
      } in
      bind_ok (assert (leb e.block_timestamp start_date) err_farm_too_early) _ h λ _ p h.
        bind_ok (add_u64 start_date session_interval) _ h λ first p1 h.
          bind_ok (assert (ltb first end_date) err_farm_date) _ h λ _ p2 h.
            bind_ok (assert (ltb 0 amount) err_farm_amount_non_zero) _ h λ _ p3 h.
              bind_ok (assert_amount_per_session amount start_date end_date) _ h λ _ p4 h.
                bind_ok (sub (sdk.farms.len (sdk.farms.push c.farms f)) 1) _ h λ last p5 h.
                  let last_eq : last ≡ n = ground (arith, sdk.farms.len-push c.farms f, p5) in
                  let saved : c' ≡ record c {
                    farms = sdk.farms.push c.farms f;
                    active_farms = c.active_farms ++ n ∷ [];
                  } =
                    ok_injective (sym h)
                    ∙ ap
                        (λ m. record c {
                          farms = sdk.farms.push c.farms f;
                          active_farms = c.active_farms ++ m ∷ [];
                        })
                        last_eq in
                  (
                    ground arith,
                    ground (arith, p1, p2),
                    ground arith,
                    ap (λ s. s.active_farms) saved,
                    rw saved (
                        read_pushed c f (c.active_farms ++ n ∷ []) i
                        ∙ ap (λ shown_farm. if i == n then ok shown_farm else get_farm c i)
                            (shown i p3)),
                  )
    where
      shown :
          (n : ℕ) {u : Unit {0}}
          → assert (ltb 0 amount) err_farm_amount_non_zero ≡ ok u
          → readable_farm n (record {
            name = name;
            token_id = token_id;
            amount = amount;
            start_date = start_date;
            end_date = end_date;
            last_distribution = fresh_distribution amount 0;
          })
            ≡ record {
              farm_id = n;
              name = name;
              token_id = token_id;
              amount = amount;
              start_date = start_date;
              end_date = end_date;
              active = true;
            }
      shown n positive = ground arith
