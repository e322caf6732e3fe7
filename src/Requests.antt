-- ===== src/Requests.antt =====
-- What the contract asks of its validator: the stake actions among the promises that the methods of
-- staking-farm/src schedule, against the staked balance that the contract counts.
pub mod Operations
pub mod Staking
pub mod Farming
pub mod Administration
pub mod Calls
use staking_farm.Prelude.{
  ℕ, ◌≡◌, Bool, true, false, Option, none, some, List, [], ◌∷◌, ◌++◌, arith, Bool-cases, inl, inr,
  sym, ◌∙◌, ap, refl,
}
use staking_farm.Env.{Env}
use staking_farm.Contract.{
  Sdk, StakingContract, World, Promise, Action, promise, with_action, and_then, schedule,
}
use staking_farm.Internal.{internal_restake}
use staking_farm.Staking.{restake_if}
use staking_farm.Frame.Staking.{contract-restake}

module _ ⦃sdk : Sdk⦄ where
  abbrev pub Request : Type 0
  Request = Option (ℕ × sdk.PublicKey)

  -- The later of two requests, where there is one.
  abbrev pub or_before : Request → Request → Request
  or_before none before = before
  or_before (some r) before = some r

  unfoldable pub action_request : Action → Request
  action_request (Action.stake amount key) = some (amount, key)
  action_request _ = none

  -- The last stake action of a promise: its amount and its key.
  unfoldable pub request_of : Promise → Request
  unfolding action_request
  request_of (promise id a) = action_request a
  request_of (with_action p a) = or_before (action_request a) (request_of p)
  request_of (and_then p q) = or_before (request_of q) (request_of p)

  -- The last stake action of the promises that have been scheduled.
  unfoldable pub last_request : List Promise → Request
  unfolding request_of
  last_request [] = none
  last_request (p ∷ ps) = or_before (last_request ps) (request_of p)

  or_before_assoc : (a b c : Request) → or_before (or_before a b) c ≡ or_before a (or_before b c)
  or_before_assoc none b c = refl
  or_before_assoc (some r) b c = refl

  last_request-append :
      (ps : List Promise) (p : Promise)
      → last_request (ps ++ p ∷ []) ≡ or_before (request_of p) (last_request ps)
  unfolding last_request
  last_request-append [] p = ground arith
  last_request-append (q ∷ ps) p =
      rw (last_request-append ps p)
        (or_before_assoc (request_of p) (last_request ps) (request_of q))

  pub last_request-schedule :
      (w : World) (p : Promise)
      → last_request (schedule w p).scheduled ≡ or_before (request_of p) (last_request w.scheduled)
  unfolding schedule
  last_request-schedule w p = last_request-append w.scheduled p

  abbrev pub amount_of : Request → Option ℕ
  amount_of none = none
  amount_of (some (amount, _)) = some amount

  -- Whether a request is what the contract wants: nothing staked while it is paused, and otherwise
  -- all that it counts as staked, with its key.
  abbrev pub Agrees : Bool → Request → ℕ → sdk.PublicKey → Type 0
  Agrees true r staked key = amount_of r ≡ some 0
  Agrees false r staked key = r ≡ some (staked, key)

  abbrev pub IsInSync : World → Type 0
  IsInSync w =
      Agrees w.contract.paused (last_request w.scheduled) w.contract.total_staked_balance
        w.contract.stake_public_key

  -- From `w` to `v` no stake was requested, and the contract has not been paused or resumed.
  pub record SameRequest (w v : World) : Type 0 where
    pub requests : last_request v.scheduled ≡ last_request w.scheduled
    pub paused : v.contract.paused ≡ w.contract.paused

  -- Nor has the staked balance or the key changed.
  pub record IsIdle (w v : World) : Type 0 where
    pub same : SameRequest w v
    pub staked : v.contract.total_staked_balance ≡ w.contract.total_staked_balance
    pub key : v.contract.stake_public_key ≡ w.contract.stake_public_key

  pub IsIdle-IsInSync : (w v : World) → IsIdle w v → IsInSync w → IsInSync v
  IsIdle-IsInSync w v i h = rw (i.same.paused, i.same.requests, i.staked, i.key) h

  paused-Agrees :
      (b : Bool) (r : Request) (n : ℕ) (k : sdk.PublicKey)
      → b ≡ true
      → Agrees b r n k
      → amount_of r ≡ some 0
  paused-Agrees true r n k p h = h
  paused-Agrees false r n k p h = cc

  Agrees-paused :
      (b : Bool) (r : Request) (n : ℕ) (k : sdk.PublicKey)
      → b ≡ true
      → amount_of r ≡ some 0
      → Agrees b r n k
  Agrees-paused true r n k p h = h
  Agrees-paused false r n k p h = cc

  Agrees-active :
      (b : Bool) (r : Request) (n : ℕ) (k : sdk.PublicKey)
      → b ≡ false
      → r ≡ some (n, k)
      → Agrees b r n k
  Agrees-active true r n k p h = cc
  Agrees-active false r n k p h = h

  restake_paused : (e : Env) (v : World) → v.contract.paused ≡ true → internal_restake e v ≡ v
  unfolding internal_restake
  restake_paused e v p = ground arith

  restake_active :
      (e : Env) (v : World)
      → v.contract.paused ≡ false
      → last_request (internal_restake e v).scheduled
        ≡ some (v.contract.total_staked_balance, v.contract.stake_public_key)
  unfolding internal_restake request_of
  restake_active e v p = rw p (last_request-append v.scheduled _)

  -- A contract that is not paused asks for what it counts.
  pub restake_anew :
      (e : Env) (v : World) → v.contract.paused ≡ false → IsInSync (internal_restake e v)
  restake_anew e v p =
      let d = v.contract in
      rw (contract-restake e v) (
        Agrees-active d.paused (last_request (internal_restake e v).scheduled)
          d.total_staked_balance d.stake_public_key p (restake_active e v p))

  pub restake-IsInSync :
      (e : Env) (w v : World) → SameRequest w v → IsInSync w → IsInSync (internal_restake e v)
  restake-IsInSync e w v s h =
      let c = w.contract in
      let d = v.contract in
      let n = d.total_staked_balance in
      let k = d.stake_public_key in
      elim (Bool-cases d.paused) [
        | inl p ↦
            let zero_asked =
              paused-Agrees c.paused (last_request w.scheduled) c.total_staked_balance
                c.stake_public_key (sym s.paused ∙ p) h in
            rw (restake_paused e v p) (
              Agrees-paused d.paused (last_request v.scheduled) n k p
                (ap amount_of s.requests ∙ zero_asked))
        | inr p ↦ restake_anew e v p
      ]

  pub restake_if-IsInSync :
      (e : Env) (need : Bool) (w v : World)
      → SameRequest w v
      → (need ≡ false → IsIdle w v)
      → IsInSync w
      → IsInSync (restake_if need e v)
  unfolding restake_if
  restake_if-IsInSync e true w v s i h = restake-IsInSync e w v s h
  restake_if-IsInSync e false w v s i h = IsIdle-IsInSync w v (i refl) h

  -- A promise that stakes nothing leaves the request as it is.
  pub schedule-IsIdle : (w : World) (p : Promise) → request_of p ≡ none → IsIdle w (schedule w p)
  unfolding schedule
  schedule-IsIdle w p h = record {
    same = record {
      requests = last_request-schedule w p ∙ ap (λ r. or_before r (last_request w.scheduled)) h;
      paused = refl;
    };
    staked = refl;
    key = refl;
  }

  pub IsIdle-refl : (w : World) → IsIdle w w
  IsIdle-refl w = ground arith

  pub IsIdle-trans : (w v u : World) → IsIdle w v → IsIdle v u → IsIdle w u
  IsIdle-trans w v u i j = ground arith
