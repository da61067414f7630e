-- ===== src/Permit/Examples.antt =====
-- Tests of the permits, and the theorems about them at the second period of a permit.
use karma_core.Base.{◌+◌, ◌≡◌, refl, false, none, some, [], ◌==◌, ◌&&◌, if◌then◌else◌, ok, arith}
use karma_core.Permit.Types.{
  Account, AssetObject, Permit, Chain, available_this_period, is_authorized_asset,
}
use karma_core.Permit.Balances.{get_balance}
use karma_core.Permit.Evaluators.{ClaimOperation, claim_evaluate, claim_apply, advance}
use karma_core.Permit.Claim.{claim_apply-claim_evaluate}

-- 100 an hour, of which 60 were claimed in the first hour.
abbrev hourly : Permit
hourly = record {
  withdraw_from_account = 20;
  authorized_account = 21;
  limit = 100;
  limit_asset = 1;
  withdrawal_period_sec = 3600;
  period_start_time = 1600000000;
  expiration = 1700000000;
  claimed_this_period = 60;
}

abbrev anyone : Account
anyone = record { allowed_assets = none; blacklisting_accounts = []; whitelisting_accounts = [] }

abbrev coin : AssetObject
coin = record {
  id = 1;
  issuer = 9;
  white_list = false;
  transfer_restricted = false;
  blacklist_authorities = [];
  whitelist_authorities = [];
}

abbrev chain : Chain
chain = record {
  head_block_time = 1600004000;
  block_interval = 5;
  accounts = λ id. some anyone;
  assets = λ id. if id == 1 then some coin else none;
  permits = λ id. if id == 0 then some hourly else none;
  next_permit = 1;
  balances = λ a i. if (a == 20) && (i == 1) then some 500 else none;
}

abbrev claim : ClaimOperation
claim = record {
  withdraw_permission = 0;
  withdraw_from_account = 20;
  withdraw_to_account = 21;
  amount = 70;
  asset_id = 1;
}

claim_accepted : claim_evaluate claim chain ≡ ok tt
unfolding claim_evaluate available_this_period get_balance is_authorized_asset
claim_accepted = refl

claim_apply-claim_evaluate_example :
    (d' : Chain) × (claim_apply claim chain ≡ ok d')
    × (get_balance 20 1 d'.balances + 70 ≡ get_balance 20 1 chain.balances)
    × (get_balance 21 1 d'.balances ≡ get_balance 21 1 chain.balances + 70)
    × (d'.permits 0 ≡ some (advance hourly 1600004000 70))
    × (available_this_period (advance hourly 1600004000 70) 1600004000 + 70
        ≡ available_this_period hourly 1600004000)
claim_apply-claim_evaluate_example =
    claim_apply-claim_evaluate claim chain hourly refl (omega arith) (omega arith) (omega arith)
      (λ e. absurd (omega arith)) claim_accepted
