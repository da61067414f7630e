-- ===== src/Permit/Types.antt =====
-- The objects that the evaluators of withdraw permissions read and write.
use karma_core.Base.{
  ℕ, ◌+◌, ◌-◌, ◌%◌, ◌^◌, Bool, true, false, ◌&&◌, ◌||◌, not, Option, none, some, List, [], ◌∷◌, ltb,
  leb, ◌==◌, if◌then◌else◌, is_some,
}

-- `account_object` and `asset_object`, as far as transfers look at them.
pub record Account : Type 0 where
  pub allowed_assets : Option (List ℕ)
  pub blacklisting_accounts : List ℕ
  pub whitelisting_accounts : List ℕ

pub record AssetObject : Type 0 where
  pub id : ℕ
  pub issuer : ℕ
  pub white_list : Bool
  pub transfer_restricted : Bool
  pub blacklist_authorities : List ℕ
  pub whitelist_authorities : List ℕ

-- `withdraw_permission_object`; the amount and the asset of `withdrawal_limit` are two fields.
pub record Permit : Type 0 where
  pub withdraw_from_account : ℕ
  pub authorized_account : ℕ
  pub limit : ℕ
  pub limit_asset : ℕ
  pub withdrawal_period_sec : ℕ
  pub period_start_time : ℕ
  pub expiration : ℕ
  pub claimed_this_period : ℕ

-- The parts of the chain's state that the evaluators use; `balances` is the index by account and asset.
pub record Chain : Type 0 where
  pub head_block_time : ℕ
  pub block_interval : ℕ
  pub accounts : ℕ → Option Account
  pub assets : ℕ → Option AssetObject
  pub permits : ℕ → Option Permit
  pub next_permit : ℕ
  pub balances : ℕ → ℕ → Option ℕ

unfoldable pub is_in : ℕ → List ℕ → Bool
is_in x [] = false
is_in x (y ∷ ys) = (x == y) || is_in x ys

-- Whether one of the accounts is an authority.
unfoldable pub any_in : List ℕ → List ℕ → Bool
unfolding is_in
any_in [] authorities = false
any_in (id ∷ ids) authorities = is_in id authorities || any_in ids authorities

abbrev pub hardfork_415_time : ℕ
hardfork_415_time = 1446652800

unfoldable pub is_allowed : Option (List ℕ) → ℕ → Bool
unfolding is_in
is_allowed none id = true
is_allowed (some allowed) id = is_in id allowed

-- `detail::_is_authorized_asset`
unfoldable pub slow_check : ℕ → Account → AssetObject → Bool
unfolding is_allowed any_in
slow_check head_block_time acct asset_obj =
    if not (is_allowed acct.allowed_assets asset_obj.id)
    then false
    else if any_in acct.blacklisting_accounts asset_obj.blacklist_authorities
    then false
    else if ltb hardfork_415_time head_block_time
        && (elim asset_obj.whitelist_authorities [ [] ↦ true | x ∷ xs ↦ false ])
    then true
    else any_in acct.whitelisting_accounts asset_obj.whitelist_authorities

unfoldable pub is_authorized_asset : ℕ → Account → AssetObject → Bool
unfolding slow_check
is_authorized_asset head_block_time acct asset_obj =
    if not asset_obj.white_list && not (is_some acct.allowed_assets)
    then true
    else slow_check head_block_time acct asset_obj

-- `available_this_period`: its amount. A time has 32 bits.
unfoldable pub available_this_period : Permit → ℕ → ℕ
available_this_period p current_time =
    if leb ((p.period_start_time + p.withdrawal_period_sec) % 2 ^ 32) current_time
    then p.limit
    else if ltb p.claimed_this_period p.limit
    then p.limit - p.claimed_this_period
    else 0
