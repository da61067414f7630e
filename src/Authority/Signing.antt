-- ===== src/Authority/Signing.antt =====
-- The methods of `sign_state`.
use karma_core.Base.{
  ℕ, zero, suc, ◌+◌, ◌%◌, ◌^◌, Bool, true, false, ◌||◌, Option, none, some, List, [], ◌∷◌, leb,
  if◌then◌else◌, is_some, or_else, Result, ok, err, undefined, ◌>>=◌,
}
use karma_core.Base.Dict.{Dict, lookup, insert, contains, add}
use karma_core.Authority.Types.{Authority, SignState, Context}

abbrev pub mark : ℕ → SignState → SignState
mark k s = record s { provided_signatures = insert k true s.provided_signatures }

module _ (cx : Context) where
  -- `signed_by( const public_key_type& )`
  unfoldable pub signed_by : ℕ → SignState → Bool × SignState
  signed_by k s =
      if contains k s.provided_signatures
      then (true, mark k s)
      else if contains k cx.available_keys
      then (true, mark k s)
      else (false, s)

  unfoldable pub enter : ℕ → List ℕ → Dict ℕ → Dict ℕ
  enter k [] m = m
  enter k (a ∷ as_) m = enter k as_ (insert a k m)

  -- The address of each key, to the key; a later key takes over an address.
  unfoldable pub address_map {ℓ} : {A : Type ℓ} → Dict A → Dict ℕ → Dict ℕ
  unfolding enter
  address_map [] m = m
  address_map ((k, _) ∷ keys) m = address_map keys (enter k (cx.addresses_of k) m)

  -- The maps are made at the first call, from the keys of that time.
  unfoldable pub with_address_sigs : SignState → SignState
  unfolding address_map
  with_address_sigs s = if is_some s.available_address_sigs then s else record s {
    available_address_sigs = some (address_map cx.available_keys []);
    provided_address_sigs = some (address_map s.provided_signatures []);
  }

  -- `signed_by( const address& )`. Where neither map has the address, the last line reads through the
  -- end iterator.
  unfoldable pub signed_by_address : ℕ → SignState → Result (Bool × SignState)
  unfolding with_address_sigs
  signed_by_address a s0 =
      let s = with_address_sigs s0 in
      elim (lookup a (or_else s.provided_address_sigs [])) [
        | some k ↦ ok (true, mark k s)
        | none ↦ elim (lookup a (or_else s.available_address_sigs [])) [
          | none ↦ err undefined
          | some k ↦ ok (if contains k cx.available_keys then (true, mark k s) else (false, s))
        ]
      ]

  -- Where a loop of `check_authority` stands: has it returned true, and the weight so far.
  pub record Tally : Type 0 where
    pub returned : Bool
    pub total : ℕ
    pub state : SignState

  -- `total_weight += w`, a 32-bit sum.
  abbrev pub plus : ℕ → ℕ → ℕ
  plus total w = (total + w) % 2 ^ 32

  unfoldable pub check_keys : ℕ → Dict ℕ → ℕ → SignState → Tally
  unfolding signed_by
  check_keys threshold [] total s = record { returned = false; total = total; state = s }
  check_keys threshold ((k, w) ∷ m) total s =
      let (signed, s') = signed_by k s in
      elim signed [
        | false ↦ check_keys threshold m total s'
        | true ↦ elim (leb threshold (plus total w)) [
          | true ↦ record { returned = true; total = plus total w; state = s' }
          | false ↦ check_keys threshold m (plus total w) s'
        ]
      ]

  unfoldable pub check_addresses : ℕ → Dict ℕ → ℕ → SignState → Result Tally
  check_addresses threshold [] total s = ok (record { returned = false; total = total; state = s })
  check_addresses threshold ((a, w) ∷ m) total s = signed_by_address a s >>= λ (signed, s').
      elim signed [
        | false ↦ check_addresses threshold m total s'
        | true ↦ elim (leb threshold (plus total w)) [
          | true ↦ ok (record { returned = true; total = plus total w; state = s' })
          | false ↦ check_addresses threshold m (plus total w) s'
        ]
      ]

  abbrev pub Check : Type 0
  Check = Option Authority → SignState → Result (Bool × SignState)

  abbrev pub approve : ℕ → SignState → SignState
  approve id s = record s { approved_by = add id s.approved_by }

  -- The nested call for an account that is not yet approved, and what it leaves: none at the
  -- greatest depth.
  abbrev pub try_account : Option Check → ℕ → SignState → Result (Bool × SignState)
  try_account none id s = ok (false, s)
  try_account (some nested) id s = nested (cx.get_active id) s >>= λ (passed, s').
      ok (passed, if passed then approve id s' else s')

  abbrev pub account_passes : Option Check → ℕ → SignState → Result (Bool × SignState)
  account_passes nested id s = elim (contains id s.approved_by) [
    | true ↦ ok (true, s)
    | false ↦ try_account nested id s
  ]

  unfoldable pub check_accounts : Option Check → ℕ → Dict ℕ → ℕ → SignState → Result Tally
  check_accounts nested threshold [] total s =
      ok (record { returned = false; total = total; state = s })
  check_accounts nested threshold ((a, w) ∷ m) total s =
      account_passes nested a s >>= λ (passed, s'). elim passed [
        | false ↦ check_accounts nested threshold m total s'
        | true ↦ elim (leb threshold (plus total w)) [
          | true ↦ ok (record { returned = true; total = plus total w; state = s' })
          | false ↦ check_accounts nested threshold m (plus total w) s'
        ]
      ]

  -- One level of `check_authority`: each loop returns true as soon as the threshold is reached.
  unfoldable pub check_level : Option Check → Check
  check_level nested none s = ok (false, s)
  check_level nested (some auth) s =
      let threshold = auth.weight_threshold in
      let keys = check_keys threshold auth.key_auths 0 s in
      elim keys.returned [
        | true ↦ ok (true, keys.state)
        | false ↦
            check_addresses threshold auth.address_auths keys.total keys.state >>= λ addresses.
            elim addresses.returned [
              | true ↦ ok (true, addresses.state)
              | false ↦
                  check_accounts nested threshold auth.account_auths addresses.total addresses.state
                  >>= λ accounts.
                      ok (accounts.returned || leb threshold accounts.total, accounts.state)
            ]
      ]

  -- `check_authority( const authority*, depth )`, by the levels `max_recursion - depth` still allowed.
  unfoldable pub check_authority : ℕ → Check
  check_authority zero = check_level none
  check_authority (suc levels) = check_level (some (check_authority levels))

  -- `check_authority( account_id_type )`
  unfoldable pub check_account : ℕ → SignState → Result (Bool × SignState)
  check_account id s =
      if contains id s.approved_by
      then ok (true, s)
      else check_authority cx.max_recursion (cx.get_active id) s

-- `remove_unused_signatures`
unfoldable pub used : Dict Bool → Dict Bool
used [] = []
used ((k, true) ∷ m) = (k, true) ∷ used m
used ((k, false) ∷ m) = used m

unfoldable pub has_unused : Dict Bool → Bool
has_unused [] = false
has_unused ((k, true) ∷ m) = has_unused m
has_unused ((k, false) ∷ m) = true

unfoldable pub remove_unused_signatures : SignState → Bool × SignState
remove_unused_signatures s = (
  has_unused s.provided_signatures,
  record s { provided_signatures = used s.provided_signatures },
)

unfoldable pub unsigned : List ℕ → Dict Bool
unsigned [] = []
unsigned (k ∷ ks) = insert k false (unsigned ks)

-- The constructor; `GRAPHENE_TEMP_ACCOUNT` approves everything.
unfoldable pub sign_state : List ℕ → ℕ → SignState
unfolding unsigned
sign_state sigs temp_account = record {
  provided_signatures = unsigned sigs;
  approved_by = add temp_account [];
  available_address_sigs = none;
  provided_address_sigs = none;
}
