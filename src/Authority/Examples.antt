-- ===== src/Authority/Examples.antt =====
-- Tests of the authority checks, and the theorems about them at an account with an owner.
use karma_core.Base.{
  ℕ, ◌≡◌, refl, Bool, true, false, Option, none, some, List, [], ◌∷◌, ok, err, Result, Post,
  undefined, duplicate_signature, irrelevant_signature, missing_active, inl, inr, ◌==◌, ◌&&◌, leb,
  Bool-cases, if◌then◌else◌, length, map, ◌+◌, ◌≤◌, ◌<◌,
}
use karma_core.Base.Dict.{lookup, insert, erase}
use karma_core.Base.Sums.{count}
use karma_core.Authority.Types.{Authority, Context, Required, member, insert_sorted, insert_all}
use karma_core.Authority.Signing.{
  sign_state, signed_by, signed_by_address, with_address_sigs, address_map, unsigned, check_keys,
  check_addresses, check_accounts, check_level, check_authority, check_account, has_unused, used,
}
use karma_core.Authority.Verify.{
  verify_authority, verify_required, required_of, collect, approve_all, check_other, check_active,
  check_owners, get_signature_keys, temp_account,
}
use karma_core.Authority.Power.{Signers}
use karma_core.Authority.Checked.{Named}
use karma_core.Authority.Approved.{IsApproved, without_keys, verify_authority-IsApproved}
use karma_core.Authority.Minimize.{
  get_required_signatures, minimize_required_signatures, mark_other, mark_owners, mark_actives,
  available_of,
}
use karma_core.Authority.Minimal.{Thrown, Minimized, verify_authority-minimize_required_signatures}
use karma_core.Authority.Keys.{get_signature_keys_lem}

abbrev of_keys : List ℕ → ℕ → Authority
of_keys keys threshold = record {
  weight_threshold = threshold;
  account_auths = [];
  key_auths = map (λ k. (k, 1)) keys;
  address_auths = [];
}

-- Account 10 wants two of the keys 100, 101 and 102; account 11 wants account 10.
abbrev actives : ℕ → Option Authority
actives id =
    if id == 10
    then some (of_keys (100 ∷ 101 ∷ 102 ∷ []) 2)
    else if id == 11
    then some (record {
      weight_threshold = 1;
      account_auths = (10, 1) ∷ [];
      key_auths = [];
      address_auths = [];
    })
    else none

abbrev nobody : ℕ → Option Authority
nobody id = none

abbrev chain : Context
chain = record {
  get_active = actives;
  available_keys = [];
  max_recursion = 2;
  addresses_of = λ k. (k + 1000) ∷ [];
}

abbrev by_11 : List Required
by_11 = record { active = 11 ∷ []; owner = []; other = [] } ∷ []

abbrev verified : List ℕ → Result (Unit {0})
verified sigs = verify_authority chain nobody by_11 sigs false [] []

two_keys : verified (100 ∷ 102 ∷ []) ≡ ok tt
unfolding verify_authority verify_required required_of collect insert_all insert_sorted approve_all
    check_other check_active check_owners sign_state unsigned check_account check_authority
    check_level check_accounts check_addresses check_keys signed_by has_unused lookup insert erase
    member
two_keys = refl

one_key : verified (100 ∷ []) ≡ err missing_active
unfolding verify_authority verify_required required_of collect insert_all insert_sorted approve_all
    check_other check_active check_owners sign_state unsigned check_account check_authority
    check_level check_accounts check_addresses check_keys signed_by has_unused lookup insert erase
    member
one_key = refl

-- The third key is not needed, since the loop stops at the threshold.
three_keys : verified (100 ∷ 101 ∷ 102 ∷ []) ≡ err irrelevant_signature
unfolding verify_authority verify_required required_of collect insert_all insert_sorted approve_all
    check_other check_active check_owners sign_state unsigned check_account check_authority
    check_level check_accounts check_addresses check_keys signed_by has_unused lookup insert erase
    member
three_keys = refl

-- An address of no key at hand.
unknown_address : signed_by_address chain 7 (sign_state [] temp_account) ≡ err undefined
unfolding signed_by_address with_address_sigs address_map sign_state unsigned lookup
unknown_address = refl

-- Everyone.
abbrev all_signers : Signers
all_signers = record { keys = λ k. true; addresses = λ a. true; accounts = λ id. true }

abbrev listed : ℕ → Bool
listed k = leb 100 k && leb k 102

actives-Named :
    (id : ℕ) → Named (without_keys chain) all_signers listed (100 ∷ 102 ∷ []) (actives id)
actives-Named id = elim (Bool-cases (id == 10)) [
  | inl e ↦ rw (e, Named) ((refl, (refl, (refl, tt))), tt)
  | inr e ↦ elim (Bool-cases (id == 11)) [
    | inl f ↦ rw (e, f, Named) (tt, tt)
    | inr f ↦ rw (e, f, Named) tt
  ]
]

verify_authority-IsApproved_example :
    IsApproved all_signers listed nobody (required_of by_11) (100 ∷ 102 ∷ []) []
unfolding required_of collect insert_all insert_sorted member
verify_authority-IsApproved_example =
    verify_authority-IsApproved chain nobody by_11 (100 ∷ 102 ∷ []) false [] [] all_signers listed
      (record { address_of = λ k a h m. refl; active = λ id h. refl })
      (record {
        signed = λ k h. refl;
        active_approved = λ id h. refl;
        owner_approved = λ id h. refl;
        temp = refl;
      })
      actives-Named (λ id. tt) tt two_keys

get_signature_keys_lem_example :
    Post
      (λ e. (e ≡ duplicate_signature) × ((k : ℕ) × (1 < count k (9 ∷ 7 ∷ []))))
      (λ keys.
        ((k : ℕ) → count k (9 ∷ 7 ∷ []) ≤ 1)
        × ((k : ℕ) → member k keys ≡ member k (9 ∷ 7 ∷ []))
        × (length keys ≡ 2))
      (get_signature_keys (λ s. s + 2) (7 ∷ 5 ∷ []) [])
get_signature_keys_lem_example = get_signature_keys_lem (λ s. s + 2) (7 ∷ 5 ∷ [])

test_distinct : get_signature_keys (λ s. s + 2) (7 ∷ 5 ∷ []) [] ≡ ok (7 ∷ 9 ∷ [])
unfolding get_signature_keys member insert_sorted
test_distinct = refl

test_duplicate : get_signature_keys (λ s. s + 2) (7 ∷ 7 ∷ []) [] ≡ err duplicate_signature
unfolding get_signature_keys member insert_sorted
test_duplicate = refl

-- A wallet that has the three keys is asked for two.
abbrev wallet : Context
wallet = record chain { available_keys = (100, tt) ∷ (101, tt) ∷ (102, tt) ∷ [] }

required_keys : get_required_signatures wallet nobody (λ s. s) [] by_11 ≡ ok (100 ∷ 101 ∷ [])
unfolding get_required_signatures get_signature_keys mark_other mark_owners mark_actives
    available_of used required_of collect insert_all insert_sorted sign_state unsigned check_account
    check_authority check_level check_accounts check_addresses check_keys signed_by lookup insert
required_keys = refl

required_verify : verify_authority wallet nobody by_11 (100 ∷ 101 ∷ []) false [] [] ≡ ok tt
unfolding verify_authority verify_required required_of collect insert_all insert_sorted approve_all
    check_other check_active check_owners sign_state unsigned check_account check_authority
    check_level check_accounts check_addresses check_keys signed_by has_unused lookup insert erase
    member
required_verify = refl

verify_authority-minimize_required_signatures_example :
    Post
      (Thrown (λ ks. verify_authority wallet nobody by_11 ks false [] []) (100 ∷ 101 ∷ []))
      (Minimized (λ ks. verify_authority wallet nobody by_11 ks false [] []) (100 ∷ 101 ∷ []))
      (minimize_required_signatures wallet nobody (λ s. s) [] by_11)
verify_authority-minimize_required_signatures_example =
    verify_authority-minimize_required_signatures wallet nobody (λ s. s) [] by_11
      {keys = 100 ∷ 101 ∷ []} required_keys required_verify
