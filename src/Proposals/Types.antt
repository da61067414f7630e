-- ===== src/Proposals/Types.antt =====
-- Proposals, the operations on them, and the part of the database that they read and write.
use karma_core.Base.{
  ℕ, Bool, true, false, ◌&&◌, not, if◌then◌else◌, ◌==◌, Option, List, [], ◌∷◌, Result, ok, err,
  Error, undefined, guard, assertion, ◌>>◌, map, length,
}
use karma_core.Base.Dict.{Dict, insert}
use karma_core.Authority.{Authority, Context, Required, insert_all, member, verify_authority}

-- An operation, by what other code says of it: the authorities that it requires, whether `validate`
-- accepts it, and whether the visitor of hardfork 429 does.
pub record ProposedOperation : Type 0 where
  pub required : Required
  pub validated : Bool
  pub allowed_before_429 : Bool

-- `proposal_object`; its sets are sorted lists.
pub record Proposal : Type 0 where
  pub expiration_time : ℕ
  pub review_period_time : Option ℕ
  pub operations : List ProposedOperation
  pub required_active_approvals : List ℕ
  pub available_active_approvals : List ℕ
  pub required_owner_approvals : List ℕ
  pub available_owner_approvals : List ℕ
  pub available_key_approvals : List ℕ

-- `World` is all that operations may change and proposals do not read.
pub record Board (World : Type 0) : Type 0 where
  pub proposals : Dict Proposal
  pub next_proposal : ℕ
  pub context : Context
  pub get_owner : ℕ → Option Authority
  pub head_block_time : ℕ
  pub maximum_proposal_lifetime : ℕ
  pub committee_proposal_review_period : ℕ
  pub world : World

pub record CreateOperation : Type 0 where
  pub proposed_ops : List ProposedOperation
  pub expiration_time : ℕ
  pub review_period_seconds : Option ℕ

pub record UpdateOperation : Type 0 where
  pub proposal : ℕ
  pub active_approvals_to_add : List ℕ
  pub active_approvals_to_remove : List ℕ
  pub owner_approvals_to_add : List ℕ
  pub owner_approvals_to_remove : List ℕ
  pub key_approvals_to_add : List ℕ
  pub key_approvals_to_remove : List ℕ

pub record DeleteOperation : Type 0 where
  pub proposal : ℕ
  pub fee_paying_account : ℕ
  pub using_owner_authority : Bool

abbrev pub is_empty : List ℕ → Bool
is_empty [] = true
is_empty (x ∷ xs) = false

-- `flat_set::erase`
unfoldable pub erase_one : ℕ → List ℕ → List ℕ
erase_one x [] = []
erase_one x (y ∷ ys) = let rest = erase_one x ys in if x == y then rest else y ∷ rest

unfoldable pub erase_all : List ℕ → List ℕ → List ℕ
unfolding erase_one
erase_all [] set = set
erase_all (x ∷ xs) set = erase_all xs (erase_one x set)

-- `std::set_difference`
unfoldable pub difference : List ℕ → List ℕ → List ℕ
unfolding member
difference [] set = []
difference (x ∷ xs) set = let rest = difference xs set in if member x set then rest else x ∷ rest

unfoldable pub all_members : List ℕ → List ℕ → Bool
unfolding member
all_members [] set = true
all_members (x ∷ xs) set = let rest = all_members xs set in member x set && rest

unfoldable pub no_members : List ℕ → List ℕ → Bool
unfolding member
no_members [] set = true
no_members (x ∷ xs) set = let rest = no_members xs set in not (member x set) && rest

-- `proposal_update_operation::validate`
unfoldable pub validate_update : UpdateOperation → Result (Unit {0})
unfolding no_members
validate_update o = do
  guard
      (not (
        is_empty o.active_approvals_to_add
        && is_empty o.active_approvals_to_remove
        && is_empty o.owner_approvals_to_add
        && is_empty o.owner_approvals_to_remove
        && is_empty o.key_approvals_to_add
        && is_empty o.key_approvals_to_remove))
      assertion
  guard (no_members o.active_approvals_to_add o.active_approvals_to_remove) assertion
  guard (no_members o.owner_approvals_to_add o.owner_approvals_to_remove) assertion
  guard (no_members o.key_approvals_to_add o.key_approvals_to_remove) assertion

abbrev pub key_entries : List ℕ → Dict ℕ → Dict ℕ
key_entries [] auths = auths
key_entries (k ∷ ks) auths = key_entries ks (insert k 1 auths)

-- The three `get_required_authorities` of an update: the keys make one authority.
unfoldable pub required_of_update : UpdateOperation → Required
unfolding insert insert_all
required_of_update o =
    let keys = key_entries o.key_approvals_to_remove (key_entries o.key_approvals_to_add []) in
    record {
      active = insert_all o.active_approvals_to_remove (insert_all o.active_approvals_to_add []);
      owner = insert_all o.owner_approvals_to_remove (insert_all o.owner_approvals_to_add []);
      other =
          record {
            weight_threshold = length keys;
            account_auths = [];
            key_auths = keys;
            address_auths = [];
          }
          ∷ [];
    }

-- What a `catch` of `fc::exception` catches; nothing that is tried here runs out of fuel.
abbrev pub is_exception : Error → Bool
is_exception undefined = false
is_exception _ = true

-- `proposal_object::is_authorized_to_execute`
unfoldable pub is_authorized_to_execute : {World : Type 0} → Proposal → Board World → Result Bool
unfolding verify_authority
is_authorized_to_execute p d =
    elim (verify_authority d.context d.get_owner (map (λ op. op.required) p.operations)
      p.available_key_approvals true p.available_active_approvals p.available_owner_approvals) [
        | ok x ↦ ok true
        | err e ↦ if is_exception e then ok false else err e
      ]
