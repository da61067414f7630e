-- ===== src/Authority/Types.antt =====
-- `authority` (authority.hpp) and `sign_state` (transaction.cpp). Keys, addresses and accounts are
-- numbers, which the code only compares.
use karma_core.Base.{
  ℕ, ◌+◌, Bool, true, false, Option, List, [], ◌∷◌, ltb, ◌==◌, if◌then◌else◌, length,
}
use karma_core.Base.Dict.{Dict, IdSet, insert}

-- A `flat_map` is a `Dict` whose keys rise; `weight_type` has 16 bits.
pub record Authority : Type 0 where
  pub weight_threshold : ℕ
  pub account_auths : Dict ℕ
  pub key_auths : Dict ℕ
  pub address_auths : Dict ℕ

pub record SignState : Type 0 where
  pub provided_signatures : Dict Bool
  pub approved_by : IdSet
  pub available_address_sigs : Option (Dict ℕ)
  pub provided_address_sigs : Option (Dict ℕ)

-- What a `sign_state` refers to and never changes. `addresses_of` lists the five addresses of a key,
-- which are hashes of it, in the order in which the code enters them.
pub record Context : Type 0 where
  pub get_active : ℕ → Option Authority
  pub available_keys : IdSet
  pub max_recursion : ℕ
  pub addresses_of : ℕ → List ℕ

-- What `operation_get_required_authorities` reports of one operation.
pub record Required : Type 0 where
  pub active : List ℕ
  pub owner : List ℕ
  pub other : List Authority

-- `flat_set::insert`
unfoldable pub insert_sorted : ℕ → List ℕ → List ℕ
insert_sorted x [] = x ∷ []
insert_sorted x (y ∷ ys) =
    if ltb x y then x ∷ y ∷ ys else if x == y then y ∷ ys else y ∷ insert_sorted x ys

unfoldable pub insert_all : List ℕ → List ℕ → List ℕ
unfolding insert_sorted
insert_all [] set = set
insert_all (x ∷ xs) set = insert_all xs (insert_sorted x set)

unfoldable pub member : ℕ → List ℕ → Bool
member x [] = false
member x (y ∷ ys) = if x == y then true else member x ys

abbrev pub total_weight : Dict ℕ → ℕ
total_weight [] = 0
total_weight ((_, w) ∷ m) = w + total_weight m

-- `authority::is_impossible`; sums of 16-bit weights stay below 64 bits.
unfoldable pub is_impossible : Authority → Bool
is_impossible a =
    ltb (total_weight a.account_auths + total_weight a.key_auths + total_weight a.address_auths)
      a.weight_threshold

-- `authority::num_auths`
unfoldable pub num_auths : Authority → ℕ
num_auths a = length a.account_auths + length a.key_auths + length a.address_auths

-- `add_authority`, by the kind of member.
unfoldable pub add_key : ℕ → ℕ → Authority → Authority
add_key k w a = record a { key_auths = insert k w a.key_auths }

unfoldable pub add_address : ℕ → ℕ → Authority → Authority
add_address k w a = record a { address_auths = insert k w a.address_auths }

unfoldable pub add_account : ℕ → ℕ → Authority → Authority
add_account k w a = record a { account_auths = insert k w a.account_auths }

-- `authority::clear` leaves the addresses and the threshold.
unfoldable pub clear : Authority → Authority
clear a = record a { account_auths = []; key_auths = [] }
