-- ===== src/Authority/Power.antt =====
-- The weight that a set of keys, addresses and accounts carries in an authority.
use karma_core.Base.{
  ℕ, ◌+◌, ◌≤◌, ◌≡◌, ◌⊎◌, inl, inr, Bool, true, Option, none, some, List, [], ◌∷◌, if◌then◌else◌,
  arith, Bool-cases,
}
use karma_core.Base.Dict.{Dict, lookup, insert, contains, lookup-insert}
use karma_core.Authority.Types.{Authority, Context, member}
use karma_core.Authority.Signing.{enter, address_map}

abbrev pub power_of : (ℕ → Bool) → Dict ℕ → ℕ
power_of p [] = 0
power_of p ((k, w) ∷ m) = (if p k then w else 0) + power_of p m

-- Sets of keys, addresses and accounts, by their tests.
pub record Signers : Type 0 where
  pub keys : ℕ → Bool
  pub addresses : ℕ → Bool
  pub accounts : ℕ → Bool

abbrev pub power : Signers → Authority → ℕ
power g auth =
    power_of g.keys auth.key_auths
    + power_of g.addresses auth.address_auths
    + power_of g.accounts auth.account_auths

-- The sets reach the authority's threshold.
abbrev pub Satisfies : Signers → Option Authority → Type 0
Satisfies g none = ⊥
Satisfies g (some auth) = auth.weight_threshold ≤ power g auth

-- Every address of a key of the set is in the set, and so is every account whose active authority the
-- set satisfies.
pub record IsClosed (cx : Context) (g : Signers) : Type 0 where
  pub address_of :
      (k a : ℕ) → g.keys k ≡ true → member a (cx.addresses_of k) ≡ true → g.addresses a ≡ true
  pub active : (id : ℕ) → Satisfies g (cx.get_active id) → g.accounts id ≡ true

module _ (cx : Context) where
  lookup-enter :
      (k a : ℕ) (l : List ℕ) (m : Dict ℕ)
      → lookup a (enter cx k l m) ≡ (if member a l then some k else lookup a m)
  unfolding enter member
  lookup-enter k a [] m = ground arith
  lookup-enter k a (b ∷ l) m =
      ground (arith, lookup-enter k a l (insert b k m), lookup-insert b a k m)

  -- An address is entered only for a key that has it.
  pub lookup-address_map {ℓ} :
      {A : Type ℓ} (a : ℕ) (keys : Dict A) (m : Dict ℕ) {k : ℕ}
      → lookup a (address_map cx keys m) ≡ some k
      → ((contains k keys ≡ true) × (member a (cx.addresses_of k) ≡ true)) ⊎ (lookup a m ≡ some k)
  unfolding address_map lookup
  lookup-address_map a [] m e = inr e
  lookup-address_map a ((j, v) ∷ keys) m {k = k} e =
      elim (lookup-address_map a keys (enter cx j (cx.addresses_of j) m) {k = k} e) [
        | inl h ↦ inl (ground arith, h.1)
        | inr h ↦ elim (Bool-cases (member a (cx.addresses_of j))) [
          | inl p ↦ inl (
            ground (arith, lookup-enter j a (cx.addresses_of j) m),
            ground (arith, lookup-enter j a (cx.addresses_of j) m),
          )
          | inr p ↦ inr (ground (arith, lookup-enter j a (cx.addresses_of j) m))
        ]
      ]
