-- ===== src/Authority/Tracked.antt =====
-- What every state of a check keeps true: only keys that can sign are provided, only accounts that are
-- satisfied are approved, and a key is marked only for an authority that names it.
use karma_core.Base.{
  ℕ, ◌≡◌, inl, inr, Bool, true, some, List, [], ◌∷◌, is_some, or_else, Error, arith, Bool-cases,
}
use karma_core.Base.Dict.{Dict, lookup, contains, lookup-insert}
use karma_core.Authority.Types.{SignState, Context, member}
use karma_core.Authority.Signing.{mark, signed_by, with_address_sigs}
use karma_core.Authority.Power.{Signers, IsClosed, lookup-address_map}

abbrev pub AnyError : Error → Type 0
AnyError e = Unit

module _ (cx : Context) (g : Signers) (named : ℕ → Bool) (sigs : List ℕ) where
  -- The address stands for a key that can sign.
  abbrev pub Stands : ℕ → ℕ → Type 0
  Stands a k = (g.keys k ≡ true) × (member a (cx.addresses_of k) ≡ true)

  pub record IsTracked (s : SignState) : Type 0 where
    pub provided : (k : ℕ) → contains k s.provided_signatures ≡ true → g.keys k ≡ true
    pub approved : (id : ℕ) → contains id s.approved_by ≡ true → g.accounts id ≡ true
    pub marked : (k : ℕ) → lookup k s.provided_signatures ≡ some true → named k ≡ true
    pub kept : (k : ℕ) → member k sigs ≡ true → contains k s.provided_signatures ≡ true
    pub provided_map :
        (a k : ℕ) → lookup a (or_else s.provided_address_sigs []) ≡ some k → Stands a k
    pub available_map :
        (a k : ℕ) → lookup a (or_else s.available_address_sigs []) ≡ some k → Stands a k

  -- The keys named by an authority, directly and by an address.
  abbrev pub NamesKeys : Dict ℕ → Type 0
  NamesKeys [] = Unit
  NamesKeys ((k, w) ∷ m) = (named k ≡ true) × NamesKeys m

  abbrev pub NamesAddresses : Dict ℕ → Type 0
  NamesAddresses [] = Unit
  NamesAddresses ((a, w) ∷ m) =
      ((k : ℕ) → member a (cx.addresses_of k) ≡ true → named k ≡ true) × NamesAddresses m

  module _ (closed : IsClosed cx g)
      (own : (k : ℕ) → contains k cx.available_keys ≡ true → g.keys k ≡ true) where
    pub mark-IsTracked :
        (k : ℕ) (s : SignState)
        → g.keys k ≡ true
        → named k ≡ true
        → IsTracked s
        → IsTracked (mark k s)
    mark-IsTracked k s e n t = record {
      provided = λ j h. ground (arith, t.provided j, lookup-insert k j true s.provided_signatures);
      approved = t.approved;
      marked = λ j h. ground (arith, t.marked j, lookup-insert k j true s.provided_signatures);
      kept = λ j h. ground (arith, t.kept j, lookup-insert k j true s.provided_signatures);
      provided_map = t.provided_map;
      available_map = t.available_map;
    }

    -- After a key is asked for, the state is tracked, and a key that is found can sign.
    pub signed_by_lem :
        (k : ℕ) (s : SignState)
        → named k ≡ true
        → IsTracked s
        → IsTracked (signed_by cx k s).1 × ((signed_by cx k s).0 ≡ true → g.keys k ≡ true)
    unfolding signed_by
    signed_by_lem k s n t = elim (Bool-cases (contains k s.provided_signatures)) [
      | inl e ↦ rw e (mark-IsTracked k s (t.provided k e) n t, λ _. t.provided k e)
      | inr e ↦ elim (Bool-cases (contains k cx.available_keys)) [
        | inl f ↦ rw (e, f) (mark-IsTracked k s (own k f) n t, λ _. own k f)
        | inr f ↦ rw (e, f) (t, λ h. absurd (ground arith))
      ]
    ]

    pub with_address_sigs-IsTracked :
        (s : SignState) → IsTracked s → IsTracked (with_address_sigs cx s)
    unfolding with_address_sigs lookup
    with_address_sigs-IsTracked s t = elim (Bool-cases (is_some s.available_address_sigs)) [
      | inl e ↦ rw e t
      | inr e ↦ rw e (record {
        provided = t.provided;
        approved = t.approved;
        marked = t.marked;
        kept = t.kept;
        provided_map = λ a k h. elim (lookup-address_map cx a s.provided_signatures [] {k = k} h) [
          | inl (c, m) ↦ (t.provided k c, m)
          | inr q ↦ absurd (ground arith)
        ];
        available_map = λ a k h. elim (lookup-address_map cx a cx.available_keys [] {k = k} h) [
          | inl (c, m) ↦ (own k c, m)
          | inr q ↦ absurd (ground arith)
        ];
      })
    ]
