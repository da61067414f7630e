-- ===== src/Authority/Approved.antt =====
-- `verify_authority` returns only where every required authority is approved and every signature is
-- used.
use karma_core.Base.{
  ℕ, ◌≡◌, refl, inl, inr, ◌⊎◌, Bool, true, false, ◌||◌, not, Option, none, some, List, [], ◌∷◌,
  Result, ok, Error, guard, Post, Post-bind, arith, Bool-cases, All, or_else, irrelevant_signature,
  invalid_committee_approval, subst, sym, ◌∙◌, ◌>>=◌,
}
use karma_core.Base.Dict.{Dict, lookup, insert, contains}
use karma_core.Authority.Types.{Authority, SignState, Context, Required, member}
use karma_core.Authority.Signing.{has_unused, sign_state, unsigned}
use karma_core.Authority.Verify.{
  approve_all, check_other, check_active, check_owners, verify_required, verify_authority,
  required_of, temp_account, committee_account,
}
use karma_core.Authority.Power.{Signers, Satisfies, IsClosed}
use karma_core.Authority.Tracked.{AnyError, IsTracked}
use karma_core.Authority.Checked.{Named}
use karma_core.Authority.Verified.{
  approved_of-approve_all, contains-unsigned, unmarked-unsigned, all_marked, check_other_lem,
  check_active_lem, check_owners_lem,
}

-- The signers have the keys of the signatures and the approvals that are given to them.
pub record HasApprovals (g : Signers) (sigs active_approvals owner_approvals : List ℕ)
    : Type 0 where
  pub signed : (k : ℕ) → member k sigs ≡ true → g.keys k ≡ true
  pub active_approved : (id : ℕ) → member id active_approvals ≡ true → g.accounts id ≡ true
  pub owner_approved : (id : ℕ) → member id owner_approvals ≡ true → g.accounts id ≡ true
  pub temp : g.accounts temp_account ≡ true

-- What is required of the signers: by the operations' own authorities, by the active and by the owner
-- authorities of the accounts; and every signature is of a key that some authority names.
pub record IsApproved (g : Signers) (named : ℕ → Bool) (get_owner : ℕ → Option Authority)
    (required : Required) (sigs owner_approvals : List ℕ) : Type 0 where
  pub other_satisfied : All (λ auth. Satisfies g (some auth)) required.other
  pub active_satisfied :
      All (λ id. (g.accounts id ≡ true) ⊎ Satisfies g (get_owner id)) required.active
  pub owner_satisfied :
      All (λ id. (member id owner_approvals ≡ true) ⊎ Satisfies g (get_owner id)) required.owner
  pub all_named : (k : ℕ) → member k sigs ≡ true → named k ≡ true

module _ (cx : Context) (g : Signers) (named : ℕ → Bool) (sigs : List ℕ)
    (get_owner : ℕ → Option Authority) where
  start_approved :
      (aa oa : List ℕ) (id : ℕ)
      → contains id (approve_all oa (approve_all aa (sign_state sigs temp_account))).approved_by
        ≡ true
      → (member id oa ≡ true) ⊎ ((member id aa ≡ true) ⊎ (id ≡ temp_account))
  unfolding sign_state lookup insert
  start_approved aa oa id h = elim (Bool-cases (member id oa)) [
    | inl e ↦ inl e
    | inr e ↦ elim (Bool-cases (member id aa)) [
      | inl f ↦ inr (inl f)
      | inr f ↦ inr (
          inr (
            ground (
              arith,
              approved_of-approve_all id oa (approve_all aa (sign_state sigs temp_account)),
              approved_of-approve_all id aa (sign_state sigs temp_account),
            )))
    ]
  ]

  approve_all_keeps :
      (ids : List ℕ) (s : SignState)
      → ((approve_all ids s).provided_signatures ≡ s.provided_signatures)
        × ((approve_all ids s).provided_address_sigs ≡ s.provided_address_sigs)
        × ((approve_all ids s).available_address_sigs ≡ s.available_address_sigs)
  unfolding approve_all
  approve_all_keeps [] s = (refl, refl, refl)
  approve_all_keeps (x ∷ ids) s = approve_all_keeps ids _

  abbrev start : List ℕ → List ℕ → SignState
  start aa oa = approve_all oa (approve_all aa (sign_state sigs temp_account))

  start_keeps :
      (aa oa : List ℕ)
      → ((start aa oa).provided_signatures ≡ unsigned sigs)
        × ((start aa oa).provided_address_sigs ≡ none)
        × ((start aa oa).available_address_sigs ≡ none)
  unfolding sign_state
  start_keeps aa oa =
      let (a, b, c) = approve_all_keeps oa (approve_all aa (sign_state sigs temp_account)) in
      let (d, e, f) = approve_all_keeps aa (sign_state sigs temp_account) in (a ∙ d, b ∙ e, c ∙ f)

  no_entry : (o : Option (Dict ℕ)) (a : ℕ) {k : ℕ} → o ≡ none → lookup a (or_else o []) ≡ some k → ⊥
  unfolding lookup
  no_entry none a e h = ground arith
  no_entry (some m) a e h = ground arith

  start-IsTracked :
      (aa oa : List ℕ) → HasApprovals g sigs aa oa → IsTracked cx g named sigs (start aa oa)
  start-IsTracked aa oa ha =
      let (p, q, r) = start_keeps aa oa in
      record {
        provided = λ k h.
            ha.signed k (sym (contains-unsigned k sigs) ∙ subst (λ m. contains k m ≡ true) p h);
        approved = λ id h. elim (start_approved aa oa id h) [
          | inl e ↦ ha.owner_approved id e
          | inr (inl e) ↦ ha.active_approved id e
          | inr (inr e) ↦ subst (λ j. g.accounts j ≡ true) (sym e) ha.temp
        ];
        marked = λ k h. absurd (unmarked-unsigned k sigs (subst (λ m. lookup k m ≡ some true) p h));
        kept = λ k h. subst (λ m. contains k m ≡ true) (sym p) (contains-unsigned k sigs ∙ h);
        provided_map = λ a k h. absurd (no_entry (start aa oa).provided_address_sigs a {k = k} q h);
        available_map =
            λ a k h. absurd (no_entry (start aa oa).available_address_sigs a {k = k} r h);
      }

  guard_bind :
      {B : Type 0} (R : B → Type 0) (b : Bool) (e : Error) (m : Result B)
      → Post AnyError R m
      → Post AnyError R (guard b e >>= λ _. m)
  guard_bind R true e m h = h
  guard_bind R false e m h = tt

  used_up :
      (s : SignState) (e : Error) (required : Required) (oa : List ℕ)
      → IsTracked cx g named sigs s
      → All (λ auth. Satisfies g (some auth)) required.other
      → All (λ id. (g.accounts id ≡ true) ⊎ Satisfies g (get_owner id)) required.active
      → All (λ id. (member id oa ≡ true) ⊎ Satisfies g (get_owner id)) required.owner
      → Post AnyError
          (λ _. IsApproved g named get_owner required sigs oa)
          (guard (not (has_unused s.provided_signatures)) e)
  used_up s e required oa t x y z = elim (Bool-cases (has_unused s.provided_signatures)) [
    | inl u ↦ rw (u, Post) tt
    | inr u ↦
        rw (u, Post)
          (record {
            other_satisfied = x;
            active_satisfied = y;
            owner_satisfied = z;
            all_named = λ k h. t.marked k (all_marked k s.provided_signatures u (t.kept k h));
          })
  ]

  module _ (closed : IsClosed cx g)
      (own : (k : ℕ) → contains k cx.available_keys ≡ true → g.keys k ≡ true)
      (actives : (id : ℕ) → Named cx g named sigs (cx.get_active id))
      (owners : (id : ℕ) → Named cx g named sigs (get_owner id)) where
    verify_required_lem :
        (required : Required) (allow : Bool) (aa oa : List ℕ)
        → HasApprovals g sigs aa oa
        → All (λ auth. Named cx g named sigs (some auth)) required.other
        → Post AnyError
            (λ _. IsApproved g named get_owner required sigs oa)
            (verify_required cx get_owner required sigs allow aa oa)
    unfolding verify_required
    verify_required_lem required allow aa oa ha n =
        guard_bind (λ _. IsApproved g named get_owner required sigs oa)
          (allow || not (member committee_account required.active)) invalid_committee_approval _
          (Post-bind AnyError _ _ (check_other cx get_owner required.other (start aa oa)) _
            (check_other_lem cx g named sigs get_owner closed own actives owners required.other
              (start aa oa) n (start-IsTracked aa oa ha))
            (λ s1 (t1, x).
              Post-bind AnyError _ _ (check_active cx get_owner required.active s1) _
                (check_active_lem cx g named sigs get_owner closed own actives owners
                  required.active s1 t1)
                (λ s2 (t2, y).
                  Post-bind AnyError _ _ (check_owners cx get_owner oa required.owner s2) _
                    (check_owners_lem cx g named sigs get_owner closed own actives owners oa
                      required.owner s2 t2)
                    (λ s3 (t3, z). used_up s3 irrelevant_signature required oa t3 x y z))))

-- The context of the `sign_state` of `verify_authority`.
abbrev pub without_keys : Context → Context
without_keys cx = record cx { available_keys = [] }

-- Where `verify_authority` returns, for every set of signers that has the keys of the signatures, the
-- accounts of the approvals, `GRAPHENE_TEMP_ACCOUNT`, the addresses of its keys and each account whose
-- active authority it satisfies: the set reaches the threshold of every other authority required, it
-- has every active account required or reaches the threshold of its owner authority, and it reaches
-- that of every owner account required which is not among the owner approvals. Further, every
-- signature is of a key that is `named`, if every key and every key of an address in the accounts'
-- authorities and in the other authorities required is.
pub verify_authority-IsApproved :
    (cx : Context) (get_owner : ℕ → Option Authority) (ops : List Required) (sigs : List ℕ)
    (allow_committee : Bool) (active_approvals owner_approvals : List ℕ) (g : Signers)
    (named : ℕ → Bool)
    → IsClosed (without_keys cx) g
    → HasApprovals g sigs active_approvals owner_approvals
    → ((id : ℕ) → Named (without_keys cx) g named sigs (cx.get_active id))
    → ((id : ℕ) → Named (without_keys cx) g named sigs (get_owner id))
    → All (λ auth. Named (without_keys cx) g named sigs (some auth)) (required_of ops).other
    → verify_authority cx get_owner ops sigs allow_committee active_approvals owner_approvals
      ≡ ok tt
    → IsApproved g named get_owner (required_of ops) sigs owner_approvals
unfolding verify_authority lookup
verify_authority-IsApproved cx get_owner ops sigs allow aa oa g named closed ha actives owners n e =
    subst (Post AnyError (λ _. IsApproved g named get_owner (required_of ops) sigs oa)) e (
      verify_required_lem (without_keys cx) g named sigs get_owner closed
        (λ k h. absurd (ground arith)) actives owners (required_of ops) allow aa oa ha n)
