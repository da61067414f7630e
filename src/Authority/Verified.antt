-- ===== src/Authority/Verified.antt =====
-- What `verify_authority` has established where it returns.
use karma_core.Base.{
  ℕ, ◌≡◌, refl, inl, inr, ◌⊎◌, Bool, true, false, ◌||◌, Option, some, List, [], ◌∷◌, ◌==◌, Result,
  ok, err, Error, Post, Post-bind, Post-map, arith, Bool-cases, All, missing_other, missing_active,
  missing_owner,
}
use karma_core.Base.Dict.{Dict, lookup, contains, add, lookup-insert}
use karma_core.Authority.Types.{Authority, SignState, Context, member}
use karma_core.Authority.Signing.{check_authority, check_account, has_unused, unsigned}
use karma_core.Authority.Verify.{
  approve_all, check_other, check_owner, check_active, check_active_or_owner, owner_passes,
  check_owners,
}
use karma_core.Authority.Power.{Signers, Satisfies, IsClosed}
use karma_core.Authority.Tracked.{AnyError, IsTracked}
use karma_core.Authority.Sound.{Says}
use karma_core.Authority.Checked.{Named, check_authority_lem, check_account_lem}

pub approved_of-approve_all :
    (id : ℕ) (ids : List ℕ) (s : SignState)
    → contains id (approve_all ids s).approved_by ≡ (member id ids || contains id s.approved_by)
unfolding approve_all member
approved_of-approve_all id [] s = refl
approved_of-approve_all id (x ∷ ids) s = ground (
  arith,
  approved_of-approve_all id ids (record s { approved_by = add x s.approved_by }),
  lookup-insert x id tt s.approved_by,
)

pub contains-unsigned : (k : ℕ) (sigs : List ℕ) → contains k (unsigned sigs) ≡ member k sigs
unfolding unsigned member lookup
contains-unsigned k [] = refl
contains-unsigned k (x ∷ sigs) =
    ground (arith, contains-unsigned k sigs, lookup-insert x k false (unsigned sigs))

pub unmarked-unsigned : (k : ℕ) (sigs : List ℕ) → lookup k (unsigned sigs) ≡ some true → ⊥
unfolding unsigned lookup
unmarked-unsigned k [] h = ground arith
unmarked-unsigned k (x ∷ sigs) h = elim (Bool-cases (k == x)) [
  | inl e ↦ ground (arith, lookup-insert x k false (unsigned sigs))
  | inr e ↦ unmarked-unsigned k sigs (ground (arith, lookup-insert x k false (unsigned sigs)))
]

-- Every key is marked where no signature is unused.
pub all_marked :
    (k : ℕ) (m : Dict Bool) → has_unused m ≡ false → contains k m ≡ true → lookup k m ≡ some true
unfolding has_unused lookup
all_marked k [] h c = ground arith
all_marked k ((j, true) ∷ m) h c = ground (arith, all_marked k m)
all_marked k ((j, false) ∷ m) h c = ground arith

module _ (cx : Context) (g : Signers) (named : ℕ → Bool) (sigs : List ℕ)
    (get_owner : ℕ → Option Authority) where
  -- The account's owner authority is satisfied.
  abbrev pub Owned : ℕ → Type 0
  Owned id = Satisfies g (get_owner id)

  -- A loop that requires `P` of every member and leaves a tracked state.
  abbrev pub Ensures : {A : Type 0} → (A → Type 0) → List A → SignState → Type 0
  Ensures P l s = IsTracked cx g named sigs s × All P l

  abbrev If : {A : Type 0} → (A → Type 0) → A → Bool × SignState → Type 0
  If P a (passed, s) = IsTracked cx g named sigs s × (passed ≡ true → P a)

  required_step :
      {A : Type 0} (P : A → Type 0) (a : A) (l : List A) (rest : SignState → Result SignState)
      (e : Error)
      → ((s : SignState) → IsTracked cx g named sigs s → Post AnyError (Ensures P l) (rest s))
      → (q : Bool × SignState) → If P a q
      → Post AnyError (Ensures P (a ∷ l)) (elim (q.0) [ true ↦ rest (q.1) | false ↦ err e ])
  required_step P a l rest e ih (true, s) (t, y) =
      Post-map AnyError (Ensures P l) (Ensures P (a ∷ l)) (rest s) (λ s' (t', z). (t', (y refl, z)))
        (ih s t)
  required_step P a l rest e ih (false, s) (t, y) = tt

  module _ (closed : IsClosed cx g)
      (own : (k : ℕ) → contains k cx.available_keys ≡ true → g.keys k ≡ true)
      (actives : (id : ℕ) → Named cx g named sigs (cx.get_active id))
      (owners : (id : ℕ) → Named cx g named sigs (get_owner id)) where
    pub check_other_lem :
        (l : List Authority) (s : SignState)
        → All (λ auth. Named cx g named sigs (some auth)) l
        → IsTracked cx g named sigs s
        → Post AnyError (Ensures (λ auth. Satisfies g (some auth)) l) (check_other cx get_owner l s)
    unfolding check_other
    check_other_lem [] s n t = (t, tt)
    check_other_lem (auth ∷ rest) s (n, ns) t =
        Post-bind AnyError (If (λ a. Satisfies g (some a)) auth)
          (Ensures (λ a. Satisfies g (some a)) (auth ∷ rest))
          (check_authority cx cx.max_recursion (some auth) s) _
          (check_authority_lem cx g named sigs closed own actives cx.max_recursion (some auth) s n
            t)
          (required_step (λ a. Satisfies g (some a)) auth rest (check_other cx get_owner rest)
            missing_other (λ s' t'. check_other_lem rest s' ns t'))

    check_owner_lem :
        (id : ℕ) (s : SignState)
        → IsTracked cx g named sigs s
        → Post AnyError (If Owned id) (check_owner cx get_owner id s)
    check_owner_lem id s t =
        check_authority_lem cx g named sigs closed own actives cx.max_recursion (get_owner id) s
          (owners id) t

    abbrev pub IsActive : ℕ → Type 0
    IsActive id = (g.accounts id ≡ true) ⊎ Owned id

    or_owner :
        (id : ℕ) (q : Bool × SignState)
        → Says cx g named sigs (g.accounts id) q
        → Post AnyError
            (If IsActive id)
            (elim (q.0) [ true ↦ ok (true, q.1) | false ↦ check_owner cx get_owner id (q.1) ])
    or_owner id (true, s) (t, y) = (t, λ _. inl (y refl))
    or_owner id (false, s) (t, y) =
        Post-map AnyError (If Owned id) (If IsActive id) (check_owner cx get_owner id s)
          (λ q (t', z). (t', λ h. inr (z h))) (check_owner_lem id s t)

    pub check_active_lem :
        (l : List ℕ) (s : SignState)
        → IsTracked cx g named sigs s
        → Post AnyError (Ensures IsActive l) (check_active cx get_owner l s)
    unfolding check_active
    check_active_lem [] s t = (t, tt)
    check_active_lem (id ∷ ids) s t =
        Post-bind AnyError (If IsActive id) (Ensures IsActive (id ∷ ids))
          (check_active_or_owner cx get_owner id s) _
          (Post-bind AnyError (Says cx g named sigs (g.accounts id)) (If IsActive id)
            (check_account cx id s) _ (check_account_lem cx g named sigs closed own actives id s t)
            (or_owner id))
          (required_step IsActive id ids (check_active cx get_owner ids) missing_active
            (check_active_lem ids))

    abbrev pub IsOwner : List ℕ → ℕ → Type 0
    IsOwner approvals id = (member id approvals ≡ true) ⊎ Owned id

    owner_passes_lem :
        (approvals : List ℕ) (id : ℕ) (s : SignState)
        → IsTracked cx g named sigs s
        → Post AnyError (If (IsOwner approvals) id) (owner_passes cx get_owner approvals id s)
    owner_passes_lem approvals id s t = elim (Bool-cases (member id approvals)) [
      | inl e ↦ rw (e, Post) (t, λ _. inl e)
      | inr e ↦
          rw (e, Post)
            (Post-map AnyError (If Owned id) (If (IsOwner approvals) id)
              (check_owner cx get_owner id s) (λ q (t', z). (t', λ h. inr (z h)))
              (check_owner_lem id s t))
    ]

    pub check_owners_lem :
        (approvals l : List ℕ) (s : SignState)
        → IsTracked cx g named sigs s
        → Post AnyError (Ensures (IsOwner approvals) l) (check_owners cx get_owner approvals l s)
    unfolding check_owners
    check_owners_lem approvals [] s t = (t, tt)
    check_owners_lem approvals (id ∷ ids) s t =
        Post-bind AnyError (If (IsOwner approvals) id) (Ensures (IsOwner approvals) (id ∷ ids))
          (owner_passes cx get_owner approvals id s) _ (owner_passes_lem approvals id s t)
          (required_step (IsOwner approvals) id ids (check_owners cx get_owner approvals ids)
            missing_owner (check_owners_lem approvals ids))
