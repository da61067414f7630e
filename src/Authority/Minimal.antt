-- ===== src/Authority/Minimal.antt =====
-- The minimized signatures still verify.
use karma_core.Base.{
  ℕ, ◌≡◌, refl, ◌⊎◌, inl, inr, Bool, true, false, Option, List, [], ◌∷◌, ◌==◌, Result, ok, err,
  Error, Post, Post-bind, Post-weaken, arith, Bool-cases, sym, subst,
}
use karma_core.Base.Dict.{Dict, contains}
use karma_core.Authority.Types.{Authority, Context, Required, insert_sorted, member}
use karma_core.Authority.Signing.{used, sign_state}
use karma_core.Authority.Verify.{required_of, temp_account, get_signature_keys, verify_authority}
use karma_core.Authority.Tracked.{AnyError}
use karma_core.Authority.Minimize.{
  mark_other, mark_owners, mark_actives, available_of, get_required_signatures, without, is_missing,
  minimize, minimize_required_signatures,
}
use karma_core.Authority.Rising.{
  Rising, without-Rising, same_key, put_back, Within, Within-without, Within-refl,
  insert_sorted-Rising,
}

available_of-Rising :
    (cx : Context) (get_owner : ℕ → Option Authority) (m : Dict Bool)
    → Rising (available_of cx get_owner m)
unfolding available_of
available_of-Rising cx get_owner [] = tt
available_of-Rising cx get_owner ((k, v) ∷ m) = elim (Bool-cases (contains k cx.available_keys)) [
  | inl e ↦ rw e (insert_sorted-Rising k _ (available_of-Rising cx get_owner m))
  | inr e ↦ rw e (available_of-Rising cx get_owner m)
]

unit_cases : (m : Result (Unit {0})) → (m ≡ ok tt) ⊎ ((e : Error) × (m ≡ err e))
unit_cases (ok u) = inl refl
unit_cases (err e) = inr (e, refl)

module _ (verify : List ℕ → Result (Unit {0})) (k : ℕ) (ks result : List ℕ) where
  left_out :
      verify (without k result) ≡ ok tt
      → minimize verify (k ∷ ks) result ≡ minimize verify ks (without k result)
  unfolding minimize
  left_out e = ground arith

  put_in :
      {x : Error}
      → verify (without k result) ≡ err x
      → is_missing x ≡ true
      → minimize verify (k ∷ ks) result ≡ minimize verify ks (insert_sorted k (without k result))
  unfolding minimize
  put_in e f = ground arith

  given_up :
      {x : Error}
      → verify (without k result) ≡ err x
      → is_missing x ≡ false
      → minimize verify (k ∷ ks) result ≡ err x
  unfolding minimize
  given_up e f = ground arith

-- Every key of a list is in another.
abbrev pub Part : List ℕ → List ℕ → Type 0
Part r s = (j : ℕ) → member j r ≡ true → member j s ≡ true

-- A key was tried without: of some of the keys that are kept, and it, `verify` missed an authority.
abbrev pub Needed : (List ℕ → Result (Unit {0})) → List ℕ → ℕ → Type 0
Needed verify r k =
    (ks : List ℕ) × (e : Error) × Part r ks
    × (verify (without k ks) ≡ err e)
    × (is_missing e ≡ true)

-- `verify` threw another error for a part of the keys.
abbrev pub Thrown : (List ℕ → Result (Unit {0})) → List ℕ → Error → Type 0
Thrown verify result e =
    (ks : List ℕ) × Part ks result × (verify ks ≡ err e) × (is_missing e ≡ false)

-- What is kept is a part of the keys that verifies, and has none that could be left out.
pub record Minimized (verify : List ℕ → Result (Unit {0})) (result r : List ℕ) : Type 0 where
  pub part : Part r result
  pub verifies : verify r ≡ ok tt
  pub needed : (k : ℕ) → member k r ≡ true → Needed verify r k

-- The keys that are still to be tried are `ks`.
abbrev Tried : (List ℕ → Result (Unit {0})) → List ℕ → List ℕ → Type 0
Tried verify ks result =
    (k : ℕ) → member k result ≡ true → (member k ks ≡ true) ⊎ Needed verify result k

member-of-without :
    (j k : ℕ) (xs : List ℕ)
    → member j (without k xs) ≡ true
    → (member j xs ≡ true) × ((j == k) ≡ false)
unfolding without member
member-of-without j k [] e = absurd (ground arith)
member-of-without j k (x ∷ xs) e = ground (arith, member-of-without j k xs)

Part-without : (k : ℕ) (xs : List ℕ) → Part (without k xs) xs
Part-without k xs j e = (member-of-without j k xs e).0

narrow :
    (verify : List ℕ → Result (Unit {0})) (r s : List ℕ) (k : ℕ)
    → Part r s
    → Needed verify s k
    → Needed verify r k
narrow verify r s k p (ks, e, q, f, g) = (ks, e, λ j m. q j (p j m), f, g)

Tried-without :
    (verify : List ℕ → Result (Unit {0})) (k : ℕ) (ks result : List ℕ)
    → Tried verify (k ∷ ks) result
    → Tried verify ks (without k result)
unfolding member
Tried-without verify k ks result t j e =
    let (m, ne) = member-of-without j k result e in
    elim (t j m) [
      | inl f ↦ inl (ground arith)
      | inr n ↦ inr (narrow verify (without k result) result j (Part-without k result) n)
    ]

Tried-kept :
    (verify : List ℕ → Result (Unit {0})) (k : ℕ) (ks result : List ℕ) (x : Error)
    → verify (without k result) ≡ err x
    → is_missing x ≡ true
    → Tried verify (k ∷ ks) result
    → Tried verify ks result
unfolding member
Tried-kept verify k ks result x e f t j m = elim (t j m) [
  | inr n ↦ inr n
  | inl g ↦ elim (Bool-cases (j == k)) [
    | inl z ↦ inr (subst (Needed verify result) (sym (same_key j k z)) (result, x, λ i h. h, e, f))
    | inr z ↦ inl (ground arith)
  ]
]

minimize-Minimized :
    (verify : List ℕ → Result (Unit {0})) (ks result : List ℕ)
    → Rising ks
    → Rising result
    → Within ks result
    → Tried verify ks result
    → verify result ≡ ok tt
    → Post (Thrown verify result) (Minimized verify result) (minimize verify ks result)
unfolding minimize member
minimize-Minimized verify [] result a r w t v = record {
  part = λ j e. e;
  verifies = v;
  needed = λ k e. elim (t k e) [ inl f ↦ absurd (ground arith) | inr n ↦ n ];
}
minimize-Minimized verify (k ∷ ks) result (a, as_) r (m, w) t v =
    elim (unit_cases (verify (without k result))) [
      | inl e ↦
          let p = Part-without k result in
          let n =
            minimize-Minimized verify ks (without k result) as_ (without-Rising k result r)
              (Within-without k ks result a w) (Tried-without verify k ks result t) e in
          rw (left_out verify k ks result e) (
            Post-weaken (Thrown verify (without k result)) (Thrown verify result)
              (Minimized verify (without k result)) (Minimized verify result)
              (minimize verify ks (without k result))
              (λ x (l, q, f, g). (l, λ j z. p j (q j z), f, g))
              (λ s n. record {
                part = λ j z. p j (n.part j z);
                verifies = n.verifies;
                needed = n.needed;
              })
              n)
      | inr (x, e) ↦ elim (Bool-cases (is_missing x)) [
        | inl f ↦
            rw (put_in verify k ks result {x = x} e f, put_back k result r m)
              (minimize-Minimized verify ks result as_ r w (Tried-kept verify k ks result x e f t)
                v)
        | inr f ↦
            rw (given_up verify k ks result {x = x} e f)
              (without k result, Part-without k result, e, f)
      ]
    ]

anything : {A : Type 0} (m : Result A) → Post AnyError (λ _. Unit {0}) m
anything (ok a) = tt
anything (err e) = tt

required-Rising :
    (cx : Context) (get_owner : ℕ → Option Authority) (recover : ℕ → ℕ) (signatures : List ℕ)
    (ops : List Required)
    → Post AnyError Rising (get_required_signatures cx get_owner recover signatures ops)
unfolding get_required_signatures
required-Rising cx get_owner recover signatures ops =
    Post-bind AnyError _ Rising (get_signature_keys recover signatures []) _ (anything _) λ keys _.
      Post-bind AnyError _ Rising
        (mark_other cx get_owner (required_of ops).other (sign_state keys temp_account)) _
        (anything _)
        λ s1 _.
          Post-bind AnyError _ Rising (mark_owners cx get_owner (required_of ops).owner s1) _
            (anything _)
            λ s2 _.
              Post-bind AnyError _ Rising (mark_actives cx get_owner (required_of ops).active s2) _
                (anything _) λ s3 _. available_of-Rising cx get_owner (used s3.provided_signatures)

-- Where the signatures that `get_required_signatures` finds verify, `minimize_required_signatures`
-- returns a part of them that verifies, and of which each was needed: with some keys that include all
-- that are returned, less that one, `verify_authority` missed an authority. Or it throws another error
-- than that of a missing authority, which `verify_authority` threw for a part of the signatures.
pub verify_authority-minimize_required_signatures :
    (cx : Context) (get_owner : ℕ → Option Authority) (recover : ℕ → ℕ) (signatures : List ℕ)
    (ops : List Required) {keys : List ℕ}
    → get_required_signatures cx get_owner recover signatures ops ≡ ok keys
    → verify_authority cx get_owner ops keys false [] [] ≡ ok tt
    → Post
        (Thrown (λ ks. verify_authority cx get_owner ops ks false [] []) keys)
        (Minimized (λ ks. verify_authority cx get_owner ops ks false [] []) keys)
        (minimize_required_signatures cx get_owner recover signatures ops)
unfolding minimize_required_signatures
verify_authority-minimize_required_signatures cx get_owner recover signatures ops {keys = keys} e
      v =
    let r = subst (Post AnyError Rising) e (required-Rising cx get_owner recover signatures ops) in
    rw e (
      minimize-Minimized (λ ks. verify_authority cx get_owner ops ks false [] []) keys keys r r
        (Within-refl keys) (λ k m. inl m) v)
