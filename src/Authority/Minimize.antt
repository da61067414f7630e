-- ===== src/Authority/Minimize.antt =====
-- `get_required_signatures` and `minimize_required_signatures`.
use karma_core.Base.{
  ℕ, Bool, true, false, Option, some, List, [], ◌∷◌, ◌==◌, if◌then◌else◌, Result, ok, err, Error,
  ◌>>=◌, missing_other, missing_active, missing_owner,
}
use karma_core.Base.Dict.{Dict, contains}
use karma_core.Authority.Types.{Authority, SignState, Context, Required, insert_sorted}
use karma_core.Authority.Signing.{check_authority, check_account, used, sign_state}
use karma_core.Authority.Verify.{required_of, temp_account, get_signature_keys, verify_authority}

module _ (cx : Context) (get_owner : ℕ → Option Authority) where
  -- The loops over the authorities, whose answers are not looked at.
  unfoldable pub mark_other : List Authority → SignState → Result SignState
  mark_other [] s = ok s
  mark_other (auth ∷ rest) s =
      check_authority cx cx.max_recursion (some auth) s >>= λ (passed, s'). mark_other rest s'

  unfoldable pub mark_owners : List ℕ → SignState → Result SignState
  mark_owners [] s = ok s
  mark_owners (id ∷ ids) s =
      check_authority cx cx.max_recursion (get_owner id) s >>= λ (passed, s'). mark_owners ids s'

  unfoldable pub mark_actives : List ℕ → SignState → Result SignState
  mark_actives [] s = ok s
  mark_actives (id ∷ ids) s = check_account cx id s >>= λ (passed, s'). mark_actives ids s'

  -- The keys among those available, in order.
  unfoldable pub available_of : Dict Bool → List ℕ
  available_of [] = []
  available_of ((k, v) ∷ m) =
      if contains k cx.available_keys then insert_sorted k (available_of m) else available_of m

  unfoldable pub get_required_signatures : (ℕ → ℕ) → List ℕ → List Required → Result (List ℕ)
  unfolding mark_other mark_owners mark_actives available_of
  get_required_signatures recover signatures ops =
      let required = required_of ops in
      do
        keys ← get_signature_keys recover signatures []
        s1 ← mark_other required.other (sign_state keys temp_account)
        s2 ← mark_owners required.owner s1
        s3 ← mark_actives required.active s2
        ok (available_of (used s3.provided_signatures))

unfoldable pub without : ℕ → List ℕ → List ℕ
without k [] = []
without k (x ∷ xs) = if k == x then without k xs else x ∷ without k xs

-- The exceptions that the loop catches.
unfoldable pub is_missing : Error → Bool
is_missing missing_other = true
is_missing missing_active = true
is_missing missing_owner = true
is_missing e = false

-- The loop over the keys; `verify` is `verify_authority` of the operations.
unfoldable pub minimize : (List ℕ → Result (Unit {0})) → List ℕ → List ℕ → Result (List ℕ)
unfolding without is_missing
minimize verify [] result = ok result
minimize verify (k ∷ ks) result = elim (verify (without k result)) [
  | ok u ↦ minimize verify ks (without k result)
  | err e ↦ elim (is_missing e) [
    | true ↦ minimize verify ks (insert_sorted k (without k result))
    | false ↦ err e
  ]
]

unfoldable pub minimize_required_signatures :
    Context → (ℕ → Option Authority) → (ℕ → ℕ) → List ℕ → List Required → Result (List ℕ)
unfolding minimize get_required_signatures
minimize_required_signatures cx get_owner recover signatures ops =
    get_required_signatures cx get_owner recover signatures ops >>= λ s.
    minimize (λ keys. verify_authority cx get_owner ops keys false [] []) s s
