-- ===== src/Authority/Verify.antt =====
-- `verify_authority` and the signature sets of a signed transaction.
use karma_core.Base.{
  ℕ, Bool, true, false, ◌||◌, not, Option, some, List, [], ◌∷◌, ◌++◌, Result, ok, err, guard, ◌>>=◌,
  ◌>>◌, duplicate_signature, invalid_committee_approval, missing_other, missing_active,
  missing_owner, irrelevant_signature,
}
use karma_core.Base.Dict.{add}
use karma_core.Authority.Types.{
  Authority, SignState, Context, Required, insert_sorted, insert_all, member,
}
use karma_core.Authority.Signing.{check_authority, check_account, has_unused, sign_state}

-- The accounts that the code names (config.hpp).
abbrev pub committee_account : ℕ
committee_account = 0

abbrev pub temp_account : ℕ
temp_account = 4

unfoldable pub collect : List Required → Required → Required
unfolding insert_all
collect [] r = r
collect (op ∷ rest) r = collect rest (record {
  active = insert_all op.active r.active;
  owner = insert_all op.owner r.owner;
  other = r.other ++ op.other;
})

-- What `verify_authority` and `get_required_signatures` collect over the operations.
unfoldable pub required_of : List Required → Required
unfolding collect
required_of ops = collect ops (record { active = []; owner = []; other = [] })

unfoldable pub approve_all : List ℕ → SignState → SignState
approve_all [] s = s
approve_all (id ∷ ids) s = approve_all ids (record s { approved_by = add id s.approved_by })

module _ (cx : Context) (get_owner : ℕ → Option Authority) where
  -- The three loops of `verify_authority`.
  unfoldable pub check_other : List Authority → SignState → Result SignState
  check_other [] s = ok s
  check_other (auth ∷ rest) s =
      check_authority cx cx.max_recursion (some auth) s >>= λ (passed, s'). elim passed [
        | true ↦ check_other rest s'
        | false ↦ err missing_other
      ]

  abbrev pub check_owner : ℕ → SignState → Result (Bool × SignState)
  check_owner id s = check_authority cx cx.max_recursion (get_owner id) s

  -- `s.check_authority(id) || s.check_authority(get_owner(id))`
  abbrev pub check_active_or_owner : ℕ → SignState → Result (Bool × SignState)
  check_active_or_owner id s = check_account cx id s >>= λ (passed, s'). elim passed [
    | true ↦ ok (true, s')
    | false ↦ check_owner id s'
  ]

  unfoldable pub check_active : List ℕ → SignState → Result SignState
  check_active [] s = ok s
  check_active (id ∷ ids) s = check_active_or_owner id s >>= λ (passed, s'). elim passed [
    | true ↦ check_active ids s'
    | false ↦ err missing_active
  ]

  abbrev pub owner_passes : List ℕ → ℕ → SignState → Result (Bool × SignState)
  owner_passes approvals id s = elim (member id approvals) [
    | true ↦ ok (true, s)
    | false ↦ check_owner id s
  ]

  unfoldable pub check_owners : List ℕ → List ℕ → SignState → Result SignState
  check_owners approvals [] s = ok s
  check_owners approvals (id ∷ ids) s = owner_passes approvals id s >>= λ (passed, s').
      elim passed [ true ↦ check_owners approvals ids s' | false ↦ err missing_owner ]

  unfoldable pub verify_required : Required → List ℕ → Bool → List ℕ → List ℕ → Result (Unit {0})
  verify_required required sigs allow_committee active_approvals owner_approvals = do
    guard (allow_committee || not (member committee_account required.active))
        invalid_committee_approval
    let s =
        approve_all owner_approvals (approve_all active_approvals (sign_state sigs temp_account))
    s1 ← check_other required.other s
    s2 ← check_active required.active s1
    s3 ← check_owners owner_approvals required.owner s2
    guard (not (has_unused s3.provided_signatures)) irrelevant_signature

-- `verify_authority`. Its `sign_state` has no available keys.
unfoldable pub verify_authority :
    Context
    → (ℕ → Option Authority)
    → List Required
    → List ℕ
    → Bool
    → List ℕ
    → List ℕ
    → Result (Unit {0})
unfolding required_of
verify_authority cx get_owner ops =
    verify_required (record cx { available_keys = [] }) get_owner (required_of ops)

-- `get_signature_keys`: `recover` is the public key that made a signature of the digest.
unfoldable pub get_signature_keys : (ℕ → ℕ) → List ℕ → List ℕ → Result (List ℕ)
get_signature_keys recover [] keys = ok keys
get_signature_keys recover (sig ∷ sigs) keys = do
  guard (not (member (recover sig) keys)) duplicate_signature
  get_signature_keys recover sigs (insert_sorted (recover sig) keys)
