-- ===== src/Proposals/Evaluators.antt =====
-- The evaluators of proposals, and the loop that clears those that have expired. `apply_operation`
-- is the application of one operation, with all that it may call.
use karma_core.Base.{
  ℕ, zero, suc, ◌+◌, ◌-◌, ◌%◌, ◌^◌, Bool, true, false, ◌&&◌, ◌||◌, not, ltb, leb, ◌==◌,
  if◌then◌else◌, Option, none, some, is_some, List, [], ◌∷◌, Result, ok, err, guard, or_fail,
  assertion, undefined, out_of_fuel, ◌>>=◌, ◌>>◌, map, length,
}
use karma_core.Base.Dict.{Dict, lookup, insert, erase}
use karma_core.Authority.{insert_all, member, required_of, committee_account}
use karma_core.Proposals.Types.{
  ProposedOperation, Proposal, Board, CreateOperation, UpdateOperation, DeleteOperation, is_empty,
  erase_all, difference, all_members, is_exception, is_authorized_to_execute,
}

abbrev pub hardfork_core_429_time : ℕ
hardfork_core_429_time = 1512747600

abbrev pub all_validated : List ProposedOperation → Bool
all_validated [] = true
all_validated (op ∷ ops) = op.validated && all_validated ops

abbrev pub all_before_429 : List ProposedOperation → Bool
all_before_429 [] = true
all_before_429 (op ∷ ops) = op.allowed_before_429 && all_before_429 ops

-- A wait, unless there is no review period to wait for.
abbrev pub review_fits : Option ℕ → ℕ → Bool
review_fits none lifetime = true
review_fits (some review) lifetime = ltb review lifetime

abbrev pub review_suffices : Option ℕ → ℕ → Bool
review_suffices none period = false
review_suffices (some review) period = leb period review

abbrev pub review_time : ℕ → Option ℕ → Option ℕ
review_time expiration none = none
review_time expiration (some review) = some (expiration - review)

abbrev pub in_review : Option ℕ → ℕ → Bool
in_review none now = false
in_review (some review) now = leb review now

-- What is left of an attempt: whether the proposal was executed and whether it failed.
pub record Attempt (World : Type 0) : Type 0 where
  pub executed : Bool
  pub failed : Bool
  pub board : Board World

-- The first proposal in the order of expiration.
unfoldable pub first_expiring : Dict Proposal → Option (ℕ × Proposal)
first_expiring [] = none
first_expiring ((id, p) ∷ ps) = elim (first_expiring ps) [
  | none ↦ some (id, p)
  | some (jd, q) ↦ if ltb q.expiration_time p.expiration_time then some (jd, q) else some (id, p)
]

unfoldable pub approve : UpdateOperation → Proposal → Proposal
unfolding insert_all erase_all
approve o p = record p {
  available_active_approvals =
      erase_all o.active_approvals_to_remove
        (insert_all o.active_approvals_to_add p.available_active_approvals);
  available_owner_approvals =
      erase_all o.owner_approvals_to_remove
        (insert_all o.owner_approvals_to_add p.available_owner_approvals);
  available_key_approvals =
      erase_all o.key_approvals_to_remove
        (insert_all o.key_approvals_to_add p.available_key_approvals);
}

module _ {World : Type 0} where
  -- `proposal_create_evaluator::do_evaluate`. It collects all accounts in one set.
  unfoldable pub create_evaluate : CreateOperation → Board World → Result (Unit {0})
  unfolding required_of insert_all member
  create_evaluate o d = do
    let required = required_of (map (λ op. op.required) o.proposed_ops)
    guard (ltb d.head_block_time o.expiration_time) assertion
    guard (leb o.expiration_time ((d.head_block_time + d.maximum_proposal_lifetime) % 2 ^ 32))
        assertion
    guard (review_fits o.review_period_seconds (o.expiration_time - d.head_block_time)) assertion
    guard (length required.other == 0) assertion
    guard
        (not (member committee_account required.active || member committee_account required.owner)
          || review_suffices o.review_period_seconds d.committee_proposal_review_period)
        assertion
    guard (all_validated o.proposed_ops) assertion
    guard (ltb hardfork_core_429_time d.head_block_time || all_before_429 o.proposed_ops) assertion

  -- `proposal_create_evaluator::do_apply`
  unfoldable pub create_apply : CreateOperation → Board World → ℕ × Board World
  unfolding required_of difference insert
  create_apply o d =
      let required = required_of (map (λ op. op.required) o.proposed_ops) in
      let p : Proposal = record {
        expiration_time = o.expiration_time;
        review_period_time = review_time o.expiration_time o.review_period_seconds;
        operations = o.proposed_ops;
        required_active_approvals = difference required.active required.owner;
        available_active_approvals = [];
        required_owner_approvals = required.owner;
        available_owner_approvals = [];
        available_key_approvals = [];
      } in
      (
        d.next_proposal,
        record d {
          proposals = insert d.next_proposal p d.proposals;
          next_proposal = d.next_proposal + 1;
        },
      )

  -- `proposal_update_evaluator::do_evaluate`
  unfoldable pub update_evaluate : UpdateOperation → Board World → Result (Unit {0})
  unfolding lookup all_members
  update_evaluate o d = do
    p ← or_fail (lookup o.proposal d.proposals) assertion
    guard
        (not (in_review p.review_period_time d.head_block_time)
          || (is_empty o.active_approvals_to_add && is_empty o.owner_approvals_to_add))
        assertion
    guard (all_members o.active_approvals_to_remove p.available_active_approvals) assertion
    guard (all_members o.owner_approvals_to_remove p.available_owner_approvals) assertion

  abbrev pub remove_from : ℕ → Board World → Board World
  remove_from id d = record d { proposals = erase id d.proposals }

  -- `proposal_delete_evaluator`
  unfoldable pub delete_evaluate : DeleteOperation → Board World → Result (Unit {0})
  unfolding lookup member
  delete_evaluate o d = do
    p ← or_fail (lookup o.proposal d.proposals) assertion
    guard
        (member o.fee_paying_account (
          if o.using_owner_authority
          then p.required_owner_approvals
          else p.required_active_approvals))
        assertion

  unfoldable pub delete_apply : DeleteOperation → Board World → Board World
  unfolding erase
  delete_apply o d = remove_from o.proposal d

  module _ (apply_operation : ProposedOperation → Board World → Result (Board World)) where
    unfoldable pub apply_operations : List ProposedOperation → Board World → Result (Board World)
    apply_operations [] d = ok d
    apply_operations (op ∷ ops) d = apply_operation op d >>= apply_operations ops

    -- `push_proposal`. An exception undoes its session, which is to keep the state from before.
    unfoldable pub push_proposal : ℕ → Proposal → Board World → Result (Board World)
    unfolding apply_operations lookup erase
    push_proposal id p d = apply_operations p.operations d >>= λ t.
        guard (is_some (lookup id t.proposals)) undefined >> ok (remove_from id t)

    -- The attempt to execute a proposal that has its approvals.
    unfoldable pub attempt : ℕ → Proposal → Board World → Result (Attempt World)
    unfolding is_authorized_to_execute push_proposal
    attempt id p d = is_authorized_to_execute p d >>= λ authorized. elim authorized [
      | false ↦ ok (record { executed = false; failed = false; board = d })
      | true ↦ elim (push_proposal id p d) [
        | ok t ↦ ok (record { executed = true; failed = false; board = t })
        | err e ↦
            if is_exception e
            then ok (record { executed = true; failed = true; board = d })
            else err e
      ]
    ]

    -- `proposal_update_evaluator::do_apply`
    unfoldable pub update_apply : UpdateOperation → Board World → Result (Attempt World)
    unfolding lookup insert approve attempt
    update_apply o d = or_fail (lookup o.proposal d.proposals) undefined >>= λ p.
        let q = approve o p in
        let t : Board World = record d { proposals = insert o.proposal q d.proposals } in
        elim q.review_period_time [
          | some time ↦ ok (record { executed = false; failed = false; board = t })
          | none ↦ attempt o.proposal q t
        ]

    -- A round of the loop of `clear_expired_proposals`: the proposal is executed, or removed.
    unfoldable pub clear_one : ℕ → Proposal → Board World → Result (Board World)
    unfolding attempt erase
    clear_one id p d = attempt id p d >>= λ a.
        ok (if a.executed && not a.failed then a.board else remove_from id a.board)

    -- `clear_expired_proposals`, on fuel.
    unfoldable pub clear_expired_proposals : ℕ → Board World → Result (Board World)
    unfolding first_expiring clear_one
    clear_expired_proposals zero d = err out_of_fuel
    clear_expired_proposals (suc fuel) d = elim (first_expiring d.proposals) [
      | none ↦ ok d
      | some (id, p) ↦ elim (leb p.expiration_time d.head_block_time) [
        | false ↦ ok d
        | true ↦ clear_one id p d >>= clear_expired_proposals fuel
      ]
    ]
