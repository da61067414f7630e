-- ===== src/Proposals/Examples.antt =====
-- Witnesses for proposals: account 10 approves, and an operation counts in the world.
use karma_core.Base.{
  ℕ, ◌+◌, ◌≡◌, refl, true, false, none, [], ◌∷◌, Result, ok, arith, ◌==◌, if◌then◌else◌, Post,
  undefined, ◌&&◌,
}
use karma_core.Base.Dict.{insert, lookup, Distinct}
use karma_core.Authority.{
  verify_required, check_other, check_active, check_account, approve_all, sign_state, check_owners,
  has_unused, check_authority, check_level,
}
use karma_core.Proposals.{
  ProposedOperation, Proposal, Board, UpdateOperation, approve, update_apply,
  clear_expired_proposals, object_inserted, object_removed,
}
use karma_core.Proposals.Indexed.{indexed, involved, object_removed-object_inserted}
use karma_core.Proposals.Executed.{Executed, update_apply_lem}
use karma_core.Proposals.Expired.{IsFair, expired, clear_expired_proposals_lem}

abbrev by_10 : ProposedOperation
by_10 = record {
  required = record { active = 10 ∷ []; owner = []; other = [] };
  validated = true;
  allowed_before_429 = true;
}

abbrev proposal : Proposal
proposal = record {
  expiration_time = 50;
  review_period_time = none;
  operations = by_10 ∷ [];
  required_active_approvals = 10 ∷ [];
  available_active_approvals = [];
  required_owner_approvals = [];
  available_owner_approvals = [];
  available_key_approvals = [];
}

abbrev board : Board ℕ
board = record {
  proposals = (3, proposal) ∷ (4, record proposal { expiration_time = 200 }) ∷ [];
  next_proposal = 5;
  context = record {
    get_active = λ id. none;
    available_keys = [];
    max_recursion = 2;
    addresses_of = λ k. [];
  };
  get_owner = λ id. none;
  head_block_time = 100;
  maximum_proposal_lifetime = 1000;
  committee_proposal_review_period = 10;
  world = 0;
}

abbrev apply_operation : ProposedOperation → Board ℕ → Result (Board ℕ)
apply_operation op d = ok (record d { world = d.world + 1 })

fair : IsFair apply_operation
fair = record {
  step = λ op d h. record { distinct = h; same_time = refl; fewer = λ id. omega arith };
}

abbrev approval : UpdateOperation
approval = record {
  proposal = 3;
  active_approvals_to_add = 10 ∷ [];
  active_approvals_to_remove = [];
  owner_approvals_to_add = [];
  owner_approvals_to_remove = [];
  key_approvals_to_add = [];
  key_approvals_to_remove = [];
}

abbrev left : Board ℕ
left = record board { proposals = (4, record proposal { expiration_time = 200 }) ∷ []; world = 1 }

run :
    update_apply apply_operation approval board
    ≡ ok (record { executed = true; failed = false; board = left })
unfolding update_apply verify_required check_other check_active check_account approve_all sign_state
    check_owners has_unused
run = refl

update_apply_lem_example :
    ((true ≡ true)
      → (proposal.review_period_time ≡ none)
        × Executed apply_operation 3
            (approve approval proposal)
            (record board { proposals = insert 3 (approve approval proposal) board.proposals })
            (record { executed = true; failed = false; board = left }))
    × ((true ≡ false)
        → left ≡ record board { proposals = insert 3 (approve approval proposal) board.proposals })
unfolding lookup
update_apply_lem_example = update_apply_lem apply_operation approval proposal board refl run

board-Distinct : Distinct board.proposals
unfolding lookup
board-Distinct = (refl, (refl, tt))

clear_expired_proposals_lem_example :
    Post
      (λ e. e ≡ undefined)
      (λ t. (expired t.head_block_time t.proposals ≡ 0) × (t.head_block_time ≡ 100))
      (clear_expired_proposals apply_operation 2 board)
clear_expired_proposals_lem_example =
    clear_expired_proposals_lem apply_operation fair 2 board board-Distinct (omega arith)

-- The proposal without approvals is dropped, and the other stays.
test_clear :
    clear_expired_proposals apply_operation 2 board
    ≡ ok (record board { proposals = (4, record proposal { expiration_time = 200 }) ∷ [] })
unfolding clear_expired_proposals verify_required check_other check_active check_account approve_all
    sign_state insert check_authority check_level
test_clear = refl

object_removed-object_inserted_example :
    indexed 10 3 (object_removed 3 proposal (object_inserted 3 proposal []))
    ≡ (if involved 10 proposal && (3 == 3) then false else indexed 10 3 [])
object_removed-object_inserted_example = object_removed-object_inserted 3 10 3 proposal []
