-- ===== src/Proposals/Index.antt =====
-- `required_approval_index`: the proposals of each account that has a part in them.
use karma_core.Base.{ℕ, none, some, Option, List, [], ◌∷◌, if◌then◌else◌}
use karma_core.Base.Dict.{Dict, lookup, insert, erase}
use karma_core.Authority.{insert_sorted}
use karma_core.Proposals.Types.{Proposal, is_empty, erase_one}

abbrev pub ApprovalIndex : Type 0
ApprovalIndex = Dict (List ℕ)

abbrev pub proposals_of : Option (List ℕ) → List ℕ
proposals_of none = []
proposals_of (some ps) = ps

-- `_account_to_proposals[a].insert( p )`
unfoldable pub insert_proposal : ℕ → ℕ → ApprovalIndex → ApprovalIndex
unfolding lookup insert insert_sorted
insert_proposal p a m = insert a (insert_sorted p (proposals_of (lookup a m))) m

-- `required_approval_index::remove`
unfoldable pub remove_proposal : ℕ → ℕ → ApprovalIndex → ApprovalIndex
unfolding lookup insert erase erase_one
remove_proposal p a m = elim (lookup a m) [
  | none ↦ m
  | some ps ↦ if is_empty (erase_one p ps) then erase a m else insert a (erase_one p ps) m
]

unfoldable pub insert_for : ℕ → List ℕ → ApprovalIndex → ApprovalIndex
unfolding insert_proposal
insert_for p [] m = m
insert_for p (a ∷ accounts) m = insert_for p accounts (insert_proposal p a m)

unfoldable pub remove_for : ℕ → List ℕ → ApprovalIndex → ApprovalIndex
unfolding remove_proposal
remove_for p [] m = m
remove_for p (a ∷ accounts) m = remove_for p accounts (remove_proposal p a m)

-- `object_inserted` and `object_removed`
unfoldable pub object_inserted : ℕ → Proposal → ApprovalIndex → ApprovalIndex
unfolding insert_for
object_inserted id p m = insert_for id p.available_owner_approvals (
    insert_for id p.available_active_approvals
      (insert_for id p.required_owner_approvals (insert_for id p.required_active_approvals m)))

unfoldable pub object_removed : ℕ → Proposal → ApprovalIndex → ApprovalIndex
unfolding remove_for
object_removed id p m = remove_for id p.available_owner_approvals (
    remove_for id p.available_active_approvals
      (remove_for id p.required_owner_approvals (remove_for id p.required_active_approvals m)))
