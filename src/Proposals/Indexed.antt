-- ===== src/Proposals/Indexed.antt =====
-- The index of approvals forgets a proposal that is removed, and keeps the others.
use karma_core.Base.{
  ℕ, ◌≡◌, refl, Bool, true, false, ◌&&◌, ◌||◌, ◌==◌, if◌then◌else◌, List, [], ◌∷◌, arith,
  Option-cases, inl, inr, Bool-cases,
}
use karma_core.Base.Dict.{lookup, lookup-insert, lookup-erase}
use karma_core.Authority.{member, insert_sorted}
use karma_core.Authority.Keys.{member-insert_sorted}
use karma_core.Proposals.Types.{Proposal, is_empty, erase_one}
use karma_core.Proposals.Index.{
  ApprovalIndex, proposals_of, insert_proposal, remove_proposal, insert_for, remove_for,
  object_inserted, object_removed,
}

-- Whether the index has a proposal for an account.
abbrev pub indexed : ℕ → ℕ → ApprovalIndex → Bool
indexed a p m = member p (proposals_of (lookup a m))

-- Whether an account has a part in a proposal.
abbrev pub involved : ℕ → Proposal → Bool
involved a p =
    member a p.required_active_approvals
    || member a p.required_owner_approvals
    || member a p.available_active_approvals
    || member a p.available_owner_approvals

member-erase_one :
    (q p : ℕ) (ps : List ℕ) → member q (erase_one p ps) ≡ (if q == p then false else member q ps)
unfolding member erase_one
member-erase_one q p [] = ground arith
member-erase_one q p (x ∷ ps) = let y = member-erase_one q p ps in ground arith

is_empty_lem : (q : ℕ) (ps : List ℕ) → is_empty ps ≡ true → member q ps ≡ false
unfolding member
is_empty_lem q [] e = refl
is_empty_lem q (x ∷ ps) e = absurd cc

module _ (p : ℕ) (b q : ℕ) where
  indexed-insert :
      (a : ℕ) (m : ApprovalIndex)
      → indexed b q (insert_proposal p a m) ≡ (if (b == a) && (q == p) then true else indexed b q m)
  unfolding insert_proposal member
  indexed-insert a m =
      let x = lookup-insert a b (insert_sorted p (proposals_of (lookup a m))) m in
      let y = member-insert_sorted q p (proposals_of (lookup a m)) in ground arith

  indexed-remove :
      (a : ℕ) (m : ApprovalIndex)
      → indexed b q (remove_proposal p a m)
        ≡ (if (b == a) && (q == p) then false else indexed b q m)
  unfolding remove_proposal member
  indexed-remove a m = elim (Option-cases (lookup a m)) [
    | inl e ↦ ground arith
    | inr (ps, e) ↦
        let x = lookup-insert a b (erase_one p ps) m in
        let y = member-erase_one q p ps in
        let z = lookup-erase a b m in
        let w = is_empty_lem q (erase_one p ps) in
        elim (Bool-cases (is_empty (erase_one p ps))) [
          | inl f ↦ let v = w f in ground arith
          | inr f ↦ ground arith
        ]
  ]

  indexed-insert_for :
      (accounts : List ℕ) (m : ApprovalIndex)
      → indexed b q (insert_for p accounts m)
        ≡ (if member b accounts && (q == p) then true else indexed b q m)
  unfolding insert_for member
  indexed-insert_for [] m = refl
  indexed-insert_for (a ∷ accounts) m =
      let x = indexed-insert_for accounts (insert_proposal p a m) in
      let y = indexed-insert a m in ground arith

  indexed-remove_for :
      (accounts : List ℕ) (m : ApprovalIndex)
      → indexed b q (remove_for p accounts m)
        ≡ (if member b accounts && (q == p) then false else indexed b q m)
  unfolding remove_for member
  indexed-remove_for [] m = refl
  indexed-remove_for (a ∷ accounts) m =
      let x = indexed-remove_for accounts (remove_proposal p a m) in
      let y = indexed-remove a m in ground arith

-- A proposal that is inserted into the index and removed with the same approvals is indexed for none of
-- the accounts that have a part in it; whatever else is indexed stays indexed, and nothing new is.
pub object_removed-object_inserted :
    (id b q : ℕ) (p : Proposal) (m : ApprovalIndex)
    → indexed b q (object_removed id p (object_inserted id p m))
      ≡ (if involved b p && (q == id) then false else indexed b q m)
unfolding object_inserted object_removed
object_removed-object_inserted id b q p m =
    let a1 = p.required_active_approvals in
    let a2 = p.required_owner_approvals in
    let a3 = p.available_active_approvals in
    let a4 = p.available_owner_approvals in
    let m1 = insert_for id a1 m in
    let m2 = insert_for id a2 m1 in
    let m3 = insert_for id a3 m2 in
    let m4 = insert_for id a4 m3 in
    let m5 = remove_for id a1 m4 in
    let m6 = remove_for id a2 m5 in
    let m7 = remove_for id a3 m6 in
    let e1 = indexed-insert_for id b q a1 m in
    let e2 = indexed-insert_for id b q a2 m1 in
    let e3 = indexed-insert_for id b q a3 m2 in
    let e4 = indexed-insert_for id b q a4 m3 in
    let e5 = indexed-remove_for id b q a1 m4 in
    let e6 = indexed-remove_for id b q a2 m5 in
    let e7 = indexed-remove_for id b q a3 m6 in
    let e8 = indexed-remove_for id b q a4 m7 in rw (e8, e7, e6, e5, e4, e3, e2, e1) (ground arith)
