-- ===== src/Proposals/Executed.antt =====
-- An update executes a proposal only with its approvals, and out of review.
use karma_core.Base.{
  ℕ, ◌≡◌, ◌⊎◌, refl, true, false, none, some, Result, ok, err, Error, arith, Option-cases,
  Result-cases, inl, inr, map, undefined, Post, sym, ◌∙◌, subst,
}
use karma_core.Base.Dict.{lookup, insert}
use karma_core.Authority.{verify_authority}
use karma_core.Proposals.Types.{
  ProposedOperation, Proposal, Board, UpdateOperation, is_exception, is_authorized_to_execute,
}
use karma_core.Proposals.Evaluators.{approve, Attempt, push_proposal, attempt, update_apply}

-- Whatever is not caught is undefined.
exception-cases : (e : Error) → (is_exception e ≡ true) ⊎ (e ≡ undefined)
exception-cases undefined = inr refl
exception-cases _ = inl refl

module _ {World : Type 0} where
  abbrev pub verified : Proposal → Board World → Result (Unit {0})
  verified p d =
      verify_authority d.context d.get_owner (map (λ op. op.required) p.operations)
        p.available_key_approvals true p.available_active_approvals p.available_owner_approvals

  -- The authorities of the proposal's operations are verified with its approvals, and it was executed:
  -- with success, in the state that its operations made, or in vain, and nothing is changed.
  pub record Executed (apply_operation : ProposedOperation → Board World → Result (Board World))
      (id : ℕ) (p : Proposal) (d : Board World) (a : Attempt World) : Type 0 where
    pub authorized : verified p d ≡ ok tt
    pub succeeded : a.failed ≡ false → push_proposal apply_operation id p d ≡ ok a.board
    pub undone : a.failed ≡ true → a.board ≡ d

  module _ (apply_operation : ProposedOperation → Board World → Result (Board World)) where
    pub attempt_lem :
        (id : ℕ) (p : Proposal) (d : Board World)
        → Post
            (λ e. e ≡ undefined)
            (λ a.
              (a.executed ≡ true → Executed apply_operation id p d a)
              × (a.executed ≡ false → a.board ≡ d))
            (attempt apply_operation id p d)
    unfolding attempt is_authorized_to_execute
    attempt_lem id p d = elim (Result-cases (verified p d)) [
      | inr (e, f) ↦ elim (exception-cases e) [
        | inl x ↦
            let q : attempt apply_operation id p d
                ≡ ok (record { executed = false; failed = false; board = d }) =
              ground arith in
            rw q ((λ z. absurd cc), λ z. refl)
        | inr x ↦ let q : attempt apply_operation id p d ≡ err e = ground arith in rw q x
      ]
      | inl (x, f) ↦ elim (Result-cases (push_proposal apply_operation id p d)) [
        | inl (t, g) ↦
            let q : attempt apply_operation id p d
                ≡ ok (record { executed = true; failed = false; board = t }) =
              ground arith in
            rw q (
              (λ z. record { authorized = f; succeeded = λ y. g; undone = λ y. absurd cc }),
              λ z. absurd cc,
            )
        | inr (e, g) ↦ elim (exception-cases e) [
          | inl y ↦
              let q : attempt apply_operation id p d
                  ≡ ok (record { executed = true; failed = true; board = d }) =
                ground arith in
              rw q (
                (λ z. record { authorized = f; succeeded = λ w. absurd cc; undone = λ w. refl }),
                λ z. absurd cc,
              )
          | inr y ↦ let q : attempt apply_operation id p d ≡ err e = ground arith in rw q y
        ]
      ]
    ]

    -- An update of a proposal that there is, and that returns, executes it only if it has no review period
    -- and, with the approvals of the update, the authorities of its operations are verified; the state is
    -- then that of the operations, less the proposal, or, where they failed, that of the approvals alone;
    -- that is also the state where the proposal is not executed.
    pub update_apply_lem :
        (o : UpdateOperation) (p : Proposal) (d : Board World) {a : Attempt World}
        → lookup o.proposal d.proposals ≡ some p
        → update_apply apply_operation o d ≡ ok a
        → (a.executed ≡ true
            → (p.review_period_time ≡ none)
              × Executed apply_operation o.proposal
                  (approve o p)
                  (record d { proposals = insert o.proposal (approve o p) d.proposals })
                  a)
          × (a.executed ≡ false
              → a.board ≡ record d { proposals = insert o.proposal (approve o p) d.proposals })
    unfolding update_apply approve
    update_apply_lem o p d {a = a} e f =
        let q = approve o p in
        let t : Board World = record d { proposals = insert o.proposal q d.proposals } in
        elim (Option-cases p.review_period_time) [
          | inr (time, g) ↦
              let x : update_apply apply_operation o d
                  ≡ ok (record { executed = false; failed = false; board = t }) =
                ground arith in
              let y : a ≡ record { executed = false; failed = false; board = t } = cc in
              rw y ((λ z. absurd cc), λ z. refl)
          | inl g ↦
              let x : update_apply apply_operation o d ≡ attempt apply_operation o.proposal q t =
                ground arith in
              let y : attempt apply_operation o.proposal q t ≡ ok a = sym x ∙ f in
              let (m, n) =
                subst
                  (Post (λ e. e ≡ undefined)
                    (λ a.
                      (a.executed ≡ true → Executed apply_operation o.proposal q t a)
                      × (a.executed ≡ false → a.board ≡ t)))
                  y (attempt_lem o.proposal q t) in
              ((λ z. (g, m z)), n)
        ]
