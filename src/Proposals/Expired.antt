-- ===== src/Proposals/Expired.antt =====
-- `clear_expired_proposals` ends, and leaves no proposal that has expired.
use karma_core.Base.{
  ℕ, zero, suc, ◌≤◌, ◌<◌, ◌≡◌, ◌⊎◌, refl, true, false, ◌&&◌, not, ltb, leb, ◌==◌, none, some, List,
  [], ◌∷◌, Result, ok, ◌>>=◌, arith, Bool-cases, inl, inr, if◌then◌else◌, undefined, Post,
  Post-bind, Post-map, sym, ◌∙◌, Error, Result-cases, subst,
}
use karma_core.Base.Dict.{Dict, lookup, erase, Distinct, erase-Distinct}
use karma_core.Base.Sums.{sum_of, sum_of-erase}
use karma_core.Proposals.Types.{ProposedOperation, Proposal, Board}
use karma_core.Proposals.Evaluators.{
  apply_operations, push_proposal, attempt, remove_from, first_expiring, clear_one,
  clear_expired_proposals,
}
use karma_core.Proposals.Executed.{Executed, attempt_lem}

abbrev pub is_expired : ℕ → Proposal → ℕ
is_expired now p = if leb p.expiration_time now then 1 else 0

-- The number of proposals that have expired.
abbrev pub expired : ℕ → Dict Proposal → ℕ
expired now ps = sum_of (is_expired now) ps

-- The first to expire is one of the proposals, and if it has not expired none has.
first_expiring_lem :
    (now : ℕ) (ps : Dict Proposal)
    → Distinct ps
    → ((first_expiring ps ≡ none) × (expired now ps ≡ 0))
      ⊎ ((id : ℕ) × (p : Proposal) × (first_expiring ps ≡ some (id, p))
          × (lookup id ps ≡ some p)
          × (now < p.expiration_time → expired now ps ≡ 0))
unfolding first_expiring lookup
first_expiring_lem now [] d = inl (refl, refl)
first_expiring_lem now ((id, p) ∷ ps) d = elim (first_expiring_lem now ps (d.1)) [
  | inl (e, z) ↦ inr (id, p, ground arith, ground arith, λ lt. ground arith)
  | inr (jd, q, e, l, f) ↦ elim (Bool-cases (ltb q.expiration_time p.expiration_time)) [
    | inl g ↦ inr (
      jd,
      q,
      ground arith,
      (let w : (jd == id) ≡ false = elim (Bool-cases (jd == id)) [
        | inl x ↦ (let z : jd ≡ id = ground arith in absurd (ground arith))
        | inr x ↦ x
      ] in
          ground arith),
      λ lt. let x = f lt in ground arith,
    )
    | inr g ↦
        inr (id, p, ground arith, ground arith, λ lt. let x = f (ground arith) in ground arith)
  ]
]

abbrev pub AnyError : Error → Type 0
AnyError e = Unit

module _ {World : Type 0} where
  -- From `d` to `t` no proposal has come that has expired, whichever one is left aside.
  pub record IsFairStep (d t : Board World) : Type 0 where
    pub distinct : Distinct t.proposals
    pub same_time : t.head_block_time ≡ d.head_block_time
    pub fewer :
        (id : ℕ)
        → expired d.head_block_time (erase id t.proposals)
          ≤ expired d.head_block_time (erase id d.proposals)

  -- What the operations may do to the proposals.
  pub record IsFair (apply_operation : ProposedOperation → Board World → Result (Board World))
      : Type 0 where
    pub step :
        (op : ProposedOperation) (d : Board World)
        → Distinct d.proposals
        → Post AnyError (IsFairStep d) (apply_operation op d)

  module _ (apply_operation : ProposedOperation → Board World → Result (Board World))
      (fair : IsFair apply_operation) where
    operations-fair :
        (ops : List ProposedOperation) (d : Board World)
        → Distinct d.proposals
        → Post AnyError (IsFairStep d) (apply_operations apply_operation ops d)
    unfolding apply_operations
    operations-fair [] d h = record { distinct = h; same_time = refl; fewer = λ id. omega arith }
    operations-fair (op ∷ ops) d h =
        Post-bind AnyError (IsFairStep d) (IsFairStep d) (apply_operation op d)
          (apply_operations apply_operation ops) (fair.step op d h)
          (λ t m.
            Post-map AnyError (IsFairStep t) (IsFairStep d) (apply_operations apply_operation ops t)
              (λ u n. record {
                distinct = n.distinct;
                same_time = n.same_time ∙ m.same_time;
                fewer = λ id.
                    let x = n.fewer id in let y = m.fewer id in let z = m.same_time in ground arith;
              })
              (operations-fair ops t m.distinct))

    -- A round leaves fewer proposals that have expired.
    abbrev Cleared : Board World → Board World → Type 0
    Cleared d t =
        Distinct t.proposals
        × (t.head_block_time ≡ d.head_block_time)
        × (expired d.head_block_time t.proposals < expired d.head_block_time d.proposals)

    removed-Cleared :
        (id : ℕ) (p : Proposal) (d t : Board World)
        → Distinct d.proposals
        → lookup id d.proposals ≡ some p
        → p.expiration_time ≤ d.head_block_time
        → IsFairStep d t
        → Cleared d (remove_from id t)
    removed-Cleared id p d t h e le m =
        let x = sum_of-erase (is_expired d.head_block_time) id p d.proposals h e in
        let y = m.fewer id in (erase-Distinct id t.proposals m.distinct, m.same_time, ground arith)

    pushed-Cleared :
        (id : ℕ) (p : Proposal) (d u : Board World)
        → Distinct d.proposals
        → lookup id d.proposals ≡ some p
        → p.expiration_time ≤ d.head_block_time
        → push_proposal apply_operation id p d ≡ ok u
        → Cleared d u
    unfolding push_proposal
    pushed-Cleared id p d u h e le f =
        elim (Result-cases (apply_operations apply_operation p.operations d)) [
          | inr (x, g) ↦ absurd (ground arith)
          | inl (t, g) ↦
              let m : IsFairStep d t =
                subst (Post AnyError (IsFairStep d)) g (operations-fair p.operations d h) in
              let x : u ≡ remove_from id t = ground arith in
              rw x (removed-Cleared id p d t h e le m)
        ]

    dropped-Cleared :
        (id : ℕ) (p : Proposal) (d t : Board World)
        → Distinct d.proposals
        → lookup id d.proposals ≡ some p
        → p.expiration_time ≤ d.head_block_time
        → t ≡ d
        → Cleared d (remove_from id t)
    dropped-Cleared id p d t h e le x = rw x (
        removed-Cleared id p d d h e le
          (record { distinct = h; same_time = refl; fewer = λ id. omega arith }))

    clear_one-Cleared :
        (id : ℕ) (p : Proposal) (d : Board World)
        → Distinct d.proposals
        → lookup id d.proposals ≡ some p
        → p.expiration_time ≤ d.head_block_time
        → Post (λ e. e ≡ undefined) (Cleared d) (clear_one apply_operation id p d)
    unfolding clear_one
    clear_one-Cleared id p d h e le =
        Post-bind (λ e. e ≡ undefined)
          (λ a.
            (a.executed ≡ true → Executed apply_operation id p d a)
            × (a.executed ≡ false → a.board ≡ d))
          (Cleared d) (attempt apply_operation id p d)
          (λ a. ok (if a.executed && not a.failed then a.board else remove_from id a.board))
          (attempt_lem apply_operation id p d)
          (λ a (m, n). elim (Bool-cases a.executed) [
            | inr x ↦ rw x (dropped-Cleared id p d a.board h e le (n x))
            | inl x ↦ elim (Bool-cases a.failed) [
              | inr y ↦ rw (x, y) (pushed-Cleared id p d a.board h e le ((m x).succeeded y))
              | inl y ↦ rw (x, y) (dropped-Cleared id p d a.board h e le ((m x).undone y))
            ]
          ])

    -- Where no operation makes a proposal that has already expired, `clear_expired_proposals` ends after at
    -- most as many rounds as proposals have expired, and one more: in a state in which none has, at the
    -- same time, unless it meets undefined behaviour, such as an operation that removes its own proposal.
    pub clear_expired_proposals_lem :
        (fuel : ℕ) (d : Board World)
        → Distinct d.proposals
        → expired d.head_block_time d.proposals < fuel
        → Post
            (λ e. e ≡ undefined)
            (λ t.
              (expired t.head_block_time t.proposals ≡ 0) × (t.head_block_time ≡ d.head_block_time))
            (clear_expired_proposals apply_operation fuel d)
    unfolding clear_expired_proposals
    clear_expired_proposals_lem zero d h lt = absurd (omega arith)
    clear_expired_proposals_lem (suc fuel) d h lt =
        elim (first_expiring_lem d.head_block_time d.proposals h) [
          | inl (e, z) ↦
              let q : clear_expired_proposals apply_operation (suc fuel) d ≡ ok d = ground arith in
              rw q (z, refl)
          | inr (id, p, e, l, f) ↦ elim (Bool-cases (leb p.expiration_time d.head_block_time)) [
            | inr g ↦
                let q : clear_expired_proposals apply_operation (suc fuel) d ≡ ok d =
                  ground arith in
                rw q (f (ground arith), refl)
            | inl g ↦
                let q : clear_expired_proposals apply_operation (suc fuel) d ≡ (
                    clear_one apply_operation id p d
                    >>= clear_expired_proposals apply_operation fuel) =
                  ground arith in
                rw q (
                  Post-bind (λ e. e ≡ undefined) (Cleared d)
                    (λ t.
                      (expired t.head_block_time t.proposals ≡ 0)
                      × (t.head_block_time ≡ d.head_block_time))
                    (clear_one apply_operation id p d)
                    (clear_expired_proposals apply_operation fuel)
                    (clear_one-Cleared id p d h l (ground arith))
                    (λ t (x, y, z).
                      rw (sym y) (clear_expired_proposals_lem fuel t x (rw y (omega arith)))))
          ]
        ]
