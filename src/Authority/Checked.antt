-- ===== src/Authority/Checked.antt =====
-- `check_authority` at every depth, and `check_authority( account_id_type )`.
use karma_core.Base.{
  ℕ, zero, suc, ◌+◌, ◌≤◌, ◌≡◌, refl, inl, inr, Bool, true, false, ◌||◌, Option, none, some, List,
  [], ◌∷◌, if◌then◌else◌, leb, ok, ◌>>=◌, Post, Post-bind, Post-map, arith, Bool-cases,
}
use karma_core.Base.Dict.{Dict, contains, lookup-insert}
use karma_core.Authority.Types.{Authority, SignState, Context}
use karma_core.Authority.Signing.{
  Tally, check_keys, check_addresses, Check, approve, try_account, account_passes, check_accounts,
  check_level, check_authority, check_account,
}
use karma_core.Authority.Power.{power_of, Signers, Satisfies, IsClosed}
use karma_core.Authority.Tracked.{AnyError, IsTracked, NamesKeys, NamesAddresses}
use karma_core.Authority.Sound.{Counted, Says, loop_step, check_keys_lem, check_addresses_lem}

module _ (cx : Context) (g : Signers) (named : ℕ → Bool) (sigs : List ℕ) where
  abbrev pub Named : Option Authority → Type 0
  Named none = Unit
  Named (some auth) =
      NamesKeys cx g named sigs auth.key_auths × NamesAddresses cx g named sigs auth.address_auths

  -- A check that returns true only for an authority that `g` satisfies.
  abbrev pub Shows : Option Authority → Bool × SignState → Type 0
  Shows o (passed, s) = IsTracked cx g named sigs s × (passed ≡ true → Satisfies g o)

  abbrev pub IsSound : Check cx → Type 0
  IsSound check =
      (o : Option Authority) (s : SignState)
      → Named o
      → IsTracked cx g named sigs s
      → Post AnyError (Shows o) (check o s)

  abbrev pub IsSoundNested : Option (Check cx) → Type 0
  IsSoundNested none = Unit
  IsSoundNested (some check) = IsSound check

  approve-IsTracked :
      (id : ℕ) (s : SignState)
      → g.accounts id ≡ true
      → IsTracked cx g named sigs s
      → IsTracked cx g named sigs (approve cx id s)
  approve-IsTracked id s e t = record {
    provided = t.provided;
    approved = λ j h. ground (arith, t.approved j, lookup-insert id j tt s.approved_by);
    marked = t.marked;
    kept = t.kept;
    provided_map = t.provided_map;
    available_map = t.available_map;
  }

  module _ (closed : IsClosed cx g)
      (own : (k : ℕ) → contains k cx.available_keys ≡ true → g.keys k ≡ true)
      (actives : (id : ℕ) → Named (cx.get_active id)) where
    approved_after :
        (id : ℕ) (q : Bool × SignState)
        → Shows (cx.get_active id) q
        → Says cx g named sigs (g.accounts id) (q.0, if q.0 then approve cx id (q.1) else q.1)
    approved_after id (true, s) (t, y) =
        (approve-IsTracked id s (closed.active id (y refl)) t, λ _. closed.active id (y refl))
    approved_after id (false, s) (t, y) = (t, λ h. absurd (ground arith))

    try_account_lem :
        (nested : Option (Check cx)) (id : ℕ) (s : SignState)
        → IsSoundNested nested
        → IsTracked cx g named sigs s
        → Post AnyError (Says cx g named sigs (g.accounts id)) (try_account cx nested id s)
    try_account_lem none id s n t = (t, λ h. absurd (ground arith))
    try_account_lem (some check) id s n t =
        Post-bind AnyError (Shows (cx.get_active id)) (Says cx g named sigs (g.accounts id))
          (check (cx.get_active id) s) _ (n (cx.get_active id) s (actives id) t) (approved_after id)

    account_passes_lem :
        (nested : Option (Check cx)) (id : ℕ) (s : SignState)
        → IsSoundNested nested
        → IsTracked cx g named sigs s
        → Post AnyError (Says cx g named sigs (g.accounts id)) (account_passes cx nested id s)
    account_passes_lem nested id s n t = elim (Bool-cases (contains id s.approved_by)) [
      | inl e ↦ rw (e, Post) (t, λ _. t.approved id e)
      | inr e ↦ rw (e, Post) (try_account_lem nested id s n t)
    ]

    check_accounts_lem :
        (nested : Option (Check cx)) (base threshold : ℕ) (m : Dict ℕ) (total : ℕ) (s : SignState)
        → IsSoundNested nested
        → IsTracked cx g named sigs s
        → total ≤ base
        → Post AnyError
            (Counted cx g named sigs base threshold g.accounts m)
            (check_accounts cx nested threshold m total s)
    unfolding check_accounts
    check_accounts_lem nested base threshold [] total s n t b =
        (t, omega arith, λ h. absurd (ground arith))
    check_accounts_lem nested base threshold ((a, w) ∷ m) total s n t b =
        Post-bind AnyError (Says cx g named sigs (g.accounts a))
          (Counted cx g named sigs base threshold g.accounts ((a, w) ∷ m))
          (account_passes cx nested a s) _ (account_passes_lem nested a s n t)
          (loop_step cx g named sigs closed own base threshold g.accounts a w m total
            (check_accounts cx nested threshold m)
            (λ u s'.
              check_accounts_lem nested (base + (if g.accounts a then w else 0)) threshold m u s' n)
            b)

    after_accounts :
        (auth : Authority) (r : Tally cx)
        → Counted cx g named sigs
            (power_of g.keys auth.key_auths + power_of g.addresses auth.address_auths)
            auth.weight_threshold
            g.accounts
            auth.account_auths
            r
        → Shows (some auth) (r.returned || leb auth.weight_threshold r.total, r.state)
    after_accounts auth r (t, b, f) = (
      t,
      λ h. elim (Bool-cases r.returned) [
        | inl e ↦ let q = f e in omega arith
        | inr e ↦ ground arith
      ],
    )

    after_addresses :
        (nested : Option (Check cx)) (auth : Authority) (r : Tally cx)
        → IsSoundNested nested
        → Counted cx g named sigs
            (power_of g.keys auth.key_auths)
            auth.weight_threshold
            g.addresses
            auth.address_auths
            r
        → Post AnyError (Shows (some auth)) (elim r.returned [
          | true ↦ ok (true, r.state)
          | false ↦
              check_accounts cx nested auth.weight_threshold auth.account_auths r.total r.state
              >>= λ accounts.
                  ok (accounts.returned || leb auth.weight_threshold accounts.total, accounts.state)
        ])
    after_addresses nested auth r n (t, b, f) = elim (Bool-cases r.returned) [
      | inl e ↦ rw e (t, λ _. let q = f e in omega arith)
      | inr e ↦ rw e (
          Post-bind AnyError
            (Counted cx g named sigs
              (power_of g.keys auth.key_auths + power_of g.addresses auth.address_auths)
              auth.weight_threshold g.accounts auth.account_auths)
            (Shows (some auth))
            (check_accounts cx nested auth.weight_threshold auth.account_auths r.total r.state) _
            (check_accounts_lem nested
              (power_of g.keys auth.key_auths + power_of g.addresses auth.address_auths)
              auth.weight_threshold auth.account_auths r.total r.state n t b)
            (after_accounts auth))
    ]

    after_keys :
        (nested : Option (Check cx)) (auth : Authority) (r : Tally cx)
        → IsSoundNested nested
        → NamesAddresses cx g named sigs auth.address_auths
        → Counted cx g named sigs 0 auth.weight_threshold g.keys auth.key_auths r
        → Post AnyError (Shows (some auth)) (elim r.returned [
          | true ↦ ok (true, r.state)
          | false ↦
              check_addresses cx auth.weight_threshold auth.address_auths r.total r.state
              >>= λ addresses. elim addresses.returned [
                | true ↦ ok (true, addresses.state)
                | false ↦
                    check_accounts cx nested auth.weight_threshold auth.account_auths
                      addresses.total addresses.state
                    >>= λ accounts. ok (
                      accounts.returned || leb auth.weight_threshold accounts.total,
                      accounts.state,
                    )
              ]
        ])
    after_keys nested auth r n na (t, b, f) = elim (Bool-cases r.returned) [
      | inl e ↦ rw e (t, λ _. let q = f e in omega arith)
      | inr e ↦ rw e (
          Post-bind AnyError
            (Counted cx g named sigs (power_of g.keys auth.key_auths) auth.weight_threshold
              g.addresses auth.address_auths)
            (Shows (some auth))
            (check_addresses cx auth.weight_threshold auth.address_auths r.total r.state) _
            (check_addresses_lem cx g named sigs closed own (power_of g.keys auth.key_auths)
              auth.weight_threshold auth.address_auths r.total r.state na t (omega arith))
            (λ r'. after_addresses nested auth r' n))
    ]

    check_level_lem :
        (nested : Option (Check cx)) → IsSoundNested nested → IsSound (check_level cx nested)
    unfolding check_level
    check_level_lem nested n none s named_ t = (t, λ h. absurd (ground arith))
    check_level_lem nested n (some auth) s (nk, na) t =
        after_keys nested auth (check_keys cx auth.weight_threshold auth.key_auths 0 s) n na (
          check_keys_lem cx g named sigs closed own 0 auth.weight_threshold auth.key_auths 0 s nk t
            (omega arith))

    -- At every depth: where `check_authority` returns true, the signers reach the authority's threshold.
    pub check_authority_lem : (levels : ℕ) → IsSound (check_authority cx levels)
    unfolding check_authority
    check_authority_lem zero = check_level_lem none tt
    check_authority_lem (suc levels) =
        check_level_lem (some (check_authority cx levels)) (check_authority_lem levels)

    pub check_account_lem :
        (id : ℕ) (s : SignState)
        → IsTracked cx g named sigs s
        → Post AnyError (Says cx g named sigs (g.accounts id)) (check_account cx id s)
    unfolding check_account
    check_account_lem id s t = elim (Bool-cases (contains id s.approved_by)) [
      | inl e ↦ rw e (t, λ _. t.approved id e)
      | inr e ↦ rw e (
          Post-map AnyError (Shows (cx.get_active id)) (Says cx g named sigs (g.accounts id))
            (check_authority cx cx.max_recursion (cx.get_active id) s)
            (λ q (t', y). (t', λ h. closed.active id (y h)))
            (check_authority_lem cx.max_recursion (cx.get_active id) s (actives id) t))
    ]
