-- ===== src/Authority/Sound.antt =====
-- `check_authority` returns true only for an authority that the signers satisfy.
use karma_core.Base.{
  ℕ, ◌+◌, ◌≤◌, ◌≡◌, refl, inl, inr, Bool, true, false, none, some, List, [], ◌∷◌, if◌then◌else◌,
  leb, or_else, Result, ok, err, Post, Post-bind, Post-map, sym, subst, undefined, arith,
  Bool-cases, Option-cases,
}
use karma_core.Base.Dict.{Dict, lookup, contains}
use karma_core.Authority.Types.{SignState, Context, member}
use karma_core.Authority.Signing.{
  mark, signed_by, with_address_sigs, signed_by_address, Tally, plus, check_keys, check_addresses,
}
use karma_core.Authority.Power.{power_of, Signers, IsClosed}
use karma_core.Authority.Tracked.{
  AnyError, IsTracked, NamesKeys, NamesAddresses, mark-IsTracked, signed_by_lem,
  with_address_sigs-IsTracked,
}

module _ (cx : Context) (g : Signers) (named : ℕ → Bool) (sigs : List ℕ) where
  -- Where a loop over `m` may stand that began with a weight of at most `base`.
  abbrev pub Counted : ℕ → ℕ → (ℕ → Bool) → Dict ℕ → Tally cx → Type 0
  Counted base threshold p m r =
      IsTracked cx g named sigs r.state
      × (r.total ≤ base + power_of p m)
      × (r.returned ≡ true → threshold ≤ base + power_of p m)

  count_step :
      (base threshold : ℕ) (p : ℕ → Bool) (k w : ℕ) (m : Dict ℕ) (r : Tally cx)
      → Counted (base + (if p k then w else 0)) threshold p m r
      → Counted base threshold p ((k, w) ∷ m) r
  count_step base threshold p k w m r (t, b, f) = (t, omega arith, λ e. let h = f e in omega arith)

  count_done :
      (base threshold : ℕ) (p : ℕ → Bool) (k w : ℕ) (m : Dict ℕ) (total : ℕ) (s : SignState)
      → IsTracked cx g named sigs s
      → p k ≡ true
      → total ≤ base
      → leb threshold (plus cx total w) ≡ true
      → Counted base threshold p
          ((k, w) ∷ m)
          (record { returned = true; total = plus cx total w; state = s })
  count_done base threshold p k w m total s t e b l =
      (t, rw e (omega arith), λ _. rw e (ground arith))

  take_bound :
      (base total w : ℕ) (p : ℕ → Bool) (k : ℕ)
      → p k ≡ true
      → total ≤ base
      → plus cx total w ≤ base + (if p k then w else 0)
  take_bound base total w p k e b = rw e (omega arith)

  -- A call that says whether `p` holds.
  abbrev pub Says : Bool → Bool × SignState → Type 0
  Says p (passed, s) = IsTracked cx g named sigs s × (passed ≡ true → p ≡ true)

  module _ (closed : IsClosed cx g)
      (own : (k : ℕ) → contains k cx.available_keys ≡ true → g.keys k ≡ true) where
    address_case :
        (a : ℕ) (s : SignState)
        → ((k : ℕ) → member a (cx.addresses_of k) ≡ true → named k ≡ true)
        → IsTracked cx g named sigs s
        → Post AnyError
            (Says (g.addresses a))
            (elim (lookup a (or_else s.provided_address_sigs [])) [
              | some k ↦ ok (true, mark k s)
              | none ↦ elim (lookup a (or_else s.available_address_sigs [])) [
                | none ↦ err undefined
                | some k ↦
                    ok (if contains k cx.available_keys then (true, mark k s) else (false, s))
              ]
            ])
    address_case a s n t = elim (Option-cases (lookup a (or_else s.provided_address_sigs []))) [
      | inr (k, e) ↦
          let (y, z) = t.provided_map a k e in
          rw e (
            mark-IsTracked cx g named sigs closed own k s y (n k z) t,
            λ _. closed.address_of k a y z,
          )
      | inl e ↦ elim (Option-cases (lookup a (or_else s.available_address_sigs []))) [
        | inl f ↦ rw (e, f) tt
        | inr (k, f) ↦
            let (y, z) = t.available_map a k f in
            elim (Bool-cases (contains k cx.available_keys)) [
              | inl c ↦
                  rw (e, f, c)
                    (
                      mark-IsTracked cx g named sigs closed own k s y (n k z) t,
                      λ _. closed.address_of k a y z,
                    )
              | inr c ↦ rw (e, f, c) (t, λ h. absurd (ground arith))
            ]
      ]
    ]

    pub signed_by_address_lem :
        (a : ℕ) (s : SignState)
        → ((k : ℕ) → member a (cx.addresses_of k) ≡ true → named k ≡ true)
        → IsTracked cx g named sigs s
        → Post AnyError (Says (g.addresses a)) (signed_by_address cx a s)
    unfolding signed_by_address
    signed_by_address_lem a s0 n t0 =
        address_case a (with_address_sigs cx s0) n
          (with_address_sigs-IsTracked cx g named sigs closed own s0 t0)

    -- A loop that asks for one member more: it may skip the member, take its weight or return.
    pub loop_step :
        (base threshold : ℕ) (p : ℕ → Bool) (k w : ℕ) (m : Dict ℕ) (total : ℕ)
        (loop : ℕ → SignState → Result (Tally cx))
        → ((t : ℕ) (s : SignState)
            → IsTracked cx g named sigs s
            → t ≤ base + (if p k then w else 0)
            → Post AnyError (Counted (base + (if p k then w else 0)) threshold p m) (loop t s))
        → total ≤ base
        → (q : Bool × SignState) → Says (p k) q
        → Post AnyError (Counted base threshold p ((k, w) ∷ m)) (elim (q.0) [
          | false ↦ loop total (q.1)
          | true ↦ elim (leb threshold (plus cx total w)) [
            | true ↦ ok (record { returned = true; total = plus cx total w; state = q.1 })
            | false ↦ loop (plus cx total w) (q.1)
          ]
        ])
    loop_step base threshold p k w m total loop ih b (false, s) (t, y) =
        Post-map AnyError (Counted (base + (if p k then w else 0)) threshold p m)
          (Counted base threshold p ((k, w) ∷ m)) (loop total s) (count_step base threshold p k w m)
          (ih total s t (omega arith))
    loop_step base threshold p k w m total loop ih b (true, s) (t, y) =
        elim (Bool-cases (leb threshold (plus cx total w))) [
          | inl l ↦ rw l (count_done base threshold p k w m total s t (y refl) b l)
          | inr l ↦ rw l (
              Post-map AnyError (Counted (base + (if p k then w else 0)) threshold p m)
                (Counted base threshold p ((k, w) ∷ m)) (loop (plus cx total w) s)
                (count_step base threshold p k w m)
                (ih (plus cx total w) s t (take_bound base total w p k (y refl) b)))
        ]

    pub check_addresses_lem :
        (base threshold : ℕ) (m : Dict ℕ) (total : ℕ) (s : SignState)
        → NamesAddresses cx g named sigs m
        → IsTracked cx g named sigs s
        → total ≤ base
        → Post AnyError
            (Counted base threshold g.addresses m)
            (check_addresses cx threshold m total s)
    unfolding check_addresses
    check_addresses_lem base threshold [] total s n t b =
        (t, omega arith, λ h. absurd (ground arith))
    check_addresses_lem base threshold ((a, w) ∷ m) total s (n, ns) t b =
        Post-bind AnyError (Says (g.addresses a)) (Counted base threshold g.addresses ((a, w) ∷ m))
          (signed_by_address cx a s) _ (signed_by_address_lem a s n t)
          (loop_step base threshold g.addresses a w m total (check_addresses cx threshold m)
            (λ u s'.
              check_addresses_lem (base + (if g.addresses a then w else 0)) threshold m u s' ns)
            b)

    -- The loop over the keys is the same loop, of calls that never throw.
    keys_step :
        (threshold k w : ℕ) (m : Dict ℕ) (total : ℕ) (s : SignState)
        → ok (check_keys cx threshold ((k, w) ∷ m) total s) ≡ (elim ((signed_by cx k s).0) [
          | false ↦ ok (check_keys cx threshold m total (signed_by cx k s).1)
          | true ↦ elim (leb threshold (plus cx total w)) [
            | true ↦
                ok (record {
                  returned = true;
                  total = plus cx total w;
                  state = (signed_by cx k s).1;
                })
            | false ↦ ok (check_keys cx threshold m (plus cx total w) (signed_by cx k s).1)
          ]
        ])
    unfolding check_keys
    keys_step threshold k w m total s = ground arith

    pub check_keys_lem :
        (base threshold : ℕ) (m : Dict ℕ) (total : ℕ) (s : SignState)
        → NamesKeys cx g named sigs m
        → IsTracked cx g named sigs s
        → total ≤ base
        → Post AnyError (Counted base threshold g.keys m) (ok (check_keys cx threshold m total s))
    unfolding check_keys
    check_keys_lem base threshold [] total s n t b = (t, omega arith, λ h. absurd (ground arith))
    check_keys_lem base threshold ((k, w) ∷ m) total s (n, ns) t b =
        subst (Post AnyError (Counted base threshold g.keys ((k, w) ∷ m)))
          (sym (keys_step threshold k w m total s))
          (loop_step base threshold g.keys k w m total (λ u s'. ok (check_keys cx threshold m u s'))
            (λ u s'. check_keys_lem (base + (if g.keys k then w else 0)) threshold m u s' ns) b
            (signed_by cx k s) (signed_by_lem cx g named sigs closed own k s n t))
