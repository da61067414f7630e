-- ===== src/Base/Sums.antt =====
-- Sums over the entries of a map and over a list of accounts, and how one write changes them.
use karma_core.Base.{
  ℕ, ◌+◌, ◌≡◌, refl, List, [], ◌∷◌, none, some, ◌==◌, if◌then◌else◌, arith, Bool-cases, inl, inr,
}
use karma_core.Base.Dict.{Dict, lookup, insert, erase, Distinct}

-- How often an account is listed.
abbrev pub count : ℕ → List ℕ → ℕ
count a [] = 0
count a (b ∷ hs) = (if a == b then 1 else 0) + count a hs

abbrev pub sum_over : List ℕ → (ℕ → ℕ) → ℕ
sum_over [] f = 0
sum_over (a ∷ hs) f = f a + sum_over hs f

abbrev pub sum_of {ℓ} : {V : Type ℓ} → (V → ℕ) → Dict V → ℕ
sum_of f [] = 0
sum_of f ((k, v) ∷ m) = f v + sum_of f m

pub sum_over-ext :
    (hs : List ℕ) (f g : ℕ → ℕ) → ((b : ℕ) → g b ≡ f b) → sum_over hs g ≡ sum_over hs f
sum_over-ext [] f g h = refl
sum_over-ext (b ∷ hs) f g h = omega (arith, h b, sum_over-ext hs f g h)

-- A function that is changed at an account that is not listed, or is listed once.
sum_over-absent :
    (a v : ℕ) (hs : List ℕ) (f g : ℕ → ℕ)
    → ((b : ℕ) → g b ≡ (if b == a then v else f b))
    → count a hs ≡ 0
    → sum_over hs g ≡ sum_over hs f
sum_over-absent a v [] f g h c = refl
sum_over-absent a v (b ∷ hs) f g h c =
    let x = h b in let y = sum_over-absent a v hs f g h (ground arith) in ground arith

pub sum_over-once :
    (a v : ℕ) (hs : List ℕ) (f g : ℕ → ℕ)
    → ((b : ℕ) → g b ≡ (if b == a then v else f b))
    → count a hs ≡ 1
    → sum_over hs g + f a ≡ sum_over hs f + v
sum_over-once a v [] f g h c = absurd (omega arith)
sum_over-once a v (b ∷ hs) f g h c =
    let x = h b in
    elim (Bool-cases (a == b)) [
      | inl e ↦
          let y = sum_over-absent a v hs f g h (ground arith) in
          let z : b ≡ a = ground arith in ground arith
      | inr e ↦ let y = sum_over-once a v hs f g h (ground arith) in ground arith
    ]

module _ {ℓ} {V : Type ℓ} (f : V → ℕ) where
  pub sum_of-insert :
      (k : ℕ) (w v : V) (m : Dict V)
      → lookup k m ≡ some v
      → sum_of f (insert k w m) + f v ≡ sum_of f m + f w
  unfolding lookup insert
  sum_of-insert k w v [] h = absurd (ground arith)
  sum_of-insert k w v ((j, u) ∷ m) h = elim (Bool-cases (k == j)) [
    | inl e ↦ ground arith
    | inr e ↦ let y = sum_of-insert k w v m (ground arith) in ground arith
  ]

  erase_absent : (k : ℕ) (m : Dict V) → lookup k m ≡ none → sum_of f (erase k m) ≡ sum_of f m
  unfolding lookup erase
  erase_absent k [] h = refl
  erase_absent k ((j, u) ∷ m) h = let y = erase_absent k m (ground arith) in ground arith

  pub sum_of-erase :
      (k : ℕ) (v : V) (m : Dict V)
      → Distinct m
      → lookup k m ≡ some v
      → sum_of f (erase k m) + f v ≡ sum_of f m
  unfolding lookup erase
  sum_of-erase k v [] d h = absurd (ground arith)
  sum_of-erase k v ((j, u) ∷ m) d h = elim (Bool-cases (k == j)) [
    | inl e ↦
        let z : k ≡ j = ground arith in let y = erase_absent k m (ground arith) in ground arith
    | inr e ↦ let y = sum_of-erase k v m d.1 (ground arith) in ground arith
  ]
