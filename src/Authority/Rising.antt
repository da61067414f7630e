-- ===== src/Authority/Rising.antt =====
-- Strictly rising lists of keys, as the sets of keys are kept.
use karma_core.Base.{
  ℕ, ◌≡◌, refl, ◌<◌, inl, inr, true, List, [], ◌∷◌, ltb, ◌==◌, arith, Bool-cases, sym, subst,
}
use karma_core.Authority.Types.{insert_sorted, member}
use karma_core.Authority.Minimize.{without}

abbrev pub Above : ℕ → List ℕ → Type 0
Above k [] = Unit
Above k (x ∷ xs) = (k < x) × Above k xs

-- Strictly rising.
abbrev pub Rising : List ℕ → Type 0
Rising [] = Unit
Rising (x ∷ xs) = Above x xs × Rising xs

pub Above-without : (j k : ℕ) (xs : List ℕ) → Above j xs → Above j (without k xs)
unfolding without
Above-without j k [] h = tt
Above-without j k (x ∷ xs) (h, t) = elim (Bool-cases (k == x)) [
  | inl e ↦ rw e (Above-without j k xs t)
  | inr e ↦ rw e (h, Above-without j k xs t)
]

pub without-Rising : (k : ℕ) (xs : List ℕ) → Rising xs → Rising (without k xs)
unfolding without
without-Rising k [] h = tt
without-Rising k (x ∷ xs) (a, r) = elim (Bool-cases (k == x)) [
  | inl e ↦ rw e (without-Rising k xs r)
  | inr e ↦ rw e (Above-without x k xs a, without-Rising k xs r)
]

pub without-Above : (k : ℕ) (xs : List ℕ) → Above k xs → without k xs ≡ xs
unfolding without
without-Above k [] h = refl
without-Above k (x ∷ xs) (h, t) = ground (arith, without-Above k xs t)

pub insert_sorted-Above : (k : ℕ) (xs : List ℕ) → Above k xs → insert_sorted k xs ≡ k ∷ xs
unfolding insert_sorted
insert_sorted-Above k [] h = refl
insert_sorted-Above k (x ∷ xs) (h, t) = ground arith

pub member-Above : (j k : ℕ) (xs : List ℕ) → Above j xs → member k xs ≡ true → j < k
unfolding member
member-Above j k [] h e = absurd (ground arith)
member-Above j k (x ∷ xs) (h, t) e = elim (Bool-cases (k == x)) [
  | inl q ↦ ground arith
  | inr q ↦ member-Above j k xs t (ground arith)
]

pub same_key : (k x : ℕ) → (k == x) ≡ true → k ≡ x
same_key k x e = ground arith

pub put_back_first :
    (x : ℕ) (xs : List ℕ) → Above x xs → insert_sorted x (without x (x ∷ xs)) ≡ x ∷ xs
unfolding without
put_back_first x xs a = ground (arith, without-Above x xs a, insert_sorted-Above x xs a)

-- A key of a rising list that is taken out and put back.
pub put_back :
    (k : ℕ) (xs : List ℕ) → Rising xs → member k xs ≡ true → insert_sorted k (without k xs) ≡ xs
unfolding without insert_sorted member
put_back k [] r e = absurd (ground arith)
put_back k (x ∷ xs) (a, r) e = elim (Bool-cases (k == x)) [
  | inl q ↦
      subst (λ j. insert_sorted j (without j (x ∷ xs)) ≡ x ∷ xs) (sym (same_key k x q))
        (put_back_first x xs a)
  | inr q ↦
      let m : member k xs ≡ true = ground arith in
      let l = member-Above x k xs a m in ground (arith, put_back k xs r m)
]

pub member-without :
    (j k : ℕ) (xs : List ℕ) → j < k → member k xs ≡ true → member k (without j xs) ≡ true
unfolding without member
member-without j k [] l e = e
member-without j k (x ∷ xs) l e = ground (arith, member-without j k xs l)

-- Every key of a list is in another.
abbrev pub Within : List ℕ → List ℕ → Type 0
Within [] ys = Unit
Within (x ∷ xs) ys = (member x ys ≡ true) × Within xs ys

pub Within-without : (k : ℕ) (xs ys : List ℕ) → Above k xs → Within xs ys → Within xs (without k ys)
Within-without k [] ys a w = tt
Within-without k (x ∷ xs) ys (l, a) (m, w) = (member-without k x ys l m, Within-without k xs ys a w)

pub Within-cons : (y : ℕ) (xs ys : List ℕ) → Within xs ys → Within xs (y ∷ ys)
unfolding member
Within-cons y [] ys w = tt
Within-cons y (x ∷ xs) ys (m, w) = (ground arith, Within-cons y xs ys w)

pub Within-refl : (xs : List ℕ) → Within xs xs
unfolding member
Within-refl [] = tt
Within-refl (x ∷ xs) = (ground arith, Within-cons x xs xs (Within-refl xs))

pub Above-insert_sorted :
    (j k : ℕ) (xs : List ℕ) → j < k → Above j xs → Above j (insert_sorted k xs)
unfolding insert_sorted
Above-insert_sorted j k [] l a = (l, tt)
Above-insert_sorted j k (x ∷ xs) l (h, a) = elim (Bool-cases (ltb k x)) [
  | inl e ↦ rw e (l, (h, a))
  | inr e ↦ elim (Bool-cases (k == x)) [
    | inl f ↦ rw (e, f) (h, a)
    | inr f ↦ rw (e, f) (h, Above-insert_sorted j k xs l a)
  ]
]

pub Above-mono : (j k : ℕ) (xs : List ℕ) → j < k → Above k xs → Above j xs
Above-mono j k [] l a = tt
Above-mono j k (x ∷ xs) l (h, a) = (omega arith, Above-mono j k xs l a)

pub insert_sorted-Rising : (k : ℕ) (xs : List ℕ) → Rising xs → Rising (insert_sorted k xs)
unfolding insert_sorted
insert_sorted-Rising k [] r = (tt, tt)
insert_sorted-Rising k (x ∷ xs) (a, r) = elim (Bool-cases (ltb k x)) [
  | inl e ↦ rw e ((ground arith, Above-mono k x xs (ground arith) a), (a, r))
  | inr e ↦ elim (Bool-cases (k == x)) [
    | inl f ↦ rw (e, f) (a, r)
    | inr f ↦ rw (e, f) (Above-insert_sorted x k xs (ground arith) a, insert_sorted-Rising k xs r)
  ]
]
