-- ===== src/Authority/Keys.antt =====
-- `get_signature_keys`: the set of the keys that signed.
use karma_core.Base.{
  ℕ, suc, ◌+◌, ◌≡◌, refl, inl, inr, false, ◌||◌, List, [], ◌∷◌, ◌==◌, map, length, arith,
  Bool-cases, duplicate_signature, Post, Post-weaken, ◌≤◌, ◌<◌, if◌then◌else◌, Error,
}
use karma_core.Base.Sums.{count}
use karma_core.Authority.Types.{insert_sorted, member}
use karma_core.Authority.Verify.{get_signature_keys}

pub member-insert_sorted :
    (k x : ℕ) (keys : List ℕ) → member k (insert_sorted x keys) ≡ (k == x || member k keys)
unfolding insert_sorted member
member-insert_sorted k x [] = ground arith
member-insert_sorted k x (y ∷ ys) = ground (arith, member-insert_sorted k x ys)

length-insert_sorted :
    (x : ℕ) (keys : List ℕ)
    → member x keys ≡ false
    → length (insert_sorted x keys) ≡ suc (length keys)
unfolding insert_sorted member
length-insert_sorted x [] h = omega arith
length-insert_sorted x (y ∷ ys) h = ground (arith, length-insert_sorted x ys)

-- How many of the signatures, and of the keys before them, are a key.
abbrev load : (ℕ → ℕ) → ℕ → List ℕ → List ℕ → ℕ
load recover k sigs before = count k (map recover sigs) + (if member k before then 1 else 0)

-- A key is met for the second time.
abbrev Repeated : (ℕ → ℕ) → List ℕ → List ℕ → Error → Type 0
Repeated recover sigs before e =
    (e ≡ duplicate_signature) × ((k : ℕ) × (1 < load recover k sigs before))

load_step :
    (recover : ℕ → ℕ) (sig k : ℕ) (sigs before : List ℕ)
    → member (recover sig) before ≡ false
    → load recover k (sig ∷ sigs) before ≡ load recover k sigs (insert_sorted (recover sig) before)
load_step recover sig k sigs before f =
    let m = member-insert_sorted k (recover sig) before in
    elim (Bool-cases (k == recover sig)) [
      | inl z ↦ let y : k ≡ recover sig = ground arith in rw (m, z, y, f) (ground arith)
      | inr z ↦ rw (m, z) (ground arith)
    ]

-- The keys that are found.
pub record Collected (recover : ℕ → ℕ) (sigs before keys : List ℕ) : Type 0 where
  pub members : (k : ℕ) → member k keys ≡ (member k (map recover sigs) || member k before)
  pub counted : length keys ≡ length sigs + length before
  pub once : (k : ℕ) → load recover k sigs before ≤ 1

collect_step :
    (recover : ℕ → ℕ) (sig : ℕ) (sigs before keys : List ℕ)
    → member (recover sig) before ≡ false
    → Collected recover sigs (insert_sorted (recover sig) before) keys
    → Collected recover (sig ∷ sigs) before keys
unfolding member
collect_step recover sig sigs before keys f c = record {
  members = λ k. ground (arith, c.members k, member-insert_sorted k (recover sig) before);
  counted = omega (arith, c.counted, length-insert_sorted (recover sig) before f);
  once = λ k. omega (arith, c.once k, load_step recover sig k sigs before f);
}

or_nothing : (k : ℕ) (l : List ℕ) → (member k l || member k []) ≡ member k l
unfolding member
or_nothing k l = ground arith

get_signature_keys-Collected :
    (recover : ℕ → ℕ) (sigs before : List ℕ)
    → Post
        (Repeated recover sigs before)
        (Collected recover sigs before)
        (get_signature_keys recover sigs before)
unfolding get_signature_keys member
get_signature_keys-Collected recover [] before = record {
  members = λ k. refl;
  counted = omega arith;
  once = λ k. ground arith;
}
get_signature_keys-Collected recover (sig ∷ sigs) before =
    elim (Bool-cases (member (recover sig) before)) [
      | inl h ↦ rw (h, Post) (refl, (recover sig, ground arith))
      | inr h ↦
          let m = get_signature_keys-Collected recover sigs (insert_sorted (recover sig) before) in
          rw (h, Post)
            (Post-weaken (Repeated recover sigs (insert_sorted (recover sig) before))
              (Repeated recover (sig ∷ sigs) before)
              (Collected recover sigs (insert_sorted (recover sig) before))
              (Collected recover (sig ∷ sigs) before)
              (get_signature_keys recover sigs (insert_sorted (recover sig) before))
              (λ e (i, (k, w)). (i, (k, omega (arith, w, load_step recover sig k sigs before h))))
              (λ keys. collect_step recover sig sigs before keys h) m)
    ]

-- `get_signature_keys` throws that a signature is a duplicate, and then two signatures recover to one
-- key, or returns the set of the keys that the signatures recover to, and then each signature
-- recovers to another key and the set has as many members.
pub get_signature_keys_lem :
    (recover : ℕ → ℕ) (sigs : List ℕ)
    → Post
        (λ e. (e ≡ duplicate_signature) × ((k : ℕ) × (1 < count k (map recover sigs))))
        (λ keys.
          ((k : ℕ) → count k (map recover sigs) ≤ 1)
          × ((k : ℕ) → member k keys ≡ member k (map recover sigs))
          × (length keys ≡ length sigs))
        (get_signature_keys recover sigs [])
unfolding member
get_signature_keys_lem recover sigs =
    Post-weaken (Repeated recover sigs [])
      (λ e. (e ≡ duplicate_signature) × ((k : ℕ) × (1 < count k (map recover sigs))))
      (Collected recover sigs [])
      (λ keys.
        ((k : ℕ) → count k (map recover sigs) ≤ 1)
        × ((k : ℕ) → member k keys ≡ member k (map recover sigs))
        × (length keys ≡ length sigs))
      (get_signature_keys recover sigs []) (λ e (i, (k, w)). (i, (k, omega (arith, w))))
      (λ keys c. (
        λ k. omega (arith, c.once k),
        λ k. rw (c.members k) (or_nothing k (map recover sigs)),
        omega (arith, c.counted),
      ))
      (get_signature_keys-Collected recover sigs [])
