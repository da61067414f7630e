-- ===== src/Schedule/Permuted.antt =====
-- The shuffled schedule is a permutation of the active witnesses.
use karma_core.Base.{
  ℕ, zero, suc, ◌+◌, ◌-◌, ◌*◌, ◌%◌, ◌^◌, ◌<◌, ◌≡◌, refl, ◌==◌, ltb, true, ok, if◌then◌else◌, some,
  List, [], ◌∷◌, length, get_elem?, set, arith, ◌∙◌,
}
use native.Mathlib.Nat.{mod-lt}
use karma_core.Base.Sums.{count}
use karma_core.Schedule.Shuffle.{
  swap, random, shuffle, update_witness_schedule, get_scheduled_witness, dword,
}

abbrev one_if : ℕ → ℕ → ℕ
one_if x y = if x == y then 1 else 0

count-set :
    (x : ℕ) (v : List ℕ) (i a b : ℕ)
    → get_elem? v i ≡ some a
    → count x (set v i b) + one_if x a ≡ count x v + one_if x b
count-set x [] i a b h = cc
count-set x (y ∷ ys) zero a b h = ground arith
count-set x (y ∷ ys) (suc i) a b h = let ih = count-set x ys i a b h in omega arith

length-set : (v : List ℕ) (i b : ℕ) → length (set v i b) ≡ length v
length-set [] i b = refl
length-set (y ∷ ys) zero b = refl
length-set (y ∷ ys) (suc i) b = omega (arith, length-set ys i b)

get_elem-set :
    (v : List ℕ) (i j b c : ℕ)
    → get_elem? v i ≡ some c
    → get_elem? (set v i b) j ≡ (if i == j then some b else get_elem? v j)
get_elem-set [] i j b c h = cc
get_elem-set (y ∷ ys) zero zero b c h = ground arith
get_elem-set (y ∷ ys) zero (suc j) b c h = ground arith
get_elem-set (y ∷ ys) (suc i) zero b c h = ground arith
get_elem-set (y ∷ ys) (suc i) (suc j) b c h = ground (arith, get_elem-set ys i j b c h)

get_elem-some : (v : List ℕ) (i : ℕ) → i < length v → (w : ℕ) × (get_elem? v i ≡ some w)
get_elem-some [] i h = absurd (omega arith)
get_elem-some (y ∷ ys) zero h = (y, refl)
get_elem-some (y ∷ ys) (suc i) h = get_elem-some ys i (omega arith)

-- A swap in range keeps the witnesses.
count-swap :
    (v : List ℕ) (i j : ℕ)
    → i < length v
    → j < length v
    → (w : List ℕ) × (swap v i j ≡ ok w) × ((x : ℕ) → count x w ≡ count x v) × (length w ≡ length v)
unfolding swap
count-swap v i j h k =
    let (a, e) = get_elem-some v i h in
    let (b, f) = get_elem-some v j k in
    (
      set (set v i b) j a,
      rw (e, f) refl,
      λ x.
          let g = get_elem-set v i j b a e in
          let p = count-set x v i a b e in
          let q = count-set x (set v i b) j b a (ground arith) in omega (arith, p, q),
      length-set (set v i b) j a ∙ length-set v i b,
    )

-- The rest of the loop never leaves the range.
count-shuffle :
    (now_hi todo i : ℕ) (v : List ℕ)
    → i + todo ≡ length v
    → (w : List ℕ) × (shuffle now_hi todo i v ≡ ok w)
      × ((x : ℕ) → count x w ≡ count x v)
      × (length w ≡ length v)
unfolding shuffle
count-shuffle now_hi zero i v h = (v, refl, λ x. refl, refl)
count-shuffle now_hi (suc todo) i v h =
    let r = mod-lt (random now_hi i) {m = length v - i} (omega arith) in
    let (u, e, d, m) =
      count-swap v i (i + random now_hi i % (length v - i)) (omega arith) (omega arith) in
    let (w, f, c, l) = count-shuffle now_hi todo (i + 1) u (omega (arith, h, m)) in
    (w, rw e f, λ x. c x ∙ d x, l ∙ m)

get_elem-count : (v : List ℕ) (i w : ℕ) → get_elem? v i ≡ some w → 0 < count w v
get_elem-count [] i w h = absurd cc
get_elem-count (y ∷ ys) zero w h = ground arith
get_elem-count (y ∷ ys) (suc i) w h = let ih = get_elem-count ys i w h in omega arith

-- In a round in which the number of the head block is a multiple of the number of the active
-- witnesses, of which there is one at least, the shuffle stays in range and ends in a new schedule
-- that has every witness as often as the active witnesses have it, and each slot is scheduled for one
-- of them.
pub update_witness_schedule-Permuted :
    (head_block_num head_block_time : ℕ) (active current : List ℕ)
    → 0 < length active
    → head_block_num % length active ≡ 0
    → (new : List ℕ) × (update_witness_schedule head_block_num head_block_time active current
        ≡ ok new)
      × ((x : ℕ) → count x new ≡ count x active)
      × (length new ≡ length active)
      × ((current_aslot slot_num : ℕ)
          → (w : ℕ) × (get_scheduled_witness current_aslot new slot_num ≡ some w)
            × (0 < count w active))
unfolding update_witness_schedule get_scheduled_witness
update_witness_schedule-Permuted hn ht active current p r =
    let (new, e, c, l) =
      count-shuffle (dword (ht * 2 ^ 32)) (length active) 0 active (omega arith) in
    let q : ltb 0 (length active) ≡ true = ground arith in
    (
      new,
      rw (q, r) e,
      c,
      l,
      λ aslot slot.
          let n = mod-lt (dword (aslot + slot)) {m = length new} (omega (arith, l)) in
          let (w, f) = get_elem-some new (dword (aslot + slot) % length new) n in
          let k = get_elem-count new (dword (aslot + slot) % length new) w f in
          (w, f, omega (arith, k, c w)),
    )
