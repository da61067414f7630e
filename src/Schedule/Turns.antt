-- ===== src/Schedule/Turns.antt =====
-- Every active witness has its turn.
use karma_core.Base.{
  ℕ, suc, ◌+◌, ◌-◌, ◌%◌, ◌^◌, ◌<◌, ◌≡◌, ok, some, List, [], ◌∷◌, length, get_elem?, arith,
  Bool-cases, inl, inr, ◌==◌, leb, sym, ◌∙◌,
}
use native.Mathlib.Nat.{mod-lt, mod-eq_of_lt, mod-add-mod, add-mod_left}
use karma_core.Base.Sums.{count}
use karma_core.Schedule.Shuffle.{update_witness_schedule, get_scheduled_witness}
use karma_core.Schedule.Permuted.{update_witness_schedule-Permuted}

-- A listed witness has a position.
position :
    (x : ℕ) (v : List ℕ) → 0 < count x v → (i : ℕ) × (i < length v) × (get_elem? v i ≡ some x)
position x [] h = absurd (omega arith)
position x (y ∷ ys) h = elim (Bool-cases (x == y)) [
  | inl e ↦ (0, omega arith, ground arith)
  | inr e ↦ let (i, lt, f) = position x ys (ground arith) in (suc i, omega arith, f)
]

-- Every residue is met by one of `n` consecutive numbers.
residue : (a n i : ℕ) → i < n → (k : ℕ) × (k < n) × ((a + k) % n ≡ i)
residue a n i h =
    let r = mod-lt a {m = n} (omega arith) in
    let s = mod-eq_of_lt h in
    elim (Bool-cases (leb (a % n) i)) [
      | inl e ↦ (
        i - a % n,
        omega arith,
        sym (mod-add-mod a n (i - a % n))
            ∙ let z : a % n + (i - a % n) ≡ i = ground arith in rw z s,
      )
      | inr e ↦ (
        n + i - a % n,
        ground arith,
        sym (mod-add-mod a n (n + i - a % n))
            ∙ let z : a % n + (n + i - a % n) ≡ n + i = ground arith in rw z (add-mod_left n i ∙ s),
      )
    ]

-- In a round in which the schedule is shuffled, each active witness is scheduled for one of the next
-- as many slots as there are active witnesses, where the numbers of those slots have 64 bits.
pub get_scheduled_witness-Turn :
    (head_block_num head_block_time current_aslot slot_num x : ℕ) (active current : List ℕ)
    → head_block_num % length active ≡ 0
    → 0 < count x active
    → current_aslot + slot_num + length active < 2 ^ 64
    → (new : List ℕ) × (update_witness_schedule head_block_num head_block_time active current
        ≡ ok new)
      × (k : ℕ) × (k < length active)
      × (get_scheduled_witness current_aslot new (slot_num + k) ≡ some x)
unfolding get_scheduled_witness
get_scheduled_witness-Turn hn ht aslot slot x active current r c w =
    let (z, some_active, _) = position x active c in
    let (new, q, p, l, _) =
      update_witness_schedule-Permuted hn ht active current (omega (arith, some_active)) r in
    let (i, lt, e) = position x new (omega (arith, p x)) in
    let (k, below, f) = residue (aslot + slot) (length active) i (omega arith) in
    let d : (aslot + (slot + k)) % 2 ^ 64 ≡ aslot + slot + k =
      let m : aslot + (slot + k) < 2 ^ 64 = omega arith in mod-eq_of_lt m ∙ omega arith in
    (new, q, k, below, rw (d, l, f) e)
