-- ===== src/Schedule/Times.antt =====
-- Slots and times correspond.
use karma_core.Base.{ℕ, ◌+◌, ◌-◌, ◌*◌, ◌/◌, ◌^◌, ◌≤◌, ◌<◌, ◌≡◌, ◌==◌, if◌then◌else◌, arith, ap, ◌∙◌}
use native.Mathlib.Nat.{
  mul-le-mul_left, mul-le-mul_right, div-le_self, div-mul-le_self, mul-div_cancel, lt-div-mul-add,
}
use karma_core.Schedule.Slots.{Clock, get_slot_time, get_slot_at_time}

-- The time of slot 0, from which the slots count: the genesis, or the head block's slot with the
-- slots that maintenance skips.
abbrev pub origin : Clock → ℕ
origin c =
    if c.head_block_num == 0
    then c.time
    else c.head_block_time / c.block_interval * c.block_interval
      + (if c.maintenance_flag then c.maintenance_skip_slots else 0) * c.block_interval

plus_product : (a b r : ℕ) → (a + b) * r ≡ a * r + b * r
plus_product a b r = omega arith

factor_le : (n r m : ℕ) → 0 < r → n * r < m → n < m
factor_le n r m h k = let x = mul-le-mul_left n h in omega arith

-- The time of a slot that fits in 32 bits.
pub get_slot_time_lem :
    (c : Clock) (slot_num : ℕ)
    → 0 < slot_num
    → 0 < c.block_interval
    → origin c + slot_num * c.block_interval < 2 ^ 32
    → get_slot_time c slot_num ≡ origin c + slot_num * c.block_interval
unfolding get_slot_time
get_slot_time_lem c n p i b =
    let x = plus_product n c.maintenance_skip_slots c.block_interval in
    let y = factor_le (n + c.maintenance_skip_slots) c.block_interval (2 ^ 32) i in ground arith

back_one : (n : ℕ) → 0 < n → n - 1 + 1 ≡ n
back_one n h = omega arith

one_slot : (c : Clock) → origin c + 1 * c.block_interval ≡ origin c + c.block_interval
one_slot c = omega arith

one_le : (n r : ℕ) → 0 < n → r ≤ n * r
one_le n r h = let x = mul-le-mul_right r h in omega arith

put_one : (n r : ℕ) → 0 < n → (n - 1 + 1) * r ≡ n * r
put_one n r h = ap (λ x. x * r) (back_one n h)

first_slot :
    (c : Clock)
    → 0 < c.block_interval
    → origin c + c.block_interval < 2 ^ 32
    → get_slot_time c 1 ≡ origin c + c.block_interval
first_slot c i b = get_slot_time_lem c 1 (omega arith) i (omega arith) ∙ one_slot c

slot_number :
    (c : Clock) (when first : ℕ)
    → get_slot_time c 1 ≡ first
    → 0 < first
    → first ≤ when
    → when < 2 ^ 32
    → get_slot_at_time c when ≡ (when - first) / c.block_interval + 1
unfolding get_slot_at_time
slot_number c when first e p l b =
    let x = div-le_self (when - first) c.block_interval in rw e (ground arith)

slots_between : (o n r : ℕ) → 0 < n → o + n * r - (o + r) ≡ (n - 1) * r
slots_between o n r h = let x = plus_product (n - 1) 1 r in let y = put_one n r h in omega arith

-- `get_slot_at_time` finds every slot, from 1 on, that begins within 32 bits, where the block interval
-- is positive.
pub get_slot_at_time-get_slot_time :
    (c : Clock) (slot_num : ℕ)
    → 0 < slot_num
    → 0 < c.block_interval
    → origin c + slot_num * c.block_interval < 2 ^ 32
    → get_slot_at_time c (get_slot_time c slot_num) ≡ slot_num
get_slot_at_time-get_slot_time c n p i b =
    let k = one_le n c.block_interval p in
    rw
      (
        get_slot_time_lem c n p i b,
        slot_number c (origin c + n * c.block_interval) (origin c + c.block_interval)
            (first_slot c i (omega arith)) (omega arith) (omega arith) b,
        slots_between (origin c) n c.block_interval p,
        mul-div_cancel (n - 1) i,
      )
      (omega arith)

-- A time within 32 bits that is not before the first slot is in the slot that `get_slot_at_time` gives:
-- not before it begins, and before the next one. The block interval is positive.
pub get_slot_time-get_slot_at_time :
    (c : Clock) (when : ℕ)
    → 0 < c.block_interval
    → when < 2 ^ 32
    → origin c + c.block_interval ≤ when
    → (get_slot_time c (get_slot_at_time c when) ≤ when)
      × (when < origin c + (get_slot_at_time c when + 1) * c.block_interval)
get_slot_time-get_slot_at_time c when i b h =
    let first = origin c + c.block_interval in
    let n = (when - first) / c.block_interval in
    let x = div-mul-le_self (when - first) c.block_interval in
    let y = lt-div-mul-add {a = when - first} i in
    let z = plus_product n 1 c.block_interval in
    let u = plus_product (n + 1) 1 c.block_interval in
    rw (slot_number c when first (first_slot c i (omega arith)) (omega arith) h b)
      (rw (get_slot_time_lem c (n + 1) (omega arith) i (omega arith)) (omega arith), omega arith)
