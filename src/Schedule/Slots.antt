-- ===== src/Schedule/Slots.antt =====
-- `get_slot_time` and `get_slot_at_time`, in 32 bits.
use karma_core.Base.{ℕ, ◌+◌, ◌-◌, ◌*◌, ◌/◌, ◌%◌, ◌^◌, Bool, ltb, ◌==◌, if◌then◌else◌}

-- What the slots depend on, of the dynamic and the global properties. `block_interval` and
-- `maintenance_skip_slots` have 8 bits; the interval is validated to be positive.
pub record Clock : Type 0 where
  pub head_block_num : ℕ
  pub head_block_time : ℕ
  pub time : ℕ
  pub maintenance_flag : Bool
  pub block_interval : ℕ
  pub maintenance_skip_slots : ℕ

abbrev pub word : ℕ → ℕ
word n = n % 2 ^ 32

-- The slots that maintenance adds to `slot_num`.
abbrev pub with_skip : Clock → ℕ → ℕ
with_skip c slot_num =
    if c.maintenance_flag then word (slot_num + c.maintenance_skip_slots) else slot_num

unfoldable pub get_slot_time : Clock → ℕ → ℕ
get_slot_time c slot_num =
    if slot_num == 0
    then 0
    else if c.head_block_num == 0
    then word (c.time + word (slot_num * c.block_interval))
    else word (
        word (c.head_block_time / c.block_interval * c.block_interval)
        + word (with_skip c slot_num * c.block_interval))

unfoldable pub get_slot_at_time : Clock → ℕ → ℕ
unfolding get_slot_time
get_slot_at_time c when =
    if ltb when (get_slot_time c 1)
    then 0
    else word ((when - get_slot_time c 1) / c.block_interval + 1)
