-- ===== src/Schedule/Examples.antt =====
-- Tests of the slots and of the shuffle, and the theorems about them at a head block after maintenance.
use karma_core.Base.{
  ℕ, ◌+◌, ◌*◌, ◌≤◌, ◌<◌, ◌≡◌, refl, true, some, ok, err, undefined, List, [], ◌∷◌, length, arith,
}
use karma_core.Schedule.Slots.{Clock, get_slot_time, get_slot_at_time}
use karma_core.Base.Sums.{count}
use karma_core.Schedule.Shuffle.{update_witness_schedule, get_scheduled_witness}
use karma_core.Schedule.Times.{
  origin, get_slot_at_time-get_slot_time, get_slot_time-get_slot_at_time,
}
use karma_core.Schedule.Turns.{get_scheduled_witness-Turn}
use karma_core.Schedule.Permuted.{update_witness_schedule-Permuted}

abbrev clock : Clock
clock = record {
  head_block_num = 600;
  head_block_time = 1500000001;
  time = 1500000001;
  maintenance_flag = true;
  block_interval = 5;
  maintenance_skip_slots = 3;
}

-- The head block's slot began a second before, and the next slot is the fourth after it.
next_slot : get_slot_time clock 1 ≡ 1500000020
unfolding get_slot_time
next_slot = refl

get_slot_at_time-get_slot_time_example : get_slot_at_time clock (get_slot_time clock 7) ≡ 7
get_slot_at_time-get_slot_time_example =
    get_slot_at_time-get_slot_time clock 7 (omega arith) (omega arith) (omega arith)

get_slot_time-get_slot_at_time_example :
    (get_slot_time clock (get_slot_at_time clock 1500000033) ≤ 1500000033)
    × (1500000033 < origin clock + (get_slot_at_time clock 1500000033 + 1) * 5)
get_slot_time-get_slot_at_time_example =
    get_slot_time-get_slot_at_time clock 1500000033 (omega arith) (omega arith) (omega arith)

abbrev witnesses : List ℕ
witnesses = 11 ∷ 12 ∷ 13 ∷ []

update_witness_schedule-Permuted_example :
    (new : List ℕ) × (update_witness_schedule 600 1500000001 witnesses [] ≡ ok new)
    × ((x : ℕ) → count x new ≡ count x witnesses)
    × (length new ≡ 3)
    × ((current_aslot slot_num : ℕ)
        → (w : ℕ) × (get_scheduled_witness current_aslot new slot_num ≡ some w)
          × (0 < count w witnesses))
update_witness_schedule-Permuted_example =
    update_witness_schedule-Permuted 600 1500000001 witnesses [] (omega arith) (omega arith)

get_scheduled_witness-Turn_example :
    (new : List ℕ) × (update_witness_schedule 600 1500000001 witnesses [] ≡ ok new)
    × (k : ℕ) × (k < 3)
    × (get_scheduled_witness 90 new (4 + k) ≡ some 13)
get_scheduled_witness-Turn_example =
    get_scheduled_witness-Turn 600 1500000001 90 4 13 witnesses [] (omega arith) (omega arith)
      (omega arith)

test_no_witnesses : update_witness_schedule 600 1500000001 [] [] ≡ err undefined
unfolding update_witness_schedule
test_no_witnesses = refl
