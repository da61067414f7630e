-- ===== src/Schedule/Shuffle.antt =====
-- `update_witness_schedule` and `get_scheduled_witness`. A remainder by 0, of no active witnesses, is
-- `undefined`.
use karma_core.Base.{
  ℕ, zero, suc, ◌+◌, ◌-◌, ◌*◌, ◌/◌, ◌%◌, ◌^◌, bit_xor, ◌==◌, ltb, true, false, Option, Result, ok,
  or_fail, guard, undefined, ◌>>=◌, ◌>>◌, List, length, get_elem?, set,
}

abbrev pub dword : ℕ → ℕ
dword n = n % 2 ^ 64

abbrev pub multiplier : ℕ
multiplier = 2685821657736338717

-- The random number of position `i`: xorshift in 64 bits.
unfoldable pub random : ℕ → ℕ → ℕ
random now_hi i =
    let k0 = dword (now_hi + i * multiplier) in
    let k1 = bit_xor k0 (k0 / 2 ^ 12) in
    let k2 = bit_xor k1 (dword (k1 * 2 ^ 25)) in
    let k3 = bit_xor k2 (k2 / 2 ^ 27) in dword (k3 * multiplier)

-- `std::swap( v[i], v[j] )`; an index out of range is `undefined`.
unfoldable pub swap : List ℕ → ℕ → ℕ → Result (List ℕ)
swap v i j = or_fail (get_elem? v i) undefined >>= λ a.
    or_fail (get_elem? v j) undefined >>= λ b. ok (set (set v i b) j a)

-- The loop from `i`, which has `todo` rounds left.
unfoldable pub shuffle : ℕ → ℕ → ℕ → List ℕ → Result (List ℕ)
unfolding random swap
shuffle now_hi zero i v = ok v
shuffle now_hi (suc todo) i v =
    swap v i (i + random now_hi i % (length v - i)) >>= shuffle now_hi todo (i + 1)

unfoldable pub update_witness_schedule : ℕ → ℕ → List ℕ → List ℕ → Result (List ℕ)
unfolding shuffle
update_witness_schedule head_block_num head_block_time active_witnesses current =
    guard (ltb 0 (length active_witnesses)) undefined
    >> (elim (head_block_num % length active_witnesses == 0) [
      | true ↦
          shuffle (dword (head_block_time * 2 ^ 32)) (length active_witnesses) 0 active_witnesses
      | false ↦ ok current
    ])

-- `none` is a read out of range: of an empty schedule.
unfoldable pub get_scheduled_witness : ℕ → List ℕ → ℕ → Option ℕ
get_scheduled_witness current_aslot current slot_num =
    get_elem? current (dword (current_aslot + slot_num) % length current)
