-- ===== src/Permit/Periods.antt =====
-- What is left of the limit after a claim.
use karma_core.Base.{
  ℕ, ◌+◌, ◌-◌, ◌*◌, ◌/◌, ◌^◌, ◌≤◌, ◌<◌, ◌≡◌, leb, ◌==◌, if◌then◌else◌, arith, refl, ◌∙◌,
}
use native.Mathlib.Nat.{div-mul-le_self, lt-div-mul-add, mul-le-mul_right}
use karma_core.Permit.Types.{Permit, available_this_period}
use karma_core.Permit.Evaluators.{advance}

no_period : (n s : ℕ) → n / s ≡ 0 → 0 < s → n < s
no_period n s e h = let x = lt-div-mul-add {a = n} h in let y = zero_times s e in omega arith
  where
    zero_times : (s : ℕ) → n / s ≡ 0 → n / s * s ≡ 0
    zero_times s e = rw e (omega arith)

some_period : (n s : ℕ) → 0 < n / s → s ≤ n
some_period n s h = let x = div-mul-le_self n s in let y = mul-le-mul_right s h in omega arith

-- What is available, without wrap-around.
available_lem :
    (p : Permit) (now : ℕ)
    → p.period_start_time + p.withdrawal_period_sec < 2 ^ 32
    → available_this_period p now ≡ (
        if leb (p.period_start_time + p.withdrawal_period_sec) now
        then p.limit
        else p.limit - p.claimed_this_period)
unfolding available_this_period
available_lem p now w = ground arith

-- The period of the claim's time.
started :
    (p : Permit) (now amount : ℕ)
    → p.period_start_time ≤ now
    → now < 2 ^ 32
    → (advance p now amount).period_start_time
      ≡ p.period_start_time
        + (now - p.period_start_time) / p.withdrawal_period_sec * p.withdrawal_period_sec
unfolding advance
started p now amount l w =
    let x = div-mul-le_self (now - p.period_start_time) p.withdrawal_period_sec in ground arith

claimed :
    (p : Permit) (now amount : ℕ)
    → p.period_start_time ≤ now
    → (advance p now amount).claimed_this_period ≡ (
        if (now - p.period_start_time) / p.withdrawal_period_sec == 0
        then p.claimed_this_period + amount
        else amount)
unfolding advance
claimed p now amount l = ground arith

kept_terms :
    (p : Permit) (now amount : ℕ)
    → ((advance p now amount).limit ≡ p.limit)
      × ((advance p now amount).withdrawal_period_sec ≡ p.withdrawal_period_sec)
unfolding advance
kept_terms p now amount = (refl, refl)

in_period :
    (start now s : ℕ)
    → 0 < s
    → start ≤ now
    → (start + (now - start) / s * s ≤ now) × (now < start + (now - start) / s * s + s)
in_period start now s h l =
    let x = div-mul-le_self (now - start) s in
    let y = lt-div-mul-add {a = now - start} h in (omega arith, omega arith)

left_after :
    (p : Permit) (now amount : ℕ)
    → 0 < p.withdrawal_period_sec
    → p.period_start_time ≤ now
    → now + p.withdrawal_period_sec < 2 ^ 32
    → available_this_period (advance p now amount) now
      ≡ p.limit - (advance p now amount).claimed_this_period
left_after p now amount s l w =
    let (a, b) = in_period p.period_start_time now p.withdrawal_period_sec s l in
    let c = started p now amount l (omega arith) in
    let (d, e) = kept_terms p now amount in
    available_lem (advance p now amount) now (omega arith) ∙ ground arith

-- A claim uses up exactly its amount of what is available: at its own time, the permit that the
-- claim leaves has available what was available before less the amount. The period has started and
-- is positive, and its end has 32 bits.
pub available_this_period-advance :
    (p : Permit) (now amount : ℕ)
    → 0 < p.withdrawal_period_sec
    → p.period_start_time ≤ now
    → now + p.withdrawal_period_sec < 2 ^ 32
    → amount ≤ available_this_period p now
    → available_this_period (advance p now amount) now ≡ available_this_period p now - amount
available_this_period-advance p now amount s l w a =
    let n = now - p.period_start_time in
    let z = no_period n p.withdrawal_period_sec in
    let u = some_period n p.withdrawal_period_sec in
    let b = available_lem p now (omega arith) in
    let c = claimed p now amount l in left_after p now amount s l w ∙ ground arith
