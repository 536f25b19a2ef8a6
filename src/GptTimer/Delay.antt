-- ===== src/GptTimer/Delay.antt =====
-- MicroSecondDelay (HtcLeoPkg/Library/GPTTimerLib/GPTTimerLib.c) against a counter that runs, and
-- the time conversion.
use lgoptimus_l3pkg.Common.{
  ℕ, zero, suc, ◌+◌, ◌-◌, ◌*◌, ◌/◌, ◌%◌, ◌^◌, ◌≤◌, ◌<◌, ◌≡◌, refl, sym, ap, ◌∙◌, ◌⊎◌, inl, inr,
  Bool, true, false, ◌&&◌, some, arith, ltb, leb, ltb→lt, Bool-cases,
}
use lgoptimus_l3pkg.Common.Io.{Io}
use lgoptimus_l3pkg.GptTimer.{Gpt, poll, ticks_of, micro_second_delay, get_time_in_nano_second}

-- The time in ticks at each read of the counter: no read misses a tick, and a tick comes within
-- `slow` reads.
pub record IsClock (slow : ℕ) (time : ℕ → ℕ) : Type 0 where
  pub no_jump : (n : ℕ) → (time (suc n) ≡ time n) ⊎ (time (suc n) ≡ suc (time n))
  pub runs : (n : ℕ) → time n < time (n + slow)

-- A device that shows the lower 32 bits of the time, and counts the reads.
pub record IsCounter {V : Type 0} (io : Io V) (gpt : Gpt) (time : ℕ → ℕ) (reads : V → ℕ)
    : Type 0 where
  pub value : (v : V) → (io.readl gpt.count_val v).0 ≡ time (reads v) % 2 ^ 32
  pub counts : (v : V) → reads (io.readl gpt.count_val v).1 ≡ suc (reads v)

module _ (slow : ℕ) (time : ℕ → ℕ) (clock : IsClock slow time) where
  at_once : (c : ℕ) → time (c + 0) ≡ time c
  at_once c = ap time (omega arith)

  shift : (c j : ℕ) → time (c + suc j) ≡ time (suc c + j)
  shift c j = ap time (omega arith)

  regroup : (c n m : ℕ) → time (c + (n + m)) ≡ time (c + n + m)
  regroup c n m = ap time (omega arith)

  unmoved :
      (c n : ℕ)
      → time (suc c) ≡ time c
      → ((j : ℕ) → j < n → time (suc c + j) ≡ time (suc c))
      → (j : ℕ) → j < suc n
      → time (c + j) ≡ time c
  unmoved c n same before zero lt = at_once c
  unmoved c n same before (suc j) lt = shift c j ∙ before j (omega arith) ∙ same

  -- The next tick, if it comes within k reads.
  next_tick :
      (k c : ℕ)
      → time c < time (c + k)
      → (n : ℕ) × (n ≤ k)
        × (time (c + n) ≡ suc (time c))
        × ((j : ℕ) → j < n → time (c + j) ≡ time c)
  next_tick zero c h = absurd (omega (arith, h, at_once c))
  next_tick (suc k) c h = elim (clock.no_jump c) [
    | inl same ↦
        let h' : time (suc c) < time (suc c + k) = omega (arith, same, h, shift c k) in
        let (n, le, tick, before) = next_tick k (suc c) h' in
        (suc n, omega arith, shift c n ∙ tick ∙ ap suc same, unmoved c n same before)
    | inr tick ↦ (1, omega arith, ap time (omega arith) ∙ tick, λ j lt. ap time (omega arith))
  ]

  -- The first read at which d ticks have passed.
  pub reach :
      (d c : ℕ)
      → (n : ℕ) × (n ≤ d * slow)
        × (time (c + n) ≡ time c + d)
        × ((j : ℕ) → j < n → time (c + j) < time c + d)
  reach zero c = (0, omega arith, omega (arith, at_once c), λ j lt. absurd (omega arith))
  reach (suc d) c =
      let (n, le, tick, before) = next_tick slow c (clock.runs c) in
      let (m, le', at, before') = reach d (c + n) in
      (
        n + m,
        omega (arith, le, le'),
        regroup c n m ∙ at ∙ ap (λ x. x + d) tick ∙ omega arith,
        λ j lt. elim (Bool-cases (ltb j n)) [
          | inl e ↦ ground (arith, before j)
          | inr e ↦
              let small : j - n < m = ground arith in
              let place : c + n + (j - n) ≡ c + j = ground arith in
              omega (arith, before' (j - n) small, ap time place, tick)
        ],
      )

  pub time_mono : (j c : ℕ) → time c ≤ time (c + j)
  time_mono zero c = omega (arith, at_once c)
  time_mono (suc j) c =
      let up_one : time (c + suc j) ≡ time (suc (c + j)) = ap time (omega arith) in
      elim (clock.no_jump (c + j)) [
        | inl e ↦ omega (arith, e, time_mono j c, up_one)
        | inr e ↦ omega (arith, e, time_mono j c, up_one)
      ]

-- The tests of the two loops at the time t, T being the time of the first read and k the ticks.
early_before :
    (T t k : ℕ)
    → T % 2 ^ 32 + k < 2 ^ 32
    → T ≤ t
    → t < T + k
    → ltb (t % 2 ^ 32) ((T % 2 ^ 32 + k) % 2 ^ 32) ≡ true
early_before T t k h le lt = ground arith

wrapped_before :
    (T t k : ℕ)
    → 2 ^ 32 ≤ T % 2 ^ 32 + k
    → k < 2 ^ 32
    → T ≤ t
    → t < T + (2 ^ 32 - T % 2 ^ 32)
    → ltb ((T % 2 ^ 32 + k) % 2 ^ 32) (t % 2 ^ 32) && leb (T % 2 ^ 32) (t % 2 ^ 32) ≡ true
wrapped_before T t k h small le lt = ground arith

wrapped_ends :
    (T t k : ℕ)
    → 2 ^ 32 ≤ T % 2 ^ 32 + k
    → k < 2 ^ 32
    → t ≡ T + (2 ^ 32 - T % 2 ^ 32)
    → ltb ((T % 2 ^ 32 + k) % 2 ^ 32) (t % 2 ^ 32) && leb (T % 2 ^ 32) (t % 2 ^ 32) ≡ false
wrapped_ends T t k h small at = ground arith

early_after_wrap :
    (T u t k : ℕ)
    → 2 ^ 32 ≤ T % 2 ^ 32 + k
    → k < 2 ^ 32
    → u ≡ T + (2 ^ 32 - T % 2 ^ 32)
    → u ≤ t
    → t < u + (T % 2 ^ 32 + k - 2 ^ 32)
    → ltb (t % 2 ^ 32) ((T % 2 ^ 32 + k) % 2 ^ 32) ≡ true
early_after_wrap T u t k h small wrap le lt = ground arith

early_ends : (T t k : ℕ) → t ≡ T + k → ltb (t % 2 ^ 32) ((T % 2 ^ 32 + k) % 2 ^ 32) ≡ false
early_ends T t k at = ground arith

module _ {V : Type 0} (io : Io V) (gpt : Gpt) (slow : ℕ) (time : ℕ → ℕ) (reads : V → ℕ)
    (clock : IsClock slow time) (counter : IsCounter io gpt time reads) where
  -- The 32 bits that the c-th read shows.
  abbrev pub shown : ℕ → ℕ
  shown c = time c % 2 ^ 32

  -- A polling loop that holds the count of read c and goes on for n reads.
  poll_lem :
      (go : ℕ → Bool) (n fuel c count : ℕ) (v : V)
      → n < fuel
      → count ≡ shown c
      → reads v ≡ suc c
      → ((j : ℕ) → j < n → go (shown (c + j)) ≡ true)
      → go (shown (c + n)) ≡ false
      → (v' : V) × (poll io gpt go fuel count v ≡ some (shown (c + n), v'))
        × (reads v' ≡ suc (c + n))
  unfolding poll
  poll_lem go n zero c count v h now r up stop = absurd (omega arith)
  poll_lem go zero (suc fuel) c count v h now r up stop =
      let here : shown (c + 0) ≡ count = ap shown (omega arith) ∙ sym now in
      let ends : go count ≡ false = ap go (sym here) ∙ stop in
      (v, rw ends (ap (λ x. some (x, v)) (sym here)), omega (arith, r))
  poll_lem go (suc n) (suc fuel) c count v h now r up stop =
      let here : shown (c + 0) ≡ count = ap shown (omega arith) ∙ sym now in
      let goes : go count ≡ true = ap go (sym here) ∙ up 0 (omega arith) in
      let next : (io.readl gpt.count_val v).0 ≡ shown (suc c) = counter.value v ∙ ap shown r in
      let move : (j : ℕ) → suc c + j ≡ c + suc j = λ j. omega arith in
      let (v', e, r') =
        poll_lem go n fuel (suc c) (io.readl gpt.count_val v).0 (io.readl gpt.count_val v).1
          (omega arith) next (counter.counts v ∙ ap suc r)
          (λ j lt. ap (λ x. go (shown x)) (move j) ∙ up (suc j) (omega arith))
          (ap (λ x. go (shown x)) (move n) ∙ stop) in
      (v', rw goes (e ∙ ap (λ x. some (shown x, v')) (move n)), r' ∙ ap suc (move n))

  abbrev wrapped : ℕ → ℕ → ℕ → Bool
  wrapped init timeout c = ltb timeout c && leb init c

  abbrev early : ℕ → ℕ → Bool
  early timeout c = ltb c timeout

  -- The two loops, if the first one goes on for n reads and the second for m.
  two_loops :
      (fuel us n m : ℕ) (v : V)
      → n < fuel
      → m < fuel
      → let c = reads v in
        let timeout = (shown c + ticks_of us) % 2 ^ 32 in
        ((j : ℕ) → j < n → wrapped (shown c) timeout (shown (c + j)) ≡ true)
        → wrapped (shown c) timeout (shown (c + n)) ≡ false
        → ((j : ℕ) → j < m → early timeout (shown (c + n + j)) ≡ true)
        → early timeout (shown (c + n + m)) ≡ false
        → (v' : V) × (micro_second_delay io gpt fuel us v ≡ some (us, v'))
          × (reads v' ≡ suc (c + n + m))
  unfolding micro_second_delay
  two_loops fuel us n m v h h' up stop up' stop' =
      let c = reads v in
      let timeout = (shown c + ticks_of us) % 2 ^ 32 in
      let (v1, e, r) =
        poll_lem (wrapped (shown c) timeout) n fuel c (shown c) (io.readl gpt.count_val v).1 h refl
          (counter.counts v) up stop in
      let (v2, e', r') =
        poll_lem (early timeout) m fuel (c + n) (shown (c + n)) v1 h' refl r up' stop' in
      (v2, rw (counter.value v, e, e') refl, r')

  mul_le : (a b n : ℕ) → a ≤ b → a * n ≤ b * n
  mul_le a b n h = grind arith

  -- MicroSecondDelay ends, whenever it is called, after as many reads as the counter needs at most,
  -- and its last read shows the time of its first read and the ticks of the delay: also when the
  -- counter wraps in between.
  pub micro_second_delay_lem :
      (fuel us : ℕ) (v : V)
      → us < 2 ^ 32
      → ticks_of us * slow < fuel
      → (last : ℕ) × (v' : V) × (micro_second_delay io gpt fuel us v ≡ some (us, v'))
        × (reads v' ≡ suc last)
        × (time last ≡ time (reads v) + ticks_of us)
  micro_second_delay_lem fuel us v small enough =
      let c = reads v in
      let k = ticks_of us in
      let few : k < 2 ^ 32 = omega arith in
      elim (Bool-cases (ltb (shown c + k) (2 ^ 32))) [
        | inl e ↦
            let (m, le, at, before) = reach slow time clock k c in
            let place : time (c + 0 + m) ≡ time (c + m) = ap time (omega arith) in
            let (v', ends, r) =
              two_loops fuel us 0 m v (omega arith) (omega arith) (λ j lt. absurd (omega arith))
                (ground (arith, e, at_once slow time clock c))
                (λ j lt.
                  let here : time (c + 0 + j) ≡ time (c + j) = ap time (omega arith) in
                  early_before (time c) (time (c + 0 + j)) k (ltb→lt _ _ e)
                    (omega (arith, here, time_mono slow time clock j c))
                    (omega (arith, here, before j lt)))
                (early_ends (time c) _ k (place ∙ at)) in
            (c + 0 + m, v', ends, r, place ∙ at)
        | inr e ↦
            let wraps : 2 ^ 32 ≤ shown c + k = ground arith in
            let d = 2 ^ 32 - shown c in
            let d' = shown c + k - 2 ^ 32 in
            let (n, le, at, before) = reach slow time clock d c in
            let (m, le', at', before') = reach slow time clock d' (c + n) in
            let less = mul_le d k slow (omega (arith, wraps, few)) in
            let less' = mul_le d' k slow (omega (arith, wraps, few)) in
            let (v', ends, r) =
              two_loops fuel us n m v (omega (arith, le, less)) (omega (arith, le', less'))
                (λ j lt.
                  wrapped_before (time c) (time (c + j)) k wraps few (time_mono slow time clock j c)
                    (before j lt))
                (wrapped_ends (time c) (time (c + n)) k wraps few at)
                (λ j lt.
                  early_after_wrap (time c) (time (c + n)) (time (c + n + j)) k wraps few at
                    (time_mono slow time clock j (c + n)) (before' j lt))
                (early_ends (time c) _ k (omega (arith, at, at', wraps))) in
            (c + n + m, v', ends, r, omega (arith, at, at', wraps))
      ]

-- GetTimeInNanoSecond is the time in nanoseconds, rounded down, for up to 584 years of ticks.
pub get_time_in_nano_second_lem :
    (ticks : ℕ)
    → ticks * 1000000000 < 2 ^ 64 * 32765
    → get_time_in_nano_second ticks ≡ ticks * 1000000000 / 32765
unfolding get_time_in_nano_second
get_time_in_nano_second_lem ticks h = omega arith
