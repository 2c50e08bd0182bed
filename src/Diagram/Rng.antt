-- ===== src/Diagram/Rng.antt =====
-- `createRng` of scripts/diagrams/diagram-kit.mjs: splitmix32 on a counter of 32 bits, which gives the
-- elements of a scene their seeds and nonces.
mod Tests
use Prim.Native.Nat.{bit_xor}
use foundry_capital_markets.Prelude.{
  ℕ, zero, suc, ◌+◌, ◌-◌, ◌*◌, ◌/◌, ◌%◌, ◌^◌, ◌<◌, ◌≡◌, ◌≢◌, arith,
}

-- 2 ^ 32, the modulus of `>>> 0` and of Math.imul.
abbrev pub word : ℕ
word = 4294967296

-- The step of the counter.
abbrev pub step : ℕ
step = 0x9e3779b9

unfoldable pub advance : ℕ → ℕ
advance counter = (counter + step) % word

-- `Math.imul(a, b) >>> 0`.
unfoldable pub imul : ℕ → ℕ → ℕ
imul a b = a * b % word

-- The three assignments to `z`; `z >>> n` is the quotient by 2 ^ n.
unfoldable pub mix : ℕ → ℕ
unfolding imul
mix counter =
    let z1 = imul (bit_xor counter (counter / 65536)) 0x21f0aaad in
    let z2 = imul (bit_xor z1 (z1 / 32768)) 0x735a2d97 in bit_xor z2 (z2 / 32768) % word

unfoldable pub value_of : ℕ → ℕ
unfolding mix
value_of counter = mix counter % 2147483647

-- The counter after a number of calls of `next`.
unfoldable pub counter_after : ℕ → ℕ → ℕ
unfolding advance
counter_after seed zero = seed % word
counter_after seed (suc n) = advance (counter_after seed n)

-- What the call behind `n` others returns.
unfoldable pub draw : ℕ → ℕ → ℕ
unfolding counter_after value_of
draw seed n = value_of (counter_after seed (n + 1))

counter_after-lt : (seed n : ℕ) → counter_after seed n < word
unfolding counter_after advance
counter_after-lt seed zero = omega arith
counter_after-lt seed (suc n) = omega arith

-- The counter is that of the seed, moved on by as many steps as there were calls.
counter_after-eq : (seed n : ℕ) → (q : ℕ) × (seed + n * step ≡ counter_after seed n + q * word)
unfolding counter_after advance
counter_after-eq seed zero = (seed / word, omega arith)
counter_after-eq seed (suc n) =
    let (q, e) = counter_after-eq seed n in
    let c = counter_after seed n in (q + (c + step) / word, omega (arith, e))

-- The step is odd: over fewer than 2 ^ 32 calls its multiples stay apart.
multiples_apart : (d q r : ℕ) → d < word → d * step + q * word ≡ r * word → d ≡ 0
multiples_apart d q r h e = omega (arith, h, e)

-- Two calls of one generator that are fewer than 2 ^ 32 calls apart hash different counters, each of
-- 32 bits, and what they return is below 2 ^ 31 - 1.
pub counter_after-Apart :
    (seed i d : ℕ)
    → 0 < d
    → d < word
    → (counter_after seed i ≢ counter_after seed (i + d))
      × (counter_after seed i < word)
      × (draw seed i < 2147483647)
unfolding draw value_of
counter_after-Apart seed i d low high = (
  λ e.
      let (q, a) = counter_after-eq seed i in
      let (r, b) = counter_after-eq seed (i + d) in
      let none_left = multiples_apart d q r high (omega (arith, a, b, e)) in
      omega (arith, none_left, low),
  counter_after-lt seed i,
  omega arith,
)
