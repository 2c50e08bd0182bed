-- ===== src/Diagram/Rng/Tests.antt =====
-- The seeds of the first element of docs/diagrams/01-platform-topology.excalidraw.
use foundry_capital_markets.Prelude.{◌+◌, ◌<◌, ◌≡◌, refl, ◌≢◌, arith}
use foundry_capital_markets.Diagram.Rng.{
  word, advance, imul, mix, value_of, counter_after, draw, counter_after-Apart,
}

first_seed : draw 0x11a2b3c4 0 ≡ 468248742
unfolding draw counter_after advance value_of mix imul
first_seed = refl

first_nonce : draw 0x11a2b3c4 1 ≡ 51503777
unfolding draw counter_after advance value_of mix imul
first_nonce = refl

counter_after-Apart_example :
    (counter_after 0x11a2b3c4 0 ≢ counter_after 0x11a2b3c4 (0 + 250))
    × (counter_after 0x11a2b3c4 0 < word)
    × (draw 0x11a2b3c4 0 < 2147483647)
counter_after-Apart_example = counter_after-Apart 0x11a2b3c4 0 250 (omega arith) (omega arith)
