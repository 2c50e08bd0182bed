-- ===== src/Webui/RoutingScreen/Tests.antt =====
-- A fill and two breaches, with numbers that are written out as their digits.
use foundry_capital_markets.Prelude.{
  ℕ, ◌*◌, ◌≡◌, refl, ◌≢◌, ◌↔◌, Bool, true, false, none, some, List, [], ◌∷◌, length, In, codes,
  join,
}
use foundry_capital_markets.Diagram.Svg.{decimal_from, decimal}
use foundry_capital_markets.Webui.Orders.{
  spread_tolerance_exceeded, boundary_text, PolicyBreach, SimulatedExecution,
}
use foundry_capital_markets.Webui.Ticket.{
  TicketEvent, quantity_typed, routable_pressed, halt_pressed, dark_quote, halt_preset, edited,
  after, ticket_after, venue_codes, quotes_line, submitted,
}
use foundry_capital_markets.Webui.Ticket.Quotes.{AreOfPreset, submitted-AreOfPreset}
use foundry_capital_markets.Webui.RoutingScreen.{
  badge, Formats, breach_key, executed_outcome, screen_view,
}
use foundry_capital_markets.Webui.RoutingScreen.Badge.{Filled, screen_view-badge}

abbrev plain : Formats ℕ
plain = record {
  to_locale = decimal;
  to_fixed = λ digits n. decimal n;
  times_hundred = λ n. n * 100;
  usd = λ n. b'$' ∷ decimal n;
}

abbrev fill : SimulatedExecution ℕ
fill = record {
  execution_id = codes "EX-1";
  proposal_id = codes "P-1";
  order_id = codes "ORD-1041";
  correlation_id = codes "c";
  venue_code = codes "XLIT";
  quantity = 12000;
  price = 100;
  executed_at = codes "2026-01-01";
  approval_id = codes "A-1";
  execution_mode = codes "SIMULATED";
}

screen_view-badge_example :
    In (badge (codes "SIMULATED")) (screen_view plain none (some (executed_outcome fill)))
    ↔ Filled plain (some (executed_outcome fill)) (codes "SIMULATED")
screen_view-badge_example =
    screen_view-badge plain none (some (executed_outcome fill)) (codes "SIMULATED")

abbrev breach : PolicyBreach
breach = record {
  boundary = spread_tolerance_exceeded;
  venue_code = none;
  permitted = codes "8";
  observed = codes "12";
  explanation = codes "Too wide.";
}

second_key : breach_key breach 1 ≡ codes "SpreadToleranceExceeded-order-1"
unfolding breach_key boundary_text decimal decimal_from
second_key = refl

abbrev same_number : ℕ → ℕ
same_number n = n

abbrev clicks : List (Bool × TicketEvent)
clicks =
    (false, quantity_typed (codes "400")) ∷ (false, halt_pressed) ∷ (true, routable_pressed) ∷ []

submitted-AreOfPreset_example :
    AreOfPreset length same_number (halt_preset length same_number)
    × ((halt_preset length same_number).quotes ≢ [])
unfolding ticket_after after edited submitted
submitted-AreOfPreset_example =
    submitted-AreOfPreset length same_number clicks false (halt_preset length same_number) refl

halt_line : quotes_line (halt_preset length same_number) ≡ codes "1 venue quote: DARK-1"
unfolding quotes_line venue_codes halt_preset dark_quote join decimal decimal_from
halt_line = refl
