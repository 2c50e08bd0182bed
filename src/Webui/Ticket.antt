-- ===== src/Webui/Ticket.antt =====
-- The order entry form, src/webui/src/features/orderrouting/OrderTicket.tsx: its fields, its presets
-- and its buttons.
--
-- `Number` on the text of a field is a parameter, and so is the number of a literal, which is given
-- in hundredths. How the form is drawn around them is left out.
pub mod Quotes
use foundry_capital_markets.Prelude.{
  ℕ, Bool, not, Option, none, some, List, [], ◌∷◌, ◌++◌, map, ◌==◌, if◌then◌else◌, length, is_empty,
  Str, codes, join,
}
use foundry_capital_markets.Diagram.Svg.{decimal, hundredths}
use foundry_capital_markets.Webui.Orders.{
  OrderSide, buy, lit, dark, VenueQuoteInput, RouteProposalRequest,
}

-- What can be done to the form while it is shown.
pub data TicketEvent : Type 0 where
  order_id_typed : Str → TicketEvent
  symbol_typed : Str → TicketEvent
  side_chosen : OrderSide → TicketEvent
  quantity_typed : Str → TicketEvent
  limit_price_typed : Str → TicketEvent
  arrival_mid_typed : Str → TicketEvent
  routable_pressed : TicketEvent
  halt_pressed : TicketEvent

module _ {N : Type 0} (number : Str → N) (hundredths : ℕ → N) where
  unfoldable pub lit_venues : List (VenueQuoteInput N)
  lit_venues =
      record {
        venue_code = codes "XLIT";
        venue_type = lit;
        mid_price = hundredths 10000;
        spread = hundredths 5;
        displayed_liquidity = hundredths 25000000;
        fee_bps = some (hundredths 20);
      }
      ∷ record {
        venue_code = codes "XMER";
        venue_type = lit;
        mid_price = hundredths 10001;
        spread = hundredths 8;
        displayed_liquidity = hundredths 9000000;
        fee_bps = some (hundredths 15);
      }
      ∷ record {
        venue_code = codes "XNOR";
        venue_type = lit;
        mid_price = hundredths 9999;
        spread = hundredths 12;
        displayed_liquidity = hundredths 4000000;
        fee_bps = some (hundredths 10);
      }
      ∷ []

  unfoldable pub routable_preset : RouteProposalRequest N
  routable_preset = record {
    order_id = codes "ORD-1041";
    symbol = codes "CONT";
    side = buy;
    quantity = hundredths 1200000;
    limit_price = some (hundredths 10100);
    arrival_mid_price = hundredths 10000;
    quotes = lit_venues;
    correlation_id = none;
  }

  unfoldable pub dark_quote : VenueQuoteInput N
  dark_quote = record {
    venue_code = codes "DARK-1";
    venue_type = dark;
    mid_price = hundredths 10000;
    spread = hundredths 2;
    displayed_liquidity = hundredths 0;
    fee_bps = some (hundredths 10);
  }

  unfoldable pub halt_preset : RouteProposalRequest N
  halt_preset = record {
    order_id = codes "ORD-1042";
    symbol = codes "CONT";
    side = buy;
    quantity = hundredths 40000;
    limit_price = some (hundredths 10100);
    arrival_mid_price = hundredths 10000;
    quotes = dark_quote ∷ [];
    correlation_id = none;
  }

  -- The handler of an event. The two presets are disabled while a request is under way.
  unfoldable pub edited : Bool → TicketEvent → RouteProposalRequest N → RouteProposalRequest N
  edited submitting (order_id_typed t) r = record r { order_id = t }
  edited submitting (symbol_typed t) r = record r { symbol = t }
  edited submitting (side_chosen s) r = record r { side = s }
  edited submitting (quantity_typed t) r = record r { quantity = number t }
  edited submitting (limit_price_typed t) r = record r { limit_price = some (number t) }
  edited submitting (arrival_mid_typed t) r = record r { arrival_mid_price = number t }
  edited submitting routable_pressed r = if submitting then r else routable_preset
  edited submitting halt_pressed r = if submitting then r else halt_preset

  -- The form after events, each with whether a request was under way.
  unfoldable pub after : List (Bool × TicketEvent) → RouteProposalRequest N → RouteProposalRequest N
  after [] r = r
  after ((submitting, e) ∷ es) r = after es (edited submitting e r)

  -- The form is shown with the routable preset.
  unfoldable pub ticket_after : List (Bool × TicketEvent) → RouteProposalRequest N
  ticket_after es = after es routable_preset

  -- What the limit price's field shows.
  unfoldable pub shown_limit : RouteProposalRequest N → N
  shown_limit r = elim r.limit_price [ some n ↦ n | none ↦ hundredths 0 ]

module _ {N : Type 0} where
  -- The line below the fields, which counts the quotes and names their venues.
  unfoldable pub venue_codes : RouteProposalRequest N → Str
  venue_codes r = join (codes ", ") (map (λ (q : VenueQuoteInput N). q.venue_code) r.quotes)

  unfoldable pub quotes_line : RouteProposalRequest N → Str
  quotes_line r =
      decimal (length r.quotes)
      ++ (codes " venue quote"
          ++ ((if length r.quotes == 1 then [] else codes "s")
              ++ (codes ": "
                  ++ (if is_empty (venue_codes r)
                      then codes "none — the router will refuse"
                      else venue_codes r))))

  -- What the form submits, if its button is not disabled.
  unfoldable pub submitted : Bool → RouteProposalRequest N → Option (RouteProposalRequest N)
  submitted submitting r = if submitting then none else some r

-- The label of the button that submits.
unfoldable pub submit_label : Bool → Str
submit_label submitting = if submitting then codes "Routing…" else codes "Propose route"
