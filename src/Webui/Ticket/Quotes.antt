-- ===== src/Webui/Ticket/Quotes.antt =====
-- The quotes of the form.
use mathlib.Core.Path.{subst}
use foundry_capital_markets.Prelude.{
  ℕ, ◌≡◌, refl, ◌≢◌, ◌⊎◌, inl, inr, Bool, true, false, some, List, [], ◌∷◌, some-inj, Str,
}
use foundry_capital_markets.Webui.Orders.{RouteProposalRequest}
use foundry_capital_markets.Webui.Ticket.{
  TicketEvent, order_id_typed, symbol_typed, side_chosen, quantity_typed, limit_price_typed,
  arrival_mid_typed, routable_pressed, halt_pressed, lit_venues, routable_preset, halt_preset,
  edited, after, ticket_after, submitted,
}

module _ {N : Type 0} (number : Str → N) (hundredths : ℕ → N) where
  -- The quotes are those of one of the two presets.
  abbrev pub AreOfPreset : RouteProposalRequest N → Type 0
  AreOfPreset r =
      (r.quotes ≡ (routable_preset number hundredths).quotes)
      ⊎ (r.quotes ≡ (halt_preset number hundredths).quotes)

  edited-AreOfPreset :
      (submitting : Bool) (e : TicketEvent) (r : RouteProposalRequest N)
      → AreOfPreset r
      → AreOfPreset (edited number hundredths submitting e r)
  unfolding edited
  edited-AreOfPreset submitting (order_id_typed t) r h = h
  edited-AreOfPreset submitting (symbol_typed t) r h = h
  edited-AreOfPreset submitting (side_chosen s) r h = h
  edited-AreOfPreset submitting (quantity_typed t) r h = h
  edited-AreOfPreset submitting (limit_price_typed t) r h = h
  edited-AreOfPreset submitting (arrival_mid_typed t) r h = h
  edited-AreOfPreset true routable_pressed r h = h
  edited-AreOfPreset false routable_pressed r h = inl refl
  edited-AreOfPreset true halt_pressed r h = h
  edited-AreOfPreset false halt_pressed r h = inr refl

  after-AreOfPreset :
      (es : List (Bool × TicketEvent)) (r : RouteProposalRequest N)
      → AreOfPreset r
      → AreOfPreset (after number hundredths es r)
  unfolding after
  after-AreOfPreset [] r h = h
  after-AreOfPreset ((b, e) ∷ es) r h =
      after-AreOfPreset es (edited number hundredths b e r) (edited-AreOfPreset b e r h)

  -- Whatever was typed and pressed, what the form submits has at least one quote, and the quotes are
  -- those of one of the two presets: the form cannot be submitted without quotes.
  pub submitted-AreOfPreset :
      (es : List (Bool × TicketEvent)) (submitting : Bool) (r : RouteProposalRequest N)
      → submitted submitting (ticket_after number hundredths es) ≡ some r
      → AreOfPreset r × (r.quotes ≢ [])
  unfolding submitted ticket_after routable_preset halt_preset lit_venues
  submitted-AreOfPreset es true r h = cc h
  submitted-AreOfPreset es false r h =
      let of_preset =
        subst AreOfPreset (some-inj h)
          (after-AreOfPreset es (routable_preset number hundredths) (inl refl)) in
      (of_preset, λ e. elim of_preset [ inl p ↦ cc (e, p) | inr p ↦ cc (e, p) ])
