-- ===== src/Webui/RoutingScreen/Badge.antt =====
-- What the screen says of an execution.
use foundry_capital_markets.Prelude.{
  ◌≡◌, refl, sym, ap, ◌≢◌, ◌↔◌, inl, inr, Bool, true, false, Option, none, some, List, [], ◌∷◌, All,
  In, In-append_right, In-append, Str,
}
use foundry_capital_markets.Webui.Orders.{
  SimulatedExecution, RouteResult, proposed_result, halted_result,
}
use foundry_capital_markets.Webui.RoutingScreen.{
  Part, heading, line, badge, banner, facts, table, Formats, breach_table, Outcome,
  executed_outcome, refused_outcome, considered_table, correlation_line, halt_view, proposal_view,
  execution_view, refusal_view, outcome_view, result_view, screen_view,
}

is_badge : Part → Bool
is_badge (heading t) = false
is_badge (line t) = false
is_badge (badge m) = true
is_badge (banner tone title detail) = false
is_badge (facts fs) = false
is_badge (table c cs rs) = false

mode_of : Part → Str
mode_of (heading t) = []
mode_of (line t) = []
mode_of (badge m) = m
mode_of (banner tone title detail) = []
mode_of (facts fs) = []
mode_of (table c cs rs) = []

abbrev Plain : Part → Type 0
Plain p = is_badge p ≡ false

Plain-ne-badge : (m : Str) (p : Part) → Plain p → badge m ≢ p
unfolding is_badge
Plain-ne-badge m p h e = cc (ap is_badge e, h)

All-Plain : (m : Str) (ps : List Part) → All Plain ps → ¬ In (badge m) ps
All-Plain m [] h i = i
All-Plain m (p ∷ ps) (h, hs) (inl e) = Plain-ne-badge m p h e
All-Plain m (p ∷ ps) (h, hs) (inr i) = All-Plain m ps hs i

module _ {N : Type 0} (formats : Formats N) where
  result_view-Plain : (r : Option (RouteResult N)) → All Plain (result_view formats r)
  unfolding is_badge result_view halt_view proposal_view breach_table considered_table
      correlation_line
  result_view-Plain none = (refl, (refl, tt))
  result_view-Plain (some (halted_result h)) = (refl, (refl, (refl, (refl, tt))))
  result_view-Plain (some (proposed_result r)) =
      (refl, (refl, (refl, (refl, (refl, (refl, (refl, tt)))))))

  -- An execution that is a fill, of a mode.
  abbrev pub Filled : Option (Outcome N) → Str → Type 0
  Filled execution mode =
      (e : SimulatedExecution N) × ((execution ≡ some (executed_outcome e))
        × (e.execution_mode ≡ mode))

  below-Filled :
      (execution : Option (Outcome N)) (mode : Str)
      → In (badge mode) (elim execution [ none ↦ [] | some o ↦ outcome_view formats o ])
      → Filled execution mode
  unfolding outcome_view execution_view refusal_view mode_of is_badge
  below-Filled none mode i = elim i [ ]
  below-Filled (some (executed_outcome e)) mode (inl h) = elim (Plain-ne-badge mode _ refl h) [ ]
  below-Filled (some (executed_outcome e)) mode (inr (inl h)) = (e, (refl, ap mode_of (sym h)))
  below-Filled (some (executed_outcome e)) mode (inr (inr (inl h))) =
      elim (Plain-ne-badge mode _ refl h) [ ]
  below-Filled (some (executed_outcome e)) mode (inr (inr (inr i))) = elim i [ ]
  below-Filled (some (refused_outcome r)) mode (inl h) = elim (Plain-ne-badge mode _ refl h) [ ]
  below-Filled (some (refused_outcome r)) mode (inr i) = elim i [ ]

  above-Filled :
      (execution : Option (Outcome N)) (mode : Str)
      → Filled execution mode
      → In (badge mode) (elim execution [ none ↦ [] | some o ↦ outcome_view formats o ])
  unfolding outcome_view execution_view
  above-Filled execution mode (e, (h, m)) =
      rw (h, outcome_view, execution_view) (inr (inl (ap badge (sym m))))

  -- The screen carries a badge exactly when the execution that it is given is a fill, and the badge
  -- then reads as the mode of that record. Neither a result nor a refusal ever carries one.
  pub screen_view-badge :
      (result : Option (RouteResult N)) (execution : Option (Outcome N)) (mode : Str)
      → In (badge mode) (screen_view formats result execution) ↔ Filled execution mode
  unfolding screen_view is_badge
  screen_view-badge result execution mode = (shown, filled)
    where
      rest : List Part
      rest = elim execution [ none ↦ [] | some o ↦ outcome_view formats o ]

      shown : In (badge mode) (screen_view formats result execution) → Filled execution mode
      shown (inl h) = elim (Plain-ne-badge mode _ refl h) [ ]
      shown (inr (inl h)) = elim (Plain-ne-badge mode _ refl h) [ ]
      shown (inr (inr i)) = elim (In-append (badge mode) (result_view formats result) rest i) [
        | inl j ↦ elim (All-Plain mode _ (result_view-Plain result) j) [ ]
        | inr j ↦ below-Filled execution mode j
      ]

      filled : Filled execution mode → In (badge mode) (screen_view formats result execution)
      filled (e, (h, m)) = inr (
          inr (
            In-append_right (badge mode) (result_view formats result) rest
              (above-Filled execution mode (e, (h, m)))))
