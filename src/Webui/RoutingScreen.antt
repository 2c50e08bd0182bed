-- ===== src/Webui/RoutingScreen.antt =====
-- The order routing screen, src/webui/src/features/orderrouting/OrderRoutingScreen.tsx: the parts that
-- it shows for a result and an execution, with their texts.
--
-- How numbers are written out is a parameter: `toLocaleString`, `toFixed` and `Intl.NumberFormat`.
-- Tags and class names are left out.
pub mod Badge
pub mod Keys
mod Tests
use foundry_capital_markets.Prelude.{
  ℕ, ◌+◌, ◌%◌, Bool, false, not, Option, none, some, List, [], ◌∷◌, ◌++◌, map, if◌then◌else◌,
  length, Str, codes, join,
}
use foundry_capital_markets.Diagram.Svg.{decimal}
use foundry_capital_markets.Webui.Orders.{
  venue_type_text, boundary_text, refusal_text, PolicyBreach, VenueEvaluation, RouteProposal,
  SimulatedExecution, RouteProposalResponse, RouteHalt, RouteResult, proposed_result, halted_result,
  ExecutionRefusal, ExecutionAnswer, executed_answer, refused_answer,
}

pub data Tone : Type 0 where
  danger : Tone
  info : Tone

-- A row of a table, with its key and whether it is marked as ineligible.
pub record TableRow : Type 0 where
  pub key : Str
  pub marked : Bool
  pub cells : List Str

-- What the screen shows, from top to bottom. `badge` is SimulatedBadge, within its heading.
pub data Part : Type 0 where
  heading : Str → Part
  line : Str → Part
  badge : (mode : Str) → Part
  banner : Tone → (title detail : Str) → Part
  facts : List (Str × Str) → Part
  table : (caption : Str) (columns : List Str) → List TableRow → Part

pub record Formats (N : Type 0) : Type 0 where
  pub to_locale : N → Str
  pub to_fixed : ℕ → N → Str
  pub times_hundred : N → N
  pub usd : N → Str

unfoldable pub breach_key : PolicyBreach → ℕ → Str
unfolding boundary_text decimal
breach_key b index =
    boundary_text b.boundary
    ++ (b'-' ∷ (elim b.venue_code [ some v ↦ v | none ↦ codes "order" ] ++ (b'-' ∷ decimal index)))

unfoldable pub breach_row : PolicyBreach → ℕ → TableRow
unfolding breach_key boundary_text
breach_row b index = record {
  key = breach_key b index;
  marked = false;
  cells =
      boundary_text b.boundary
      ∷ elim b.venue_code [ some v ↦ v | none ↦ codes "Order-level" ]
      ∷ b.permitted
      ∷ b.observed
      ∷ b.explanation
      ∷ [];
}

-- The rows from an index on.
unfoldable pub breach_rows : ℕ → List PolicyBreach → List TableRow
unfolding breach_row
breach_rows index [] = []
breach_rows index (b ∷ bs) = breach_row b index ∷ breach_rows (index + 1) bs

-- `BreachTable`.
unfoldable pub breach_table : List PolicyBreach → Part
unfolding breach_rows
breach_table breaches =
    table (codes "Policy boundaries breached")
      (codes "Boundary"
        ∷ codes "Venue"
        ∷ codes "Permitted"
        ∷ codes "Observed"
        ∷ codes "Explanation"
        ∷ [])
      (breach_rows 0 breaches)

-- What the container stores of an execution's answer, and what the screen takes.
pub data Outcome (N : Type 0) : Type 0 where
  executed_outcome : SimulatedExecution N → Outcome N
  refused_outcome : ExecutionRefusal → Outcome N

unfoldable pub stored : {N : Type 0} → ExecutionAnswer N → Outcome N
stored (executed_answer r) = executed_outcome r.execution
stored (refused_answer r) = refused_outcome r

module _ {N : Type 0} (formats : Formats N) where
  unfoldable pub bps : N → Str
  bps n = formats.to_fixed 2 n ++ codes " bps"

  -- The last cell of a venue: why it was eligible, or the boundaries that it breached.
  unfoldable pub why : VenueEvaluation N → Str
  unfolding boundary_text join
  why v =
      if v.is_eligible
      then v.liquidity_rationale
      else join (codes ", ") (map (λ (b : PolicyBreach). boundary_text b.boundary) v.breaches)

  unfoldable pub considered_row : VenueEvaluation N → TableRow
  unfolding bps why venue_type_text
  considered_row v = record {
    key = v.quote.venue_code;
    marked = not v.is_eligible;
    cells =
        v.quote.venue_code
        ∷ venue_type_text v.quote.venue_type
        ∷ bps v.cost.total_cost_bps
        ∷ formats.usd v.cost.projected_cost_usd
        ∷ (if v.is_eligible then codes "Yes" else codes "No")
        ∷ why v
        ∷ [];
  }

  -- `ConsideredTable`.
  unfoldable pub considered_table : List (VenueEvaluation N) → Part
  unfolding considered_row decimal
  considered_table considered =
      table
        (codes "Venues considered ("
          ++ (decimal (length considered) ++ codes ") — every one evaluated, eligible or not"))
        (codes "Venue"
          ∷ codes "Type"
          ∷ codes "Total cost"
          ∷ codes "Projected cost"
          ∷ codes "Eligible"
          ∷ codes "Why"
          ∷ [])
        (map considered_row considered)

  unfoldable pub correlation_line : Str → Part
  correlation_line id = line (codes "Correlation id " ++ id)

  -- `HaltView`.
  unfoldable pub halt_view : RouteHalt N → List Part
  unfolding breach_table considered_table correlation_line
  halt_view h =
      banner danger (codes "Routing halted by policy") h.halt_summary
      ∷ breach_table h.breaches
      ∷ considered_table h.considered
      ∷ correlation_line h.correlation_id
      ∷ []

  unfoldable pub cost_facts : RouteProposal N → List (Str × Str)
  unfolding bps
  cost_facts p =
      (codes "Total cost", bps p.cost.total_cost_bps)
      ∷ (codes "Spread", bps p.cost.spread_cost_bps)
      ∷ (codes "Impact", bps p.cost.impact_bps)
      ∷ (codes "Fee", bps p.cost.fee_bps)
      ∷ (
        codes "Participation",
        formats.to_fixed 1 (formats.times_hundred p.cost.participation_rate) ++ codes "%",
      )
      ∷ (codes "Projected price", formats.to_fixed 4 p.cost.projected_price)
      ∷ (codes "Proposed by", p.proposed_by)
      ∷ []

  -- `ProposalView`.
  unfoldable pub proposal_view : RouteProposalResponse N → List Part
  unfolding cost_facts considered_table correlation_line
  proposal_view r =
      let p = r.proposal in
      heading (codes "Route " ++ (formats.to_locale p.quantity ++ (codes " to " ++ p.venue_code)))
      ∷ line p.best_execution_justification
      ∷ line p.liquidity_rationale
      ∷ facts (cost_facts p)
      ∷ banner info (codes "Proposed, not executed") (
          codes
            "This proposal changes nothing until an approver other than the proposer records a decision.")
      ∷ considered_table r.considered
      ∷ correlation_line r.correlation_id
      ∷ []

  -- `ExecutionView`.
  unfoldable pub execution_view : SimulatedExecution N → List Part
  execution_view e =
      heading (codes "Executed ")
      ∷ badge e.execution_mode
      ∷ facts (
          (codes "Execution id", e.execution_id)
          ∷ (codes "Venue", e.venue_code)
          ∷ (codes "Quantity", formats.to_locale e.quantity)
          ∷ (codes "Price", formats.to_fixed 4 e.price)
          ∷ (codes "Approval", e.approval_id)
          ∷ (codes "Correlation id", e.correlation_id)
          ∷ [])
      ∷ []

  -- `ExecutionRefusalView`.
  unfoldable pub refusal_view : ExecutionRefusal → List Part
  unfolding refusal_text
  refusal_view r =
      banner danger (codes "Execution refused — " ++ refusal_text r.refusal) r.detail ∷ []

  unfoldable pub outcome_view : Outcome N → List Part
  unfolding execution_view refusal_view
  outcome_view (executed_outcome e) = execution_view e
  outcome_view (refused_outcome r) = refusal_view r

  unfoldable pub result_view : Option (RouteResult N) → List Part
  unfolding halt_view proposal_view
  result_view none =
      heading (codes "No order routed yet")
      ∷ line (
          codes
            "Submit an order with its venue quotes to see the best-execution evaluation. The router does not invent liquidity, so at least one quote is required.")
      ∷ []
  result_view (some (halted_result h)) = halt_view h
  result_view (some (proposed_result r)) = proposal_view r

  unfoldable pub screen_view : Option (RouteResult N) → Option (Outcome N) → List Part
  unfolding result_view outcome_view
  screen_view result execution =
      heading (codes "Order routing")
      ∷ line (codes "Venue selection is deterministic policy evaluation. No model chooses a venue.")
      ∷ (result_view result ++ elim execution [ none ↦ [] | some o ↦ outcome_view o ])
