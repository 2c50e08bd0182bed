-- ===== src/Webui/Orders.antt =====
-- The bodies of order routing: src/webui/src/api/types.generated.ts, and the types beside the client
-- in src/webui/src/api/client.ts.
--
-- `N` is JavaScript's type of numbers. A field that may be null or left out is an `Option`.
use foundry_capital_markets.Prelude.{Bool, true, false, Option, List, Str, codes}

pub data OrderSide : Type 0 where
  buy : OrderSide
  sell : OrderSide

pub data VenueType : Type 0 where
  lit : VenueType
  dark : VenueType

pub data PolicyBoundary : Type 0 where
  venue_not_approved : PolicyBoundary
  dark_pool_minimum_size : PolicyBoundary
  participation_rate_exceeded : PolicyBoundary
  spread_tolerance_exceeded : PolicyBoundary
  limit_price_breached : PolicyBoundary
  notional_ceiling_exceeded : PolicyBoundary

-- `ExecutionRefusalReason | 'AlreadyExecuted'`.
pub data RefusalReason : Type 0 where
  no_authorization : RefusalReason
  authorization_expired : RefusalReason
  authorization_for_different_proposal : RefusalReason
  segregation_of_duties : RefusalReason
  correlation_mismatch : RefusalReason
  already_executed : RefusalReason

unfoldable pub venue_type_text : VenueType → Str
venue_type_text lit = codes "Lit"
venue_type_text dark = codes "Dark"

unfoldable pub boundary_text : PolicyBoundary → Str
boundary_text venue_not_approved = codes "VenueNotApproved"
boundary_text dark_pool_minimum_size = codes "DarkPoolMinimumSize"
boundary_text participation_rate_exceeded = codes "ParticipationRateExceeded"
boundary_text spread_tolerance_exceeded = codes "SpreadToleranceExceeded"
boundary_text limit_price_breached = codes "LimitPriceBreached"
boundary_text notional_ceiling_exceeded = codes "NotionalCeilingExceeded"

unfoldable pub refusal_text : RefusalReason → Str
refusal_text no_authorization = codes "NoAuthorization"
refusal_text authorization_expired = codes "AuthorizationExpired"
refusal_text authorization_for_different_proposal = codes "AuthorizationForDifferentProposal"
refusal_text segregation_of_duties = codes "SegregationOfDuties"
refusal_text correlation_mismatch = codes "CorrelationMismatch"
refusal_text already_executed = codes "AlreadyExecuted"

pub record VenueQuoteInput (N : Type 0) : Type 0 where
  pub venue_code : Str
  pub venue_type : VenueType
  pub mid_price : N
  pub spread : N
  pub displayed_liquidity : N
  pub fee_bps : Option N

pub record RouteProposalRequest (N : Type 0) : Type 0 where
  pub order_id : Str
  pub symbol : Str
  pub side : OrderSide
  pub quantity : N
  pub limit_price : Option N
  pub arrival_mid_price : N
  pub quotes : List (VenueQuoteInput N)
  pub correlation_id : Option Str

pub record VenueQuote (N : Type 0) : Type 0 where
  pub venue_code : Str
  pub venue_type : VenueType
  pub mid_price : N
  pub spread : N
  pub displayed_liquidity : N
  pub fee_bps : Option N
  pub is_dark : Bool

pub record CostBreakdown (N : Type 0) : Type 0 where
  pub participation_rate : N
  pub spread_cost_bps : N
  pub impact_bps : N
  pub fee_bps : N
  pub projected_price : N
  pub projected_cost_usd : N
  pub total_cost_bps : N

pub record PolicyBreach : Type 0 where
  pub boundary : PolicyBoundary
  pub venue_code : Option Str
  pub permitted : Str
  pub observed : Str
  pub explanation : Str

pub record VenueEvaluation (N : Type 0) : Type 0 where
  pub quote : VenueQuote N
  pub cost : CostBreakdown N
  pub breaches : List PolicyBreach
  pub is_eligible : Bool
  pub liquidity_rationale : Str

pub record RouteProposal (N : Type 0) : Type 0 where
  pub proposal_id : Str
  pub correlation_id : Str
  pub order_id : Str
  pub quantity : N
  pub venue_code : Str
  pub cost : CostBreakdown N
  pub liquidity_rationale : Str
  pub best_execution_justification : Str
  pub proposed_by : Str
  pub considered : List (VenueEvaluation N)

pub record SimulatedExecution (N : Type 0) : Type 0 where
  pub execution_id : Str
  pub proposal_id : Str
  pub order_id : Str
  pub correlation_id : Str
  pub venue_code : Str
  pub quantity : N
  pub price : N
  pub executed_at : Str
  pub approval_id : Str
  pub execution_mode : Str

pub record RouteProposalResponse (N : Type 0) : Type 0 where
  pub proposal : RouteProposal N
  pub considered : List (VenueEvaluation N)
  pub correlation_id : Str

pub record RouteHalt (N : Type 0) : Type 0 where
  pub halt_summary : Str
  pub breaches : List PolicyBreach
  pub considered : List (VenueEvaluation N)
  pub correlation_id : Str

-- The two bodies of a proposal, which `status` tells apart.
pub data RouteResult (N : Type 0) : Type 0 where
  proposed_result : RouteProposalResponse N → RouteResult N
  halted_result : RouteHalt N → RouteResult N

pub record ExecutionResponse (N : Type 0) : Type 0 where
  pub execution : SimulatedExecution N
  pub correlation_id : Str

pub record ExecutionRefusal : Type 0 where
  pub refusal : RefusalReason
  pub detail : Str
  pub correlation_id : Str

-- The two bodies of an execution, which `executed` tells apart.
pub data ExecutionAnswer (N : Type 0) : Type 0 where
  executed_answer : ExecutionResponse N → ExecutionAnswer N
  refused_answer : ExecutionRefusal → ExecutionAnswer N

module _ {N : Type 0} where
  unfoldable pub is_halt : RouteResult N → Bool
  is_halt (proposed_result r) = false
  is_halt (halted_result h) = true

  unfoldable pub is_execution_refusal : ExecutionAnswer N → Bool
  is_execution_refusal (executed_answer r) = false
  is_execution_refusal (refused_answer r) = true
