-- ===== src/Webui/Execution.antt =====
-- `ExecutionPanel` of src/webui/src/features/orderrouting/ExecutionPanel.tsx: an approval is looked up
-- by its id, and forwarded with the proposal to execute.
pub mod Forwarding
mod Tests
use foundry_capital_markets.Prelude.{
  ◌≡◌, Bool, true, false, ◌||◌, Option, none, some, List, [], ◌∷◌, is_empty, Str, trim,
}
use foundry_capital_markets.Webui.OrderRouting.{Reply, arrived, threw, proposal}

-- The fields of an `ApprovalResponse` that the panel reads.
pub record ApprovalRecord : Type 0 where
  pub id : Str
  pub decided_by_object_id : Option Str
  pub decided_at : Option Str
  pub created_at : Str
  pub expires_at : Str

-- `approval` of an `ExecuteRouteRequest`.
pub record Forwarded : Type 0 where
  pub approval_id : Str
  pub approved_by : Str
  pub approved_at : Str
  pub expires_at : Str

pub record Base : Type 0 where
  pub proposal_id : Str
  pub correlation_id : Str

pub record ExecuteRequest : Type 0 where
  pub base : Base
  pub approval : Option Forwarded

-- `o ?? d`.
abbrev pub or_else : Option Str → Str → Str
or_else none d = d
or_else (some s) d = s

unfoldable pub forward : ApprovalRecord → Forwarded
forward a = record {
  approval_id = a.id;
  approved_by = or_else a.decided_by_object_id [];
  approved_at = or_else a.decided_at a.created_at;
  expires_at = a.expires_at;
}

-- The argument of `onExecuted`.
unfoldable pub request_of : Base → Option ApprovalRecord → ExecuteRequest
unfolding forward
request_of base none = record { base = base; approval = none }
request_of base (some a) = record { base = base; approval = some (forward a) }

-- A call under way: of `getApproval`, or of `onExecuted`.
pub data Call : Type 0 where
  looking : Call
  executing : Call

-- The state of the panel and its props, with the calls that it has made: the one that is under way,
-- the approvals that were returned, and the requests that were handed on.
pub record Panel : Type 0 where
  pub base : Base
  pub approval_id : Str
  pub lookup : Option ApprovalRecord
  pub lookup_failure : Option Str
  pub busy : Bool
  pub under_way : Option Call
  pub returned : List ApprovalRecord
  pub sent : List ExecuteRequest

abbrev pub new_panel : Base → Panel
new_panel base = record {
  base = base;
  approval_id = [];
  lookup = none;
  lookup_failure = none;
  busy = false;
  under_way = none;
  returned = [];
  sent = [];
}

-- `setApprovalId`.
abbrev pub typed : Str → Panel → Panel
typed text p = record p { approval_id = text }

-- The panel is given another proposal.
abbrev pub rebased : Base → Panel → Panel
rebased base p = record p { base = base }

-- `look`, up to its call.
unfoldable pub look : Panel → Panel
look p = record p { busy = true; lookup_failure = none; lookup = none; under_way = some looking }

-- `look`, from the answer on.
unfoldable pub looked : Reply ApprovalRecord → Panel → Panel
looked (arrived a) p = record p {
  lookup = some a;
  busy = false;
  under_way = none;
  returned = a ∷ p.returned;
}
looked (threw message) p = record p {
  lookup_failure = some message;
  busy = false;
  under_way = none;
}

-- `execute`, up to its call.
unfoldable pub execute : Option ApprovalRecord → Panel → Panel
unfolding request_of
execute approval p = record p {
  busy = true;
  under_way = some executing;
  sent = request_of p.base approval ∷ p.sent;
}

-- `execute`, from its end on, good or bad.
unfoldable pub executed : Panel → Panel
executed p = record p { busy = false; under_way = none }

-- When the three buttons are disabled.
unfoldable pub look_disabled : Panel → Bool
unfolding trim
look_disabled p = p.busy || is_empty (trim p.approval_id)

unfoldable pub execute_disabled : Panel → Bool
execute_disabled p = p.busy || (elim p.lookup [ none ↦ true | some a ↦ false ])

unfoldable pub attempt_disabled : Panel → Bool
attempt_disabled p = p.busy

pub data PanelStep : Panel → Panel → Type 0 where
  edit : {p : Panel} (text : Str) → PanelStep p (typed text p)
  rebase : {p : Panel} (base : Base) → PanelStep p (rebased base p)
  press_look : {p : Panel} → look_disabled p ≡ false → PanelStep p (look p)
  look_ends :
      {p : Panel} (r : Reply ApprovalRecord) → p.under_way ≡ some looking → PanelStep p (looked r p)
  press_execute : {p : Panel} → execute_disabled p ≡ false → PanelStep p (execute p.lookup p)
  press_attempt : {p : Panel} → attempt_disabled p ≡ false → PanelStep p (execute none p)
  execute_ends : {p : Panel} → p.under_way ≡ some executing → PanelStep p (executed p)

pub data PanelReached : Panel → Type 0 where
  opened : (base : Base) → PanelReached (new_panel base)
  then_step : {p q : Panel} → PanelReached p → PanelStep p q → PanelReached q
