-- ===== src/Webui/OrderRouting.antt =====
-- `OrderRoutingRoute` of src/webui/src/features/orderrouting/routes.tsx: what screen 10 holds while
-- proposals and executions are asked for, and their answers come in.
use foundry_capital_markets.Prelude.{
  ℕ, ◌+◌, ◌-◌, ◌≡◌, ◌≢◌, Bool, true, false, not, Option, none, some, List, [], ◌∷◌, Str,
}
pub mod Runs

-- What a call of the service ends with: its body, or the message of what it threw.
pub data Reply (A : Type 0) : Type 0 where
  arrived : A → Reply A
  threw : Str → Reply A

-- The body of a proposal, and the slot that a fill or a refusal is stored in. `O` is the type of the
-- service's order identities, which the proposal and its execution share.
pub data Proposed (O : Type 0) : Type 0 where
  proposal : (order : O) → Proposed O
  halted : (message : Str) → Proposed O

pub data Executed (O : Type 0) : Type 0 where
  filled : (order : O) → Executed O
  refused : (order : O) (reason : Str) → Executed O

pub record Screen (O : Type 0) : Type 0 where
  pub result : Option (Proposed O)
  pub execution : Option (Executed O)
  pub failure : Option Str
  pub submitting : Bool
  -- The calls that have not been answered: proposals, and executions with the order of each.
  pub proposing : ℕ
  pub running : List O

module _ {O : Type 0} where
  abbrev pub empty_screen : Screen O
  empty_screen = record {
    result = none;
    execution = none;
    failure = none;
    submitting = false;
    proposing = 0;
    running = [];
  }

  -- `propose`, up to its call.
  unfoldable pub propose : Screen O → Screen O
  propose s = record s {
    submitting = true;
    failure = none;
    execution = none;
    proposing = s.proposing + 1;
  }

  -- `propose`, from the answer on.
  unfoldable pub proposed : Reply (Proposed O) → Screen O → Screen O
  proposed (arrived p) s = record s {
    result = some p;
    submitting = false;
    proposing = s.proposing - 1;
  }
  proposed (threw message) s = record s {
    result = none;
    failure = some message;
    submitting = false;
    proposing = s.proposing - 1;
  }

  -- `run`, up to its call for an order.
  unfoldable pub run : O → Screen O → Screen O
  run order s = record s { failure = none; running = order ∷ s.running }

  -- `run`, from the answer to the call at a place of `running` on.
  unfoldable pub ran : List O → Reply (Executed O) → Screen O → Screen O
  ran rest (arrived e) s = record s { execution = some e; running = rest }
  ran rest (threw message) s = record s { execution = none; failure = some message; running = rest }

  -- The order of the panel's Execute button, which stands only under a proposal.
  unfoldable pub executable : Screen O → Option O
  executable s = elim s.result [
    | some (proposal order) ↦ some order
    | some (halted m) ↦ none
    | none ↦ none
  ]

  abbrev pub order_of : Executed O → O
  order_of (filled o) = o
  order_of (refused o r) = o

  -- An order that waits for its answer, and the ones that wait beside it.
  pub data Picked : O → List O → List O → Type 0 where
    here : {o : O} {os : List O} → Picked o os (o ∷ os)
    there : {o p : O} {rest os : List O} → Picked o rest os → Picked o (p ∷ rest) (p ∷ os)

  -- What can happen on the screen: the form is sent only while none is under way (`OrderTicket`
  -- disables its button while `submitting`), and an execution answers for its own order.
  pub data Step : Screen O → Screen O → Type 0 where
    ask : {s : Screen O} → s.submitting ≡ false → Step s (propose s)
    told : {s : Screen O} (r : Reply (Proposed O)) → s.proposing ≢ 0 → Step s (proposed r s)
    start : {s : Screen O} (o : O) → executable s ≡ some o → Step s (run o s)
    finish :
        {s : Screen O} (rest : List O) (o : O) (r : Reply (Executed O))
        → Picked o rest s.running
        → ((e : Executed O) → r ≡ arrived e → order_of e ≡ o)
        → Step s (ran rest r s)

  pub data Reachable : Screen O → Type 0 where
    initial : Reachable empty_screen
    next : {s t : Screen O} → Reachable s → Step s t → Reachable t
