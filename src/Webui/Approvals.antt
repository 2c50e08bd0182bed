-- ===== src/Webui/Approvals.antt =====
-- src/webui/src/features/approvals: the approval rules, and what the queue and the panel make of them.
--
-- Times are milliseconds. An expiry that `Date` cannot read is `none`: comparisons with it fail, as
-- with NaN.
use foundry_capital_markets.Prelude.{
  ℕ, ◌/◌, ◌%◌, Bool, true, false, not, ◌||◌, Option, none, some, List, ltb, leb, if◌then◌else◌,
  is_empty, Str, codes, ◌===◌, trim,
}
use foundry_capital_markets.Prelude.Int.{ℤ, pos, negsuc, ◌-ℤ◌}
use foundry_capital_markets.Webui.Navigation.{AppRole, approver, holds}

pub data ApprovalState : Type 0 where
  pending_approval : ApprovalState
  approved : ApprovalState
  rejected : ApprovalState
  expired : ApprovalState

-- The fields of `ApprovalResponse` that the rules and the execution panel read.
pub record ApprovalResponse : Type 0 where
  pub id : Str
  pub state : ApprovalState
  pub proposed_by_object_id : Str
  pub decided_by_object_id : Option Str
  pub expires_at : Option ℕ
  pub created_at : Option ℕ
  pub decided_at : Option ℕ

pub record ApprovalContext : Type 0 where
  pub roles : List AppRole
  pub current_user_object_id : Option Str
  pub now : ℕ

pub data ApprovalBlockCode : Type 0 where
  missing_role : ApprovalBlockCode
  unknown_identity : ApprovalBlockCode
  segregation_of_duties : ApprovalBlockCode
  has_expired : ApprovalBlockCode
  already_decided : ApprovalBlockCode

pub data ApprovalBlock : Type 0 where
  allowed : ApprovalBlock
  blocked : ApprovalBlockCode → ApprovalBlock

unfoldable pub is_pending : ApprovalState → Bool
is_pending pending_approval = true
is_pending approved = false
is_pending rejected = false
is_pending expired = false

-- `new Date(expiresAt).getTime() <= now.getTime()`
unfoldable pub is_elapsed : Option ℕ → ℕ → Bool
is_elapsed none now = false
is_elapsed (some t) now = leb t now

-- The checks behind the identity: the state, the proposer, and the expiry last.
unfoldable pub evaluate_for : Str → ApprovalResponse → ℕ → ApprovalBlock
unfolding is_pending is_elapsed
evaluate_for user approval now =
    if not (is_pending approval.state)
    then blocked already_decided
    else if approval.proposed_by_object_id === user
    then blocked segregation_of_duties
    else if is_elapsed approval.expires_at now
    then blocked has_expired
    else allowed

-- An identity that is missing or empty is not established.
unfoldable pub evaluate_identity : Option Str → ApprovalResponse → ℕ → ApprovalBlock
evaluate_identity none approval now = blocked unknown_identity
evaluate_identity (some user) approval now =
    if is_empty user then blocked unknown_identity else evaluate_for user approval now

unfoldable pub evaluate_approval : ApprovalResponse → ApprovalContext → ApprovalBlock
evaluate_approval approval context =
    if not (holds context.roles approver)
    then blocked missing_role
    else evaluate_identity context.current_user_object_id approval context.now

-- `timeToExpiry`; `none` is NaN.
unfoldable pub time_to_expiry : ApprovalResponse → ℕ → Option ℤ
time_to_expiry approval now = elim approval.expires_at [
  | none ↦ none
  | some t ↦ some (pos t -ℤ pos now)
]

-- What `formatExpiry` writes.
pub data ExpiryText : Type 0 where
  elapsed : ExpiryText
  in_seconds : ℕ → ExpiryText
  in_minutes : ℕ → ExpiryText
  in_hours : (hours minutes : ℕ) → ExpiryText
  not_a_number : ExpiryText

-- `formatExpiry` of the milliseconds that are left.
unfoldable pub format_left : ℤ → ExpiryText
format_left (negsuc n) = elapsed
format_left (pos ms) =
    let minutes = ms / 60_000 in
    if leb ms 0
    then elapsed
    else if ltb minutes 1
    then in_seconds (ms / 1000)
    else if ltb minutes 60
    then in_minutes minutes
    else in_hours (minutes / 60) (minutes % 60)

unfoldable pub format_expiry : ApprovalResponse → ℕ → ExpiryText
unfolding time_to_expiry
format_expiry approval now = elim (time_to_expiry approval now) [
  | none ↦ not_a_number
  | some ms ↦ format_left ms
]

-- `blockTitle`.
unfoldable pub block_title : ApprovalBlockCode → Str
block_title segregation_of_duties = codes "You cannot approve your own proposal"
block_title missing_role = codes "You do not hold the Approver role"
block_title has_expired = codes "This proposal has expired"
block_title already_decided = codes "A decision has already been recorded"
block_title unknown_identity = codes "Your identity could not be established"

abbrev pub is_blocked : ApprovalBlock → Bool
is_blocked allowed = false
is_blocked (blocked code) = true

-- The two buttons of `DecisionPanel`: `true` where they are disabled.
unfoldable pub approve_disabled : ApprovalBlock → Bool → Bool
approve_disabled block submitting = is_blocked block || submitting

unfoldable pub reject_disabled : ApprovalBlock → Bool → Str → Bool
unfolding trim
reject_disabled block submitting reason = is_blocked block || submitting || is_empty (trim reason)

-- The body that `onDecide` of the detail route sends: a blank reason is left out.
unfoldable pub sent_reason : Str → Option Str
unfolding trim
sent_reason reason = if is_empty (trim reason) then none else some (trim reason)
