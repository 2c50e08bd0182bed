-- ===== src/Webui/Tests.antt =====
-- The console's rules on one approver, one query, one response and one order.
use foundry_capital_markets.Prelude.{
  ℕ, ◌-◌, ◌≤◌, ◌≡◌, refl, ◌≢◌, ◌↔◌, ◌⊎◌, inl, inr, true, false, Option, none, some, List, [], ◌∷◌,
  map, arith, any, keep, In, Str, codes, ◌===◌, trim,
}
use foundry_capital_markets.Prelude.Int.{◌-ℤ◌}
use foundry_capital_markets.Webui.Navigation.{
  approver, role_eq, ScreenDefinition, holds, can_access, visible_screens, require_role,
}
use foundry_capital_markets.Webui.Approvals.{
  pending_approval, ApprovalResponse, ApprovalContext, segregation_of_duties, has_expired, allowed,
  blocked, is_pending, is_elapsed, evaluate_for, evaluate_identity, evaluate_approval, elapsed,
  in_minutes, format_left, format_expiry, approve_disabled, reject_disabled, sent_reason,
}
use foundry_capital_markets.Webui.Deciding.{
  MayDecide, evaluate_approval_iff, evaluate_approval_mono, reject_disabled-eq-false, Covers,
  format_expiry-Covers,
}
use foundry_capital_markets.Webui.Async.{Freshness, AsyncState, partial, Query}
use foundry_capital_markets.Webui.Client.{
  Response, answered, is_ok, send, propose_route, execute_route, refusals_answered,
}
use foundry_capital_markets.Webui.OrderRouting.{
  arrived, proposal, Executed, filled, Screen, propose, proposed, run, ran, executable, order_of,
  here, ask, told, start, finish, Reachable,
}
use foundry_capital_markets.Webui.OrderRouting.Runs.{
  CalmlyReachable, calm_start, calm_next, execution_belongs, stale_fill,
}

runner : Unit {0}
unfolding visible_screens require_role evaluate_approval evaluate_identity evaluate_for is_elapsed
    is_pending can_access holds role_eq any keep ◌===◌ trim reject_disabled sent_reason
    format_expiry format_left
runner = tt

abbrev queue_screen : ScreenDefinition
queue_screen = record {
  path = codes "/approvals";
  title = codes "Approvals";
  required_roles = approver ∷ [];
  beat = some 6;
}

shown : map (λ s. s.path) (visible_screens (approver ∷ [])) ≡ codes "/approvals" ∷ []
unfolding runner
shown = refl

abbrev asked : ApprovalResponse
asked = record {
  id = codes "a-1";
  state = pending_approval;
  proposed_by_object_id = codes "rusty";
  decided_by_object_id = none;
  expires_at = some 700_000;
  created_at = some 100_000;
  decided_at = none;
}

abbrev basher : ApprovalContext
basher = record {
  roles = approver ∷ [];
  current_user_object_id = some (codes "basher");
  now = 200_000;
}

decidable : evaluate_approval asked basher ≡ allowed
unfolding runner
decidable = refl

-- The proposer is kept out, and so is anyone after the expiry.
not_by_proposer :
    evaluate_approval asked (record basher { current_user_object_id = some (codes "rusty") })
    ≡ blocked segregation_of_duties
unfolding runner
not_by_proposer = refl

not_in_time : evaluate_approval asked (record basher { now = 700_000 }) ≡ blocked has_expired
unfolding runner
not_in_time = refl

evaluate_approval_iff_example : (evaluate_approval asked basher ≡ allowed) ↔ MayDecide asked basher
evaluate_approval_iff_example = evaluate_approval_iff asked basher

evaluate_approval_mono_example : evaluate_approval asked (record basher { now = 150_000 }) ≡ allowed
evaluate_approval_mono_example =
    evaluate_approval_mono asked (record basher { now = 150_000 }) 200_000 (omega arith) decidable

reason_given : reject_disabled allowed false (codes " too large ") ≡ false
unfolding runner
reason_given = refl

reject_disabled-eq-false_example :
    (approve_disabled allowed false ≡ false)
    × (sent : Str) × (sent_reason (codes " too large ") ≡ some sent)
    × (sent ≢ [])
reject_disabled-eq-false_example =
    reject_disabled-eq-false allowed false (codes " too large ") reason_given

minutes_left : format_expiry asked 200_000 ≡ in_minutes 8
unfolding runner ◌-ℤ◌
minutes_left = refl

format_expiry-Covers_example :
    ((format_expiry asked 200_000 ≡ elapsed) ↔ (is_elapsed asked.expires_at 200_000 ≡ true))
    × (200_000 ≤ 700_000 → Covers (format_expiry asked 200_000) (700_000 - 200_000))
format_expiry-Covers_example = format_expiry-Covers asked 200_000 700_000 refl

abbrev fresh : Freshness
fresh = record { as_of = 1000; source = none }

abbrev some_missing : AsyncState ℕ
some_missing = partial 7 (codes "b-2" ∷ []) fresh

abbrev rows : Query (List ℕ)
rows = record {
  is_pending = false;
  is_error = false;
  error_text = [];
  result = 1 ∷ 2 ∷ [];
  data_updated_at = 1000;
}

-- A body is taken for JSON as it stands here, and carries no detail.
abbrev no_detail : Str → Option Str
no_detail j = none

abbrev refusal : Response Str
refusal = record {
  status = 422;
  status_text = codes "Unprocessable Entity";
  correlation_id = some (codes "c-1");
  json = some (codes "halt");
}

refusals_answered_example :
    ((propose_route no_detail no_detail refusal ≡ answered (codes "halt"))
      ↔ ((is_ok refusal.status ≡ true) ⊎ (refusal.status ≡ 422)))
    × ((execute_route no_detail no_detail refusal ≡ answered (codes "halt"))
        ↔ ((is_ok refusal.status ≡ true) ⊎ (refusal.status ≡ 403) ⊎ (refusal.status ≡ 409)))
    × ((send no_detail no_detail refusal ≡ answered (codes "halt")) ↔ (is_ok refusal.status ≡ true))
refusals_answered_example = refusals_answered no_detail no_detail refusal (codes "halt") refl

-- Order 1 is proposed, executed and filled.
abbrev filled_screen : Screen ℕ
filled_screen = record {
  result = some (proposal 1);
  execution = some (filled 1);
  failure = none;
  submitting = false;
  proposing = 0;
  running = [];
}

filled_reached : CalmlyReachable filled_screen
unfolding propose proposed run ran executable
filled_reached =
    calm_next
      (calm_next
        (calm_next (calm_next calm_start (ask refl) (inr refl)) (told (arrived (proposal 1)) cc)
          (inl refl))
        (start 1 refl) (inl refl))
      (finish [] 1 (arrived (filled 1)) here (λ e k. cc (k))) (inl refl)

execution_belongs_example :
    ((e : Executed ℕ)
      → filled_screen.execution ≡ some e
      → executable filled_screen ≡ some (order_of e))
    × ((o : ℕ) → In o filled_screen.running → executable filled_screen ≡ some o)
execution_belongs_example = execution_belongs filled_screen filled_reached

stale_fill_example :
    (s : Screen ℕ) × Reachable s
    × (s.execution ≡ some (filled 1))
    × (s.result ≡ some (proposal 2))
    × (executable s ≡ some 2)
stale_fill_example = stale_fill 1 2
