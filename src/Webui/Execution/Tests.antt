-- ===== src/Webui/Execution/Tests.antt =====
-- An approval is looked up, and forwarded.
use foundry_capital_markets.Prelude.{
  ◌≡◌, refl, false, some, [], ◌∷◌, map, codes, is_space, trim_start, trim_end, trim,
}
use foundry_capital_markets.Webui.OrderRouting.{arrived}
use foundry_capital_markets.Webui.Execution.{
  ApprovalRecord, Base, forward, request_of, looking, Panel, new_panel, typed, look, looked,
  execute, look_disabled, execute_disabled, edit, press_look, look_ends, press_execute,
  PanelReached, opened, then_step,
}
use foundry_capital_markets.Webui.Execution.Forwarding.{Sound, Buttons, reached-Sound-Buttons}

abbrev granted : ApprovalRecord
granted = record {
  id = codes "APR-7";
  decided_by_object_id = some (codes "oid-2");
  decided_at = some (codes "2026-01-02");
  created_at = codes "2026-01-01";
  expires_at = codes "2026-01-03";
}

abbrev proposal_base : Base
proposal_base = record { proposal_id = codes "P-1"; correlation_id = codes "c-1" }

abbrev found : Panel
found = looked (arrived granted) (look (typed (codes " APR-7 ") (new_panel proposal_base)))

abbrev forwarded_panel : Panel
forwarded_panel = execute found.lookup found

pressed : look_disabled (typed (codes " APR-7 ") (new_panel proposal_base)) ≡ false
unfolding look_disabled trim trim_end trim_start is_space
pressed = refl

ready : execute_disabled found ≡ false
unfolding execute_disabled looked look
ready = refl

was_looking : (look (typed (codes " APR-7 ") (new_panel proposal_base))).under_way ≡ some looking
unfolding look
was_looking = refl

run_of_panel : PanelReached forwarded_panel
run_of_panel =
    then_step
      (then_step
        (then_step (then_step (opened proposal_base) (edit (codes " APR-7 "))) (press_look pressed))
        (look_ends (arrived granted) was_looking))
      (press_execute ready)

sent_approval : map (λ r. r.approval) forwarded_panel.sent ≡ some (forward granted) ∷ []
unfolding execute looked look request_of
sent_approval = refl

reached-Sound-Buttons_example : Sound forwarded_panel × Buttons forwarded_panel
reached-Sound-Buttons_example = reached-Sound-Buttons forwarded_panel run_of_panel
