-- ===== src/Diagram/Pictures/ScreenMap/Items.antt =====
-- The contents of the boxes of `uiScreenMap`, in scripts/diagrams/diagrams.mjs.
use foundry_capital_markets.Prelude.{List, [], ◌∷◌}
use foundry_capital_markets.Diagram.Pictures.{Item, item}

abbrev pub invoke_screens : List Item
invoke_screens =
    item "1 · Request console   /"
      "Beats 3 and 5. T-028.\nSubmits a business request: intent, cost ceiling,\ndata classification. Exposes classification as a\ncontrol — it is a property of the REQUEST, not a\nrouting preference, so it stays inside Principle IV."
    ∷ item "9 · Research   /research   — WOW D"
        "Beat 7. T-033.\nInline citations as clickable superscripts opening the\nsource chunk; coverage percentage in the header.\nThe unattributable-claims panel is ALWAYS present and\nsays \"no unattributable claims\" when empty — a panel\nthat only appears on failure teaches the audience it is\nan error state rather than a control."
    ∷ item "10 · Order routing   /orders"
        "No beat of its own. T-034.\nEvery surface showing execution is labelled SIMULATED\non the record itself, not as a corner disclaimer."
    ∷ []

abbrev pub read_screens : List Item
read_screens =
    item "2 · Live scoreboard   /scoreboard"
      "Beat 3. T-029.\n5-second refresh; shows the timestamp of the data,\nnot a spinner. A stale number that admits it is stale\nbeats a fresh-looking lie."
    ∷ item "3 · Cost comparison   /scoreboard/comparison   — WOW B"
        "Beat 3. T-030.\nONE number dominates: percentage saved against an\nall-premium baseline. Per-request tier, cost, latency\nand rationale beneath it. The presenter drills a row\nmid-sentence and reads the rationale aloud, so the\nrationale must be a plain sentence naming the deciding\nfactor — not a JSON blob and not a score."
    ∷ item "4 · Decision detail   /decisions/:id"
        "Beats 3 and 8. T-029.\nComplexity inputs, candidate tiers with per-candidate\nrejection reasons, policy exclusions, outcome, rationale.\nEvery number on the scoreboard opens to this."
    ∷ item "5 · Surveillance triage   /surveillance   — WOW C"
        "Beat 4. T-031.\n500+ alerts, virtualised list (500 DOM rows stutter on\nprojector hardware and the stutter reads as \"this does\nnot scale\"). Sorts default to model rank, because the\nranking IS the product. A visible seed indicator carries\nthe AC-6 reproducibility claim."
    ∷ item "6 · Alert detail   /surveillance/:id"
        "Beat 4. T-031.\nRationale plus assembled evidence. Proposing escalation\nfrom here creates an approval, never an escalation."
    ∷ item "11 · Audit reconstruction   /audit/:correlationId"
        "Beat 8. T-020.\nOne query rebuilds the whole chain. The audience picks\nthe interaction — unrehearsed, or it is worth nothing."
    ∷ []

abbrev pub approver_screens : List Item
approver_screens =
    item "7 · Approval queue   /approvals"
      "Beat 6. T-032.\nPending proposals with their evidence packets, and\nexpired proposals showing that a timeout produced\nno action at all."
    ∷ item "8 · Approval detail   /approvals/:id"
        "Beat 6. T-032.\nThe approve control renders DISABLED with the reason\nstated when the viewer is the proposer — and the API\nrefuses the call independently. Unauthorised navigation\nis hidden; unauthorised ACTIONS are visibly blocked.\nThose are different on purpose: a hidden button leaves\nnothing to demonstrate."
    ∷ item "12 · Policy sets   /policy   — UNSCHEDULED"
        "Beat 5. No task number: this screen does not exist in\nthe current task list, and Beat 5 cannot run without it.\nThe vendor toggle has to live in the product — doing it\nin the Azure portal breaks the claim that governance is\na first-class surface. Read-mostly with a single vendor\ntoggle is enough."
    ∷ []

abbrev pub beats : List Item
beats =
    item "Beat 2" "Private by construction.\nNo screen — it is a shell\nand a CI job."
    ∷ item "Beat 3 — PRIMARY" "Router economics.\nScreens 1, 2, 3, 4."
    ∷ item "Beat 4 — PRIMARY" "Surveillance triage.\nScreens 5, 6."
    ∷ item "Beat 5" "The model swap.\nScreens 12 then 1.\nCompress, never cut."
    ∷ item "Beat 6" "Human in the loop.\nScreens 7, 8."
    ∷ item "Beats 7 & 8" "Attributed research (9),\nthen audit from an\nunrehearsed pick (11)."
    ∷ []

abbrev pub states : List Item
states =
    item "Loading" "Skeleton matching the final\nlayout. No layout shift on\na projector."
    ∷ item "Empty" "Explains what would populate\nit and how to trigger it."
    ∷ item "Error"
        "Names what failed and what\nstill works. Never a bare\n\"Something went wrong\"."
    ∷ item "Partial" "Some lanes returned, some did\nnot. Show what exists, mark\nwhat is missing."
    ∷ item "Degraded"
        "Fallback source or stale data,\nlabelled inline. A demo that\nhides its own failure is one\nbad question from collapse."
    ∷ []
