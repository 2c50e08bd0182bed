-- ===== src/Diagram/Pictures/RequestFlow/Items.antt =====
-- The contents of the boxes of `requestDecisionFlow`, in scripts/diagrams/diagrams.mjs.
use foundry_capital_markets.Prelude.{List, [], ◌∷◌}
use foundry_capital_markets.Diagram.Metrics.{mono}
use foundry_capital_markets.Diagram.Pictures.{Item, item}

abbrev pub caller_spec : Item
caller_spec =
    record (item "Caller  ·  lane service or webui"
      "POST /v1/route   (Entra token, Router.Invoke app role)\n{\n  \"correlationId\": \"b6b1f0a2-…\",\n  \"lane\": \"Research\",\n  \"taskKind\": \"synthesize\",\n  \"payload\": { \"question\": \"…\" },\n  \"costCeilingUsd\": 0.25,\n  \"latencyBudgetMs\": 8000,\n  \"dataClassification\": \"Internal\",\n  \"policySetId\": \"CapitalMarkets-US\",\n  \"complexityHints\": {\n    \"inputTokenEstimate\": 12000,\n    \"requiresMultiStep\": true,\n    \"requiresRetrieval\": true,\n    \"requiresToolCalls\": false\n  }\n}") {
        body_family = mono;
        body_size = 16;
      }

abbrev pub steps : List Item
steps =
    item "router-service  ·  POST /v1/route"
      "Internal Container Apps ingress. There is no public FQDN.\nRejects a caller without the Router.Invoke app role with 403.\nRoutingPlanner.Plan() is the single entry point and the one place\nthe evaluation order is decided — calling TierSelector directly\nwould bypass the gate."
    ∷ item "ComplexityScorer.Score(hints)"
        "Pure, deterministic, caller-supplied signals only — never inferred from model output.\ntokens/32000 × 0.40  +  multiStep × 0.25  +  retrieval × 0.20  +  toolCalls × 0.15\nRounded to 4dp, clamped 0–1.   IndicatedTier:  <0.35 Economy · <0.70 Standard · else Premium."
    ∷ item "STEP 1 — PolicyGate.Evaluate(catalog, policySet, classification, region)"
        "Runs FIRST, against the full multi-vendor catalog. Excludes, in order:\n  · region not in policy.AllowedRegions  → the whole catalog is excluded\n  · vendor not in policy.ApprovedVendors\n  · classification > policy.MaxClassification[vendor]\n  · cost > policy.MaxCostPerRequestUsd\nEvery exclusion carries prose fit to read aloud to a governance audience."
    ∷ item "STEP 2 — TierSelector.Select(score, ceiling, eligible)"
        "Sees ONLY the policy-eligible candidates. Prefers the indicated tier; if it is\nunaffordable or unavailable it takes the most capable tier that is both.\nThe ceiling is a control, not a report."
    ∷ item "Vendor invocation"
        "The selected deployment is invoked over the Foundry private endpoint.\nAPIM metering / content safety is specified but not yet in Terraform.\nNo silent retry on a different tier — that would corrupt the cost figures."
    ∷ []

abbrev pub outcomes : List Item
outcomes =
    item "RefusedByPolicy  →  HTTP 200"
      "Policy left no eligible candidate. selectedDeployment is null and every\ncandidate is listed with its reason.\n\nReturned as 200 on purpose: a refusal is a correct, governed outcome.\nModelling it as 4xx would invite retry-on-error, and the one thing that\nmust never happen is a retry that finds an unapproved model."
    ∷ item "Denied  →  HTTP 402"
        "Cost ceiling. Even the cheapest available tier projects above the ceiling.\n\"Cheapest available tier Economy projects 0.310 USD against a ceiling\nof 0.250 USD.\"\n\nKept distinct from RefusedByPolicy: \"too expensive\" and \"not permitted\"\nare different conversations with different people."
    ∷ item "Downgraded  →  HTTP 200"
        "Complexity indicated a higher tier; the ceiling did not allow it.\nRouted to the most capable affordable tier, with the downgrade named\nin the rationale. This is wow moment B on the comparison screen."
    ∷ item "Routed  →  HTTP 200"
        "Routed to the tier the complexity score indicated, within both the policy\nceiling and the request ceiling. Rationale names the deciding factor in a\nplain sentence, because the presenter reads it aloud on stage."
    ∷ []

abbrev pub persist_items : List Item
persist_items =
    item "Cosmos  ·  routerDecisions"
      "Partitioned by /correlationId.\nInputs, candidate tiers with per-candidate rejection\nreasons, policy exclusions, outcome, rationale,\npolicySetId and policySetVersion.\nGET /v1/decisions/{correlationId} (Router.Read)."
    ∷ item "Cosmos  ·  auditEvents  (append-only)"
        "Every step writes one record keyed by the same correlationId.\nAppend-only and retained for the life of the environment.\nAC-8: the whole chain is reconstructable in ONE query —\nwhich is exactly what Beat 8 does from an unrehearsed pick."
    ∷ item "Scoreboard  ·  Application Insights (Cosmos change feed as fallback)"
        "GET /v1/scoreboard?window=15m — count, total cost, baseline cost,\nsavings delta, p50/p95 latency, tier distribution, mean quality by lane.\nVisible within 5 seconds (AC-5). Sampling is disabled for router and\napproval telemetry; the UI labels the degraded source when it falls back."
    ∷ []
