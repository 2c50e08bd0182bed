-- ===== src/Diagram/Pictures/AgentMap/Items.antt =====
-- The contents of the boxes of `agentArchitecture`, in scripts/diagrams/diagrams.mjs.
use foundry_capital_markets.Prelude.{List, [], ◌∷◌}
use foundry_capital_markets.Diagram.Pictures.{Item, item}

abbrev pub custodian_spec : Item
custodian_spec =
    item "① Lane service  ·  the CUSTODIAN"
      "C# on Container Apps. It is not the agent.\n\n1. stamps correlationId BEFORE thread creation\n2. creates ONE thread for ONE business request —\n   threads are never reused, because carried-over\n   context makes cost and reproducibility\n   unexplainable and both are demo claims\n3. supplies the tool surface\n4. enforces the approval halt\n5. writes the audit record\n\nStep budget: exceed it and the agent halts, returns\npartial work, and logs. An agent that loops on stage\nis worse than one that stops."

abbrev pub agent_spec : Item
agent_spec =
    item "② Hosted Foundry agent  ·  one per lane"
      "Runs under the Foundry PROJECT identity (ADR 005).\n\nResearch — retrieve, then synthesise per claim.\n  Read-only. Must be able to return \"I could not\n  attribute this\" as a SUCCESS (Principle III).\nSurveillance — triage 500+ alerts, then assemble\n  evidence. Halts for approval.\nOrder routing — one proposal. Halts every time.\n\nRetrieved chunks are DATA, never instructions:\nwrapped in a delimited envelope that carries no tool\nauthority. Injection attempts are logged as audit\nevents (T-024)."

abbrev pub mcp_spec : Item
mcp_spec =
    item "③ MCP tool server  ·  hosted IN the lane service"
      "Research: search_corpus, fetch_chunk, list_sources\n  — all read-only.\nSurveillance: fetch_alert_batch, fetch_communications,\n  fetch_trade_context, submit_for_approval.\nOrder routing: fetch_order, fetch_venue_liquidity,\n  evaluate_best_execution_policy, submit_for_approval.\n\nevaluate_best_execution_policy is deterministic code\nthe agent CALLS, not the agent's judgement. The model\nexplains the result; code decides what is permitted.\n\nsubmit_for_approval is the ONLY tool in the entire\nsystem with a side effect — and it writes a proposal,\nnever a state change."

abbrev pub data_spec : Item
data_spec =
    item "④ Data planes  ·  private endpoints only"
      "Azure AI Search — synthetic research corpus.\nCosmos DB — alerts, proposals, approvals, audit.\nSimulated OMS — labelled simulated on the record\nitself, not as a disclaimer in a corner, so a\nscreenshot taken out of context is still honest.\n\nThe lane service identities hold Search Index Data\nReader and nothing on Foundry (apps/roles.tf)."

abbrev pub row_specs : List Item
row_specs = custodian_spec ∷ agent_spec ∷ mcp_spec ∷ data_spec ∷ []

abbrev pub chain_specs : List Item
chain_specs =
    item "router-service  ·  POST /v1/route"
      "The single chokepoint. Deterministic code, never an agent:\nmaking the component that enforces governance non-deterministic\nis not a position you can defend to a compliance audience.\nPolicyGate then TierSelector, decision recorded with rationale."
    ∷ item "APIM AI gateway  —  NOT IN TERRAFORM"
        "Specified for token metering, cost ceilings and content safety in\ndocs/architecture.md and the constitution. No APIM resource exists\nin either stack today, so the ceiling is currently enforced in one\nplace (the router) rather than two."
    ∷ item "Foundry model deployments"
        "Serverless: AzureOpenAI, Anthropic, xAI.\nManaged compute (PREVIEW): open-weight model on H100_80GB\ncapacity inside the VNet — the only destination cleared for\nRestricted data."
    ∷ []

abbrev pub det_specs : List Item
det_specs =
    item "The model produces SCORES"
      "Each alert is scored against a fixed rubric with the temperature\npinned. 500 alerts do not fit one context window and do not try to:\nthe service chunks them and routes each chunk independently —\nwhich is also what makes the cost scoreboard interesting."
    ∷ item "Deterministic CODE produces the RANKING"
        "The ordering is applied by the lane service, not by the model.\nThis is the single design choice that makes AC-6 achievable:\nsame seed and same inputs produce the same order, provably,\non stage. A free-running agent over 500 alerts would not."
    ∷ item "Quality is deterministic too — never LLM-as-judge"
        "Attribution coverage (research), rank agreement against a seeded\nground truth (surveillance), policy conformance (order routing).\nAll recomputable by the audience. A model-graded number invites\nan obvious objection and the demo loses the room defending it."
    ∷ []

abbrev pub hitl_specs : List Item
hitl_specs =
    item "submit_for_approval"
      "The only side-effecting tool in the system.\nIt writes a proposal plus an evidence packet.\nNo alert, order or publication changes state."
    ∷ item "PendingApproval  ·  Cosmos approvals"
        "The proposal, the evidence packet exactly as it\nwill be presented, and the proposing identity.\nPartitioned by /correlationId."
    ∷ item "HUMAN approver  ·  Approver app role"
        "Segregation of duties is enforced in the approval API,\nnot in the UI. The UI renders the control disabled with\nthe reason; the API refuses the call. Beat 6 shows the\nAPI refusing, because that is the one the audience believes."
    ∷ item "Approved → executed & audited   ·   Expired → nothing happened"
        "An approval persists approver identity, timestamp, decision and\nthe full evidence packet presented at decision time.\nAn unapproved proposal EXPIRES. It never auto-executes on\ntimeout — a gate that opens on inaction is not a gate."
    ∷ []

abbrev pub fail_specs : List Item
fail_specs =
    item "Tool error"
      "Surfaced to the agent. One retry, then partial\nresults with the gap explicitly named."
    ∷ item "Model timeout"
        "The router returns a routing failure and the lane\nreports it. NO silent retry on a different tier —\nthat would corrupt the cost figures."
    ∷ item "No eligible model (policy)"
        "Explicit refusal naming the exclusions. Never a\nfallback to an unapproved model. A governance\nsystem that degrades OPEN is not a control."
    ∷ item "Step budget exceeded"
        "Halt, return partial work, log. Foundry caps tool\ncount and step depth; the surveillance agent is\nclosest to those limits (verify early, T-027a)."
    ∷ []
