-- ===== src/Diagram/Pictures/SourceMap/Items.antt =====
-- The contents of the boxes of `srcArchitecture`, in scripts/diagrams/diagrams.mjs.
use foundry_capital_markets.Prelude.{List, [], ◌∷◌}
use foundry_capital_markets.Diagram.Pictures.{Item, item}

abbrev pub edge_items : List Item
edge_items =
    item "src/webui  ·  Vite + React + TypeScript"
      "api/client.ts + api/types.generated.ts — types are GENERATED from the\ncontracts by scripts/generate-api-types.mjs and drift-checked in CI.\nshell/navigation.ts, ErrorBoundary.tsx, PlaceholderScreen.tsx\nstate/asyncState.ts + AsyncBoundary.tsx — the five required view states.\nScreens are still PlaceholderScreen: the shell is real, the beats are not."
    ∷ item "tools/Fcmr.CosmosProvision  ·  console"
        "Creates the six containers in the local Cosmos emulator, which Terraform\ncannot reach. The duplication with infrastructure/cosmos.tf is deliberate\nand guarded: scripts/policy-cosmos-containers-match.sh fails the build if\nthe two ever disagree about a name or a partition key."
    ∷ []

abbrev pub svc_items : List Item
svc_items =
    item "src/router-service  ·  the only path to a model"
      "Routing/RouteRequestHandler.cs — POST /v1/route. Translates HTTP only.\nContracts/RouteRequestValidator.cs · Routing/RouteStatusMapper.cs\nConfiguration/ModelCatalog.cs + RouterOptions.cs\nSecurity/RouterAuthorization.cs — Router.Invoke app role\nCorrelation/CorrelationIdMiddleware.cs — one id, end to end\nPersistence/{RoutingDecisionStore, CosmosRoutingDecisionStore, CosmosClientFactory}.cs\nTelemetry/TelemetryRegistration.cs · Health/DecisionStoreHealthCheck.cs"
    ∷ item "src/approvals-service  ·  the human gate"
        "Endpoints/ApprovalEndpoints.cs — propose · approve · reject · get.\nSecurity/ApprovalsAuthorization.cs — Proposer and Approver app roles,\ncaller identity read from the token oid claim, never from the body (ADR-011).\nPersistence/ApprovalStore.cs — IN-MEMORY today; Cosmos is T-014a.\nEvery refusal is audited too: \"someone tried to approve their own\nproposal and was stopped\" is the record an auditor comes looking for."
    ∷ []

abbrev pub dom_items : List Item
dom_items =
    item "src/Fcmr.Router.Decisions"
      "ZERO dependencies, by design.\nPolicyGate.cs — runs FIRST\nComplexityScorer.cs — pure\nTierSelector.cs · RoutingPlanner.cs\nPolicySetRepository + Validation\nRoutingDecision · ModelTier · ModelVendor\n\nNo ASP.NET, no Azure SDK, no clock.\nThat is what makes it exhaustively\ntestable — and it is coverage-gated\nat 70%, checked by scripts/check-coverage.sh."
    ∷ item "src/Fcmr.Approvals.Domain"
        "ApprovalStateMachine.cs · Approval.cs\nApprovalState / Command / Refusal\nEvidencePacket.cs · ExecutionGate.cs\nApprovalAuditEvent.cs\n\nNothing here can execute anything.\nThe strongest statement it can make\nis an ExecutionGate — an authorisation,\nnot a receipt. Whatever acts must\npresent one (ADR-008)."
    ∷ item "src/Fcmr.Demo.Data"
        "DemoDataGenerator.cs\nDemoUniverse.cs · DemoRecords.cs\nDeterministicRandom.cs\n\nSynthetic only, seeded, committed.\nThe generated volume is gitignored,\nso the repository carries the recipe\nrather than the data (Principle VII).\nNo real counterparty exists anywhere."
    ∷ []

abbrev pub gap_items : List Item
gap_items =
    item "src/research-service" "README.md only.\nNo .csproj, no code.\nTask T-023."
    ∷ item "src/surveillance-service" "README.md only.\nNo .csproj, no code.\nTask T-024."
    ∷ item "src/orderrouting-service" "README.md only.\nNo .csproj, no code.\nTask T-025."
    ∷ item "Model invocation"
        "RouteRequestHandler returns\nInferenceState.NotInvoked.\nNo vendor is called yet.\nADR-007 forbids a canned\nreply standing in for one."
    ∷ []

abbrev pub test_items : List Item
test_items =
    item "Router.Decisions.Tests" "The 70% gate.\nPure unit tests."
    ∷ item "Approvals.Domain.Tests" "State machine and\nsegregation of duties."
    ∷ item "RouterService.Tests" "Handler, validator,\nstatus mapping."
    ∷ item "Contract.Tests" "Both APIs through\ntheir published surface."
    ∷ item "Persistence.Tests" "Real Cosmos emulator.\nFails loudly, never skips."
    ∷ item "Demo.Data.Tests" "Generator determinism."
    ∷ []
