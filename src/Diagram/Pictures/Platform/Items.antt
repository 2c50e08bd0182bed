-- ===== src/Diagram/Pictures/Platform/Items.antt =====
-- The contents of the boxes of `platformTopology`, in scripts/diagrams/diagrams.mjs.
use foundry_capital_markets.Prelude.{List, [], ◌∷◌}
use foundry_capital_markets.Diagram.Pictures.{Item, item}

abbrev pub pub_items : List Item
pub_items =
    item "Demo operator (browser)"
      "Entra ID interactive sign-in via MSAL.\nTwo identities on the day: one holding\nApprover, one deliberately without it."
    ∷ item "Microsoft Entra ID  ·  identity plane"
        "apps/entra.tf — one app registration, three app roles:\nRouter.Invoke (Application), Router.Read (User+App), Approver (User).\nDeliberately a public endpoint: it is an identity plane, not a data plane."
    ∷ item "Azure control plane  ·  Terraform"
        "Two stacks, remote state: infrastructure/ (platform)\nand apps/ (workloads). Control-plane access is not\nwhat Principle II constrains — data planes are."
    ∷ []

abbrev pub webui_spec : Item
webui_spec =
    item "webui  ·  Vite / React  ·  EXTERNAL ingress"
      "apps/container-apps.tf — the only container app with\nexternal_enabled = true. This is the single public surface\nallowed by Principle II."

abbrev pub router_spec : Item
router_spec =
    item "router-service  ·  the chokepoint"
      "The only workload identity holding \"Azure AI Developer\" on the\nFoundry project (apps/roles.tf). Every model call in the system\npasses through POST /v1/route. Internal ingress only."

abbrev pub lane_specs : List Item
lane_specs =
    item "research-service" "Search Index Data Reader.\nNo Foundry role assignment."
    ∷ item "surveillance-service" "Search Index Data Reader.\nNo Foundry role assignment."
    ∷ item "orderrouting-service" "Simulated OMS only.\nNo Foundry role assignment."
    ∷ []

abbrev pub pe_items : List Item
pe_items =
    item "cosmos-pe" "group: Sql\nprivatelink.documents.azure.com"
    ∷ item "search-pe" "group: searchService\nprivatelink.search.windows.net"
    ∷ item "keyvault-pe" "group: vault\nprivatelink.vaultcore.azure.net"
    ∷ item "registry-pe" "group: registry\nprivatelink.azurecr.io"
    ∷ item "foundry-pe" "group: account\nprivatelink.services.ai.azure.com"
    ∷ item "Private DNS  ·  6 zones"
        "All six linked to the VNet\n(privatelink.openai.azure.com is\ncreated but has no endpoint)."
    ∷ []

abbrev pub data_items : List Item
data_items =
    item "Cosmos DB (SQL)"
      "public_network_access_enabled = false\nlocal_authentication_enabled = false\n6 containers: routerDecisions, approvals,\nsurveillanceAlerts, researchQueries,\norderProposals, auditEvents"
    ∷ item "Azure AI Search"
        "public_network_access_enabled = false\nlocal_authentication_enabled = false\nSystem-assigned identity.\nStandard SKU. Research corpus."
    ∷ item "Key Vault"
        "public_network_access_enabled = false\nRBAC authorization, network_acls Deny.\nHolds only what cannot be managed-\nidentity authenticated (Principle VIII)."
    ∷ item "Container Registry (Premium)"
        "public_network_access_enabled = false\nadmin_enabled = false\nanonymous_pull_enabled = false\nPremium SKU is required for private link."
    ∷ []

abbrev pub fnd_proj_spec : Item
fnd_proj_spec =
    item "Foundry project  ·  fcmr-*-proj  ·  PREVIEW API"
      "accounts/projects@2026-05-15-preview, system-assigned identity.\nHosted agents run under this project identity."

abbrev pub fnd_deploy_specs : List Item
fnd_deploy_specs =
    item "Serverless deployments"
      "gpt-5.4-mini · gpt-5.4 · gpt-5.6-sol\nclaude-sonnet-4-5 (Anthropic)\ngrok-4.3 (xAI)\nBilled per token."
    ∷ item "Managed compute  ·  PREVIEW"
        "managedComputeDeployments@2026-05-15-preview\nnvidia-nemotron-3-nano-30b-a3b-fp8 on H100_80GB,\nGlobalManagedCompute capacity 1.\nThe only destination cleared for Restricted data.\n60m timeouts — provision ahead of the demo."
    ∷ []

abbrev pub apim_spec : Item
apim_spec =
    item "APIM as AI gateway  —  NOT IN TERRAFORM"
      "docs/architecture.md and the constitution both require all model\ntraffic to transit APIM for token metering, cost ceilings and content\nsafety. No azurerm_api_management resource exists in either stack,\nand no private DNS zone for it is declared. Today the router calls the\nFoundry data plane directly over the foundry private endpoint."

abbrev pub obs_items : List Item
obs_items =
    item "Log Analytics workspace"
      "PerGB2018, 30-day retention.\nBacks the Container Apps Environment."
    ∷ item "Application Insights"
        "sampling_percentage = 100 — sampling is off so the\nscoreboard is complete inside the 5s budget (AC-5, ADR 004).\nCosmos remains the system of record for audit."
    ∷ []
