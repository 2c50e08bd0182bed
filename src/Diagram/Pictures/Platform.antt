-- ===== src/Diagram/Pictures/Platform.antt =====
-- `platformTopology`, of scripts/diagrams/diagrams.mjs: the private Azure platform.
pub mod Items
pub mod Layout
use foundry_capital_markets.Prelude.{ℕ, true, false, not, none, some, List, [], ◌∷◌, take, codes}
use foundry_capital_markets.Prelude.Int.{◌+ℤ◌, ◌-ℤ◌}
use foundry_capital_markets.Diagram.Metrics.{grains}
use foundry_capital_markets.Diagram.Geometry.{
  round, px, left_side, right_side, top_side, bottom_side, centre,
}
use foundry_capital_markets.Diagram.Scene.{Prefix}
use foundry_capital_markets.Diagram.Shapes.{Placed}
use foundry_capital_markets.Diagram.Arrows.{ArrowOpts}
use foundry_capital_markets.Diagram.Pictures.{
  ◌>>◌, Draw, pure, ◌>>=◌, item, group_spec, no_options, minus_px, draw_box, draw_group, draw_arrow,
  draw_header, draw_legend, place_items, place_row, nth, stacked, legend_private, legend_public,
  legend_preview, legend_chokepoint, legend_absent,
}
use foundry_capital_markets.Diagram.Pictures.Platform.Items.{
  pub_items, webui_spec, router_spec, lane_specs, data_items, fnd_proj_spec, fnd_deploy_specs,
  apim_spec, obs_items,
}
use foundry_capital_markets.Diagram.Pictures.Platform.Layout.{
  x0, w, pub_y, pub_cols, pub_box_y, pub_h, vnet_y, v_content_top, ca_sub_x, ca_sub_w, cae_x, cae_w,
  app_x, app_w, lane_cols, h_webui, h_router, cae_h, pe_sub_x, pe_sub_w, pe_cols, pe_slice,
  pe_row_h, pe_row_heights, subnet_row_h, dp_y, dp_x, dp_w, data_cols, data_h, fnd_x, fnd_w, apim_x,
  apim_w, fnd_inner_x, fnd_inner_w, fnd_cols, fnd_proj_h, fnd_h, apim_h, dp_h, obs_y, obs_cols,
  obs_group_h, vnet_h, gap_band_y,
}

-- A round of the loop over the rows of private endpoints.
unfoldable pub pe_row : ℕ → Draw (List Placed)
unfolding ◌+ℤ◌ stacked place_items
pe_row r =
    place_items pe_cols (v_content_top +ℤ px 82 +ℤ stacked (px 40) (take r pe_row_heights))
      (pe_row_h r) 0 (pe_slice r)

-- The groups, which are behind the boxes.
pub record Groups : Type 0 where
  pub ca_sub : Placed
  pub pe_sub : Placed
  pub dp_group : Placed

unfoldable pub draw_groups : Draw Groups
draw_groups = do
  vnet ←
      draw_group
        (record (group_spec x0 vnet_y w vnet_h
          "VNET  fcmr-*-vnet   10.42.0.0/16   —   NO PUBLIC DATA-PLANE ENDPOINT"
          "Principle II, enforced by scripts/policy-no-public-endpoints.sh in CI: every resource below declares public access disabled. This boundary is the compliance claim the demo rests on.") {
            label_size = 28;
            sublabel_size = 18;
          })
  ca_sub ← draw_group (
      group_spec ca_sub_x v_content_top ca_sub_w subnet_row_h
        "subnet  container-apps   10.42.0.0/23" "Delegated to Microsoft.App/environments.")
  _ ← draw_group (
      group_spec cae_x (v_content_top +ℤ px 82) cae_w cae_h
        "Container Apps Environment  ·  internal load balancer"
        "internal_load_balancer_enabled = true. No Kubernetes (ADR 001).")
  pe_sub ← draw_group (
      group_spec pe_sub_x v_content_top pe_sub_w subnet_row_h
        "subnet  private-endpoints   10.42.2.0/24"
        "One private endpoint per data plane. infrastructure/private-endpoints.tf.")
  dp_group ← draw_group (
      group_spec dp_x dp_y dp_w dp_h
        "AZURE DATA PLANES  —  publicNetworkAccess = false on every one"
        "Entra-only authentication; local auth and account keys disabled (Principle VIII).")
  _ ← draw_group (
      group_spec fnd_x (dp_y +ℤ px 82 +ℤ data_h +ℤ px 40) fnd_w fnd_h
        "Microsoft Foundry account  ·  kind = AIServices"
        "publicNetworkAccess Disabled · disableLocalAuth true · allowProjectManagement true. Not an AI Hub workspace.")
  _ ← draw_group (
      group_spec dp_x obs_y dp_w obs_group_h "Observability"
        "Neither workspace has a private endpoint in infrastructure/*.tf — telemetry ingestion is the one data path that is not private-linked.")
  pure (record { ca_sub = ca_sub; pe_sub = pe_sub; dp_group = dp_group })

-- The boxes that arrows meet.
pub record Boxes : Type 0 where
  pub webui : Placed
  pub router : Placed
  pub lanes : List Placed

unfoldable pub draw_boxes : Draw Boxes
draw_boxes = do
  webui ← draw_box webui_spec app_x (v_content_top +ℤ px 82 +ℤ px 76) app_w (some h_webui)
  router ←
      draw_box router_spec app_x (v_content_top +ℤ px 82 +ℤ px 76 +ℤ h_webui +ℤ px 40) app_w
        (some h_router)
  lanes ←
      place_row lane_cols (v_content_top +ℤ px 82 +ℤ px 76 +ℤ h_webui +ℤ px 40 +ℤ h_router +ℤ px 40)
        lane_specs
  _ ← pe_row 0
  _ ← pe_row 1
  _ ← pe_row 2
  data_boxes ← place_row data_cols (dp_y +ℤ px 82) data_items
  fnd_proj ←
      draw_box fnd_proj_spec fnd_inner_x (dp_y +ℤ px 82 +ℤ data_h +ℤ px 40 +ℤ px 82) fnd_inner_w
        (some fnd_proj_h)
  _ ←
      place_row fnd_cols (dp_y +ℤ px 82 +ℤ data_h +ℤ px 40 +ℤ px 82 +ℤ fnd_proj_h +ℤ px 40)
        fnd_deploy_specs
  _ ← draw_box apim_spec apim_x (dp_y +ℤ px 82 +ℤ data_h +ℤ px 40) apim_w (some apim_h)
  _ ← place_row obs_cols (obs_y +ℤ px 82) obs_items
  pure (record { webui = webui; router = router; lanes = lanes })

-- The loop over the lanes.
unfoldable pub lane_arrows : Placed → List Placed → Draw (Unit {0})
unfolding ◌>>=◌ draw_arrow
lane_arrows router [] = pure tt
lane_arrows router (lane ∷ lanes) = do
  draw_arrow lane router (record no_options { sides = some (top_side, bottom_side) })
  lane_arrows router lanes

unfoldable pub draw_arrows : List Placed → Groups → Boxes → Draw (Unit {0})
draw_arrows public_boxes groups boxes = do
  public_0 ← nth public_boxes 0
  draw_arrow public_0 boxes.webui (record no_options {
    sides = some (bottom_side, top_side);
    label = codes "HTTPS — the ONLY public ingress\nanywhere in the system";
    label_width = px 520;
    label_at = some (record { x = (centre public_0.frame).x -ℤ px 40; y = gap_band_y });
  })
  public_1 ← nth public_boxes 1
  draw_arrow public_1 groups.ca_sub (record no_options {
    sides = some (bottom_side, top_side);
    label =
        codes
          "Entra token issuance · managed identity · app roles\n(identity plane, not a data plane)";
    label_width = px 640;
    label_at = some (record { x = (centre public_1.frame).x +ℤ px 120; y = gap_band_y });
  })
  draw_arrow groups.ca_sub groups.pe_sub (record no_options {
    sides = some (right_side, left_side);
    label = codes "ALL data-plane\ntraffic leaves\nthrough a private\nendpoint";
    label_width = px 200;
    label_dy = minus_px 110;
  })
  draw_arrow boxes.router groups.pe_sub (record no_options {
    sides = some (right_side, left_side);
    label = codes "only the router\nreaches a model\ndeployment";
    label_width = px 200;
    label_dy = px 90;
  })
  draw_arrow groups.pe_sub groups.dp_group (record no_options {
    sides = some (bottom_side, top_side);
    label =
        codes
          "five private endpoints, six private DNS zones linked to the VNet —\neach terminates on the data plane below";
    label_width = px 760;
    label_at = some (record { x = ca_sub_x +ℤ px 420; y = v_content_top +ℤ subnet_row_h +ℤ px 34 });
  })
  draw_arrow boxes.webui boxes.router (record no_options { sides = some (bottom_side, top_side) })
  lane_arrows boxes.router boxes.lanes

unfoldable pub platform_topology : Draw (Unit {0})
platform_topology = do
  draw_header x0 (px 60) w "01 · Governed AI Exchange — private Azure platform topology"
      "Conclusion: every data plane in this system — Cosmos, AI Search, Key Vault, the registry and Microsoft Foundry — is reachable only from inside the VNet, and the sole public surface is the demo UI front door."
  _ ← draw_group (
      group_spec x0 pub_y w (px 76 +ℤ pub_h +ℤ px 34) "PUBLIC INTERNET"
        "Nothing below this line reaches an Azure data plane directly.")
  public_boxes ← place_row pub_cols pub_box_y pub_items
  groups ← draw_groups
  boxes ← draw_boxes
  draw_arrows public_boxes groups boxes
  draw_legend x0 (vnet_y +ℤ vnet_h +ℤ px 60) (px 1240)
      (legend_private ∷ legend_public ∷ legend_preview ∷ legend_chokepoint ∷ legend_absent ∷ [])
  _ ←
      draw_box
        (item "What Beat 2 demonstrates with this picture"
          "task cloud:prove-private attempts the same data-plane operation from outside and from inside the VNet: the first fails, the second succeeds.\nThe CI policy job then shows that it cannot silently stop being private. The claim is continuous, not a point-in-time configuration.\nDeliberately excluded (say so out loud): no high availability, no disaster recovery, no multi-region, no real execution, no real data.")
        (x0 +ℤ px 1240 +ℤ px 60) (vnet_y +ℤ vnet_h +ℤ px 60) (w -ℤ px 1240 -ℤ px 60) none
  pure tt
