-- ===== src/Diagram/Pictures/Platform/Layout.antt =====
-- The coordinates of `platformTopology`, in scripts/diagrams/diagrams.mjs.
use foundry_capital_markets.Prelude.{ℕ, ◌*◌, List, [], ◌∷◌, take, drop}
use foundry_capital_markets.Prelude.Int.{ℤ, ◌+ℤ◌, ◌-ℤ◌, max_ℤ}
use foundry_capital_markets.Diagram.Geometry.{div_ℤ, px}
use foundry_capital_markets.Diagram.Pictures.{Item, measure_item, Ruler, columns, row_height}
use foundry_capital_markets.Diagram.Pictures.Platform.Items.{
  pub_items, webui_spec, router_spec, lane_specs, pe_items, data_items, fnd_proj_spec,
  fnd_deploy_specs, apim_spec, obs_items,
}

abbrev pub x0 : ℤ
x0 = px 80

abbrev pub w : ℤ
w = px 2560

abbrev pub inner_x : ℤ
inner_x = x0 +ℤ px 40

abbrev pub inner_w : ℤ
inner_w = w -ℤ px 80

abbrev pub pub_y : ℤ
pub_y = px 200

abbrev pub pub_cols : Ruler
pub_cols = columns inner_x 3 (div_ℤ (inner_w -ℤ px (2 * 40)) 3) (px 40)

abbrev pub pub_box_y : ℤ
pub_box_y = pub_y +ℤ px 76

abbrev pub pub_h : ℤ
pub_h = row_height pub_items pub_cols.width

abbrev pub pub_zone_bottom : ℤ
pub_zone_bottom = pub_y +ℤ px 76 +ℤ pub_h +ℤ px 34

abbrev pub vnet_y : ℤ
vnet_y = pub_zone_bottom +ℤ px 150

abbrev pub v_content_top : ℤ
v_content_top = vnet_y +ℤ px 104

abbrev pub ca_sub_x : ℤ
ca_sub_x = inner_x

abbrev pub ca_sub_w : ℤ
ca_sub_w = px 1180

abbrev pub cae_x : ℤ
cae_x = ca_sub_x +ℤ px 30

abbrev pub cae_w : ℤ
cae_w = ca_sub_w -ℤ px 60

abbrev pub app_x : ℤ
app_x = cae_x +ℤ px 25

abbrev pub app_w : ℤ
app_w = cae_w -ℤ px 50

abbrev pub lane_cols : Ruler
lane_cols = columns app_x 3 (div_ℤ (app_w -ℤ px (2 * 40)) 3) (px 40)

abbrev pub h_webui : ℤ
h_webui = measure_item webui_spec app_w

abbrev pub h_router : ℤ
h_router = measure_item router_spec app_w

abbrev pub h_lane : ℤ
h_lane = row_height lane_specs lane_cols.width

abbrev pub cae_h : ℤ
cae_h = px 76 +ℤ h_webui +ℤ px 40 +ℤ h_router +ℤ px 40 +ℤ h_lane +ℤ px 30

abbrev pub ca_sub_h : ℤ
ca_sub_h = px 82 +ℤ cae_h +ℤ px 30

abbrev pub pe_sub_x : ℤ
pe_sub_x = ca_sub_x +ℤ ca_sub_w +ℤ px 240

abbrev pub pe_sub_w : ℤ
pe_sub_w = inner_x +ℤ inner_w -ℤ pe_sub_x

abbrev pub pe_cols : Ruler
pe_cols = columns (pe_sub_x +ℤ px 30) 2 (div_ℤ (pe_sub_w -ℤ px 60 -ℤ px 40) 2) (px 40)

abbrev pub pe_slice : ℕ → List Item
pe_slice r = take 2 (drop (r * 2) pe_items)

-- `peRowH[r]`.
abbrev pub pe_row_h : ℕ → ℤ
pe_row_h r = row_height (pe_slice r) pe_cols.width

abbrev pub pe_row_heights : List ℤ
pe_row_heights = pe_row_h 0 ∷ pe_row_h 1 ∷ pe_row_h 2 ∷ []

abbrev pub pe_sub_h : ℤ
pe_sub_h = px 82 +ℤ (pe_row_h 0) +ℤ px 40 +ℤ (pe_row_h 1) +ℤ px 40 +ℤ (pe_row_h 2) +ℤ px 30

abbrev pub subnet_row_h : ℤ
subnet_row_h = max_ℤ ca_sub_h pe_sub_h

abbrev pub dp_y : ℤ
dp_y = v_content_top +ℤ subnet_row_h +ℤ px 70

abbrev pub dp_x : ℤ
dp_x = inner_x

abbrev pub dp_w : ℤ
dp_w = inner_w

abbrev pub dp_inner_x : ℤ
dp_inner_x = dp_x +ℤ px 30

abbrev pub dp_inner_w : ℤ
dp_inner_w = dp_w -ℤ px 60

abbrev pub data_cols : Ruler
data_cols = columns dp_inner_x 4 (div_ℤ (dp_inner_w -ℤ px (3 * 40)) 4) (px 40)

abbrev pub data_h : ℤ
data_h = row_height data_items data_cols.width

abbrev pub fnd_x : ℤ
fnd_x = dp_inner_x

abbrev pub fnd_w : ℤ
fnd_w = px 1200

abbrev pub apim_x : ℤ
apim_x = fnd_x +ℤ fnd_w +ℤ px 40

abbrev pub apim_w : ℤ
apim_w = dp_inner_x +ℤ dp_inner_w -ℤ apim_x

abbrev pub fnd_inner_x : ℤ
fnd_inner_x = fnd_x +ℤ px 30

abbrev pub fnd_inner_w : ℤ
fnd_inner_w = fnd_w -ℤ px 60

abbrev pub fnd_cols : Ruler
fnd_cols = columns fnd_inner_x 2 (div_ℤ (fnd_inner_w -ℤ px 40) 2) (px 40)

abbrev pub fnd_deploy_h : ℤ
fnd_deploy_h = row_height fnd_deploy_specs fnd_cols.width

abbrev pub fnd_proj_h : ℤ
fnd_proj_h = measure_item fnd_proj_spec fnd_inner_w

abbrev pub fnd_h : ℤ
fnd_h = px 82 +ℤ fnd_proj_h +ℤ px 40 +ℤ fnd_deploy_h +ℤ px 30

abbrev pub apim_h : ℤ
apim_h = max_ℤ (measure_item apim_spec apim_w) fnd_h

abbrev pub dp_h : ℤ
dp_h = px 82 +ℤ data_h +ℤ px 40 +ℤ max_ℤ fnd_h apim_h +ℤ px 30

abbrev pub obs_y : ℤ
obs_y = dp_y +ℤ dp_h +ℤ px 60

abbrev pub obs_cols : Ruler
obs_cols = columns dp_inner_x 2 (div_ℤ (dp_inner_w -ℤ px 40) 2) (px 40)

abbrev pub obs_h : ℤ
obs_h = row_height obs_items obs_cols.width

abbrev pub obs_group_h : ℤ
obs_group_h = px 82 +ℤ obs_h +ℤ px 30

abbrev pub vnet_h : ℤ
vnet_h = obs_y +ℤ obs_group_h +ℤ px 40 -ℤ vnet_y

abbrev pub gap_band_y : ℤ
gap_band_y = pub_zone_bottom +ℤ px 60
