-- ===== src/Diagram/Pictures/SourceMap/Layout.antt =====
-- The coordinates of `srcArchitecture`, in scripts/diagrams/diagrams.mjs.
use foundry_capital_markets.Prelude.{◌*◌}
use foundry_capital_markets.Prelude.Int.{ℤ, ◌+ℤ◌, ◌-ℤ◌}
use foundry_capital_markets.Diagram.Geometry.{div_ℤ, px}
use foundry_capital_markets.Diagram.Pictures.{Ruler, columns, row_height}
use foundry_capital_markets.Diagram.Pictures.SourceMap.Items.{
  edge_items, svc_items, dom_items, gap_items, test_items,
}

abbrev pub x0 : ℤ
x0 = px 80

abbrev pub w : ℤ
w = px 2720

abbrev pub inner_x : ℤ
inner_x = x0 +ℤ px 40

abbrev pub inner_w : ℤ
inner_w = w -ℤ px 80

abbrev pub edge_y : ℤ
edge_y = px 210

abbrev pub edge_cols : Ruler
edge_cols = columns inner_x 2 (div_ℤ (inner_w -ℤ px 40) 2) (px 40)

abbrev pub edge_h : ℤ
edge_h = row_height edge_items edge_cols.width

abbrev pub svc_y : ℤ
svc_y = edge_y +ℤ edge_h +ℤ px 120

abbrev pub svc_cols : Ruler
svc_cols = columns inner_x 2 (div_ℤ (inner_w -ℤ px 40) 2) (px 40)

abbrev pub svc_h : ℤ
svc_h = row_height svc_items svc_cols.width

abbrev pub dom_y : ℤ
dom_y = svc_y +ℤ svc_h +ℤ px 130

abbrev pub dom_cols : Ruler
dom_cols = columns (inner_x +ℤ px 20) 3 (div_ℤ (inner_w -ℤ px 40 -ℤ px (2 * 40)) 3) (px 40)

abbrev pub dom_h : ℤ
dom_h = row_height dom_items dom_cols.width

abbrev pub gap_y : ℤ
gap_y = dom_y +ℤ dom_h +ℤ px 150

abbrev pub gap_cols : Ruler
gap_cols = columns (inner_x +ℤ px 20) 4 (div_ℤ (inner_w -ℤ px 40 -ℤ px (3 * 40)) 4) (px 40)

abbrev pub gap_h : ℤ
gap_h = row_height gap_items gap_cols.width

abbrev pub test_y : ℤ
test_y = gap_y +ℤ gap_h +ℤ px 150

abbrev pub test_cols : Ruler
test_cols = columns (inner_x +ℤ px 20) 6 (div_ℤ (inner_w -ℤ px 40 -ℤ px (5 * 40)) 6) (px 40)

abbrev pub test_h : ℤ
test_h = row_height test_items test_cols.width

abbrev pub legend_y : ℤ
legend_y = test_y +ℤ test_h +ℤ px 110
