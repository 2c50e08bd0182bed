-- ===== src/Diagram/Pictures/AgentMap/Layout.antt =====
-- The coordinates of `agentArchitecture`, in scripts/diagrams/diagrams.mjs.
use foundry_capital_markets.Prelude.{◌*◌}
use foundry_capital_markets.Prelude.Int.{ℤ, ◌+ℤ◌, ◌-ℤ◌}
use foundry_capital_markets.Diagram.Geometry.{div_ℤ, px}
use foundry_capital_markets.Diagram.Pictures.{Ruler, columns, row_height}
use foundry_capital_markets.Diagram.Pictures.AgentMap.Items.{
  row_specs, chain_specs, det_specs, hitl_specs, fail_specs,
}

abbrev pub x0 : ℤ
x0 = px 80

abbrev pub w : ℤ
w = px 2760

abbrev pub top_y : ℤ
top_y = px 240

abbrev pub cols4 : Ruler
cols4 = columns x0 4 (div_ℤ (w -ℤ px (3 * 160)) 4) (px 160)

abbrev pub row_h : ℤ
row_h = row_height row_specs cols4.width

abbrev pub b2y : ℤ
b2y = top_y +ℤ row_h +ℤ px 70

abbrev pub chain_cols : Ruler
chain_cols = columns x0 3 (div_ℤ (w -ℤ px (2 * 60)) 3) (px 60)

abbrev pub chain_h : ℤ
chain_h = row_height chain_specs chain_cols.width

abbrev pub det_cols : Ruler
det_cols = columns (x0 +ℤ px 40) 3 (div_ℤ (w -ℤ px 80 -ℤ px (2 * 60)) 3) (px 60)

abbrev pub det_h : ℤ
det_h = row_height det_specs det_cols.width

abbrev pub hitl_cols : Ruler
hitl_cols = columns (x0 +ℤ px 40) 4 (div_ℤ (w -ℤ px 80 -ℤ px (3 * 50)) 4) (px 50)

abbrev pub hitl_h : ℤ
hitl_h = row_height hitl_specs hitl_cols.width

abbrev pub fail_cols : Ruler
fail_cols = columns (x0 +ℤ px 40) 4 (div_ℤ (w -ℤ px 80 -ℤ px (3 * 50)) 4) (px 50)

abbrev pub fail_h : ℤ
fail_h = row_height fail_specs fail_cols.width
