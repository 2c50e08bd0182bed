-- ===== src/Diagram/Pictures/ScreenMap/Layout.antt =====
-- The coordinates of `uiScreenMap`, in scripts/diagrams/diagrams.mjs.
use foundry_capital_markets.Prelude.{◌*◌}
use foundry_capital_markets.Prelude.Int.{ℤ, ◌+ℤ◌, ◌-ℤ◌}
use foundry_capital_markets.Diagram.Geometry.{div_ℤ, px}
use foundry_capital_markets.Diagram.Pictures.{Ruler, columns, row_height}
use foundry_capital_markets.Diagram.Pictures.ScreenMap.Items.{beats, states}

abbrev pub x0 : ℤ
x0 = px 80

abbrev pub w : ℤ
w = px 2520

abbrev pub top_y : ℤ
top_y = px 240

abbrev pub role_cols : Ruler
role_cols = columns x0 3 (div_ℤ (w -ℤ px (2 * 160)) 3) (px 160)

abbrev pub col_w : ℤ
col_w = role_cols.width

abbrev pub inner_w : ℤ
inner_w = col_w -ℤ px 60

abbrev pub beat_cols : Ruler
beat_cols = columns (x0 +ℤ px 40) 6 (div_ℤ (w -ℤ px 80 -ℤ px (5 * 40)) 6) (px 40)

abbrev pub beat_h : ℤ
beat_h = row_height beats beat_cols.width

abbrev pub state_cols : Ruler
state_cols = columns (x0 +ℤ px 40) 5 (div_ℤ (w -ℤ px 80 -ℤ px (4 * 40)) 5) (px 40)

abbrev pub state_h : ℤ
state_h = row_height states state_cols.width
