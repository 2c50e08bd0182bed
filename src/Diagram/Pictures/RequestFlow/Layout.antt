-- ===== src/Diagram/Pictures/RequestFlow/Layout.antt =====
-- The coordinates of `requestDecisionFlow`, in scripts/diagrams/diagrams.mjs.
use foundry_capital_markets.Prelude.{◌*◌, List, map}
use foundry_capital_markets.Prelude.Int.{ℤ, ◌+ℤ◌, ◌-ℤ◌}
use foundry_capital_markets.Diagram.Geometry.{div_ℤ, px}
use foundry_capital_markets.Diagram.Pictures.{measure_item, Ruler, columns, row_height, stacked}
use foundry_capital_markets.Diagram.Pictures.RequestFlow.Items.{outcomes, persist_items}

abbrev pub x0 : ℤ
x0 = px 80

abbrev pub w : ℤ
w = px 2960

-- A column, by its left edge and its width.
pub record Span : Type 0 where
  pub x : ℤ
  pub width : ℤ

abbrev pub col_l : Span
col_l = record { x = x0; width = px 760 }

abbrev pub col_c : Span
col_c = record { x = x0 +ℤ px 760 +ℤ px 200; width = px 1000 }

abbrev pub col_r : Span
col_r = record { x = x0 +ℤ px 760 +ℤ px 200 +ℤ px 1000 +ℤ px 200; width = px 800 }

abbrev pub top_y : ℤ
top_y = px 230

abbrev pub outcome_h : List ℤ
outcome_h = map (λ i. measure_item i (col_r.width -ℤ px 60)) outcomes

abbrev pub outcomes_top : ℤ
outcomes_top = top_y

abbrev pub outcomes_group_h : ℤ
outcomes_group_h = px 96 +ℤ (stacked (px 50) outcome_h) -ℤ px 50 +ℤ px 30

abbrev pub persist_cols : Ruler
persist_cols = columns (x0 +ℤ px 40) 3 (div_ℤ (w -ℤ px 80 -ℤ px (2 * 40)) 3) (px 40)

abbrev pub persist_h : ℤ
persist_h = row_height persist_items persist_cols.width
