-- ===== src/Diagram/Pictures/ScreenMap.antt =====
-- `uiScreenMap`, of scripts/diagrams/diagrams.mjs: the screens by app role.
pub mod Items
pub mod Layout
use Prim.Native.String.{String}
use foundry_capital_markets.Prelude.{ℕ, not, none, some, List, [], ◌∷◌, map, all, codes}
use foundry_capital_markets.Prelude.Int.{ℤ, ◌+ℤ◌, ◌-ℤ◌, max_ℤ}
use foundry_capital_markets.Diagram.Metrics.{grains}
use foundry_capital_markets.Diagram.Geometry.{
  div_ℤ, px, left_side, right_side, bottom_side, horizontal_first,
}
use foundry_capital_markets.Diagram.Scene.{Prefix}
use foundry_capital_markets.Diagram.Shapes.{Placed, box}
use foundry_capital_markets.Diagram.Arrows.{legend}
use foundry_capital_markets.Diagram.Pictures.{
  ◌>>◌, Draw, pure, ◌>>=◌, Item, item, measure_item, group_spec, no_options, minus_px, draw_box,
  draw_group, draw_arrow, draw_header, draw_legend, at_x, place_items, nth, stacked, legend_human,
  place_stack,
}
use foundry_capital_markets.Diagram.Pictures.ScreenMap.Items.{
  invoke_screens, read_screens, approver_screens, beats, states,
}
use foundry_capital_markets.Diagram.Pictures.ScreenMap.Layout.{
  x0, w, top_y, role_cols, col_w, inner_w, beat_cols, beat_h, state_cols, state_h,
}

-- What `placeColumn` returns.
pub record Column : Type 0 where
  pub boxes : List Placed
  pub bottom : ℤ
  pub group : Placed

-- `groupH`.
unfoldable pub column_height : List Item → ℤ
unfolding stacked measure_item ◌+ℤ◌ ◌-ℤ◌
column_height screens =
    px 96 +ℤ stacked (px 40) (map (λ i. measure_item i inner_w) screens) -ℤ px 40 +ℤ px 30

unfoldable pub place_column : ℕ → String → String → List Item → Draw Column
unfolding ◌>>=◌ ◌+ℤ◌ at_x column_height place_stack draw_group
place_column index role_title role_sub screens = do
  x ← at_x role_cols index
  let group_h = column_height screens
  g ← draw_group (group_spec x top_y col_w group_h role_title role_sub)
  (boxes, y) ←
      place_stack (x +ℤ px 30) inner_w (px 40) (top_y +ℤ px 96) (λ i. some (measure_item i inner_w))
        screens
  pure (record { boxes = boxes; bottom = top_y +ℤ group_h; group = g })

-- The paths that the demo walks.
unfoldable pub drill_arrows : Column → Column → Column → ℤ → Draw (Unit {0})
drill_arrows invoke read_column approver bottom = do
  read_box_1 ← nth read_column.boxes 1
  read_box_2 ← nth read_column.boxes 2
  draw_arrow read_box_1 read_box_2 (record no_options {
    sides = some (left_side, left_side);
    elbow = horizontal_first;
    label = codes "drill a row\nmid-sentence";
    label_width = px 140;
    label_dx = minus_px 80;
  })
  read_box_3 ← nth read_column.boxes 3
  read_box_4 ← nth read_column.boxes 4
  draw_arrow read_box_3 read_box_4 (record no_options {
    sides = some (left_side, left_side);
    elbow = horizontal_first;
    label = codes "open the\ntop alert";
    label_width = px 140;
    label_dx = minus_px 80;
  })
  approver_box_0 ← nth approver.boxes 0
  draw_arrow read_box_4 approver_box_0 (record no_options {
    label = codes "propose\nescalation →\nit does NOT\nescalate";
    label_width = px 150;
  })
  approver_box_1 ← nth approver.boxes 1
  draw_arrow approver_box_0 approver_box_1 (record no_options {
    sides = some (right_side, right_side);
    elbow = horizontal_first;
    label = codes "open the\nevidence packet";
    label_width = px 140;
    label_dx = px 80;
  })
  approver_box_2 ← nth approver.boxes 2
  let beat5_detour = bottom -ℤ (approver_box_2.frame.top +ℤ approver_box_2.frame.height) +ℤ px 70
  draw_arrow approver_box_2 invoke.group (record no_options {
    sides = some (bottom_side, bottom_side);
    detour = beat5_detour;
    label =
        codes
          "BEAT 5: disable a vendor on 12 · Policy sets, then resubmit the IDENTICAL request on 1 · Request console.  No redeploy, no code change, no prompt change.";
    label_width = px 1100;
    label_at = some (record { x = x0 +ℤ div_ℤ w 2; y = bottom +ℤ px 100 });
  })
  read_box_5 ← nth read_column.boxes 5
  draw_arrow read_box_2 read_box_5 (record no_options {
    sides = some (right_side, right_side);
    elbow = horizontal_first;
    label = codes "correlationId";
    label_width = px 140;
    label_dx = px 80;
  })

-- The row of the beats.
unfoldable pub draw_beats : ℤ → Draw (Unit {0})
draw_beats beat_y = do
  _ ← draw_group (
      group_spec x0 beat_y w (px 82 +ℤ beat_h +ℤ px 30) "DEMO BEAT → SCREEN"
        "Beats 3, 4 and 5 are independent: if a lane service is unhealthy, skip its beat and never debug live.")
  _ ← place_items beat_cols (beat_y +ℤ px 82) beat_h 0 beats
  pure tt

-- The row of the required states.
unfoldable pub draw_states : ℤ → Draw (Unit {0})
draw_states state_y = do
  _ ← draw_group (
      group_spec x0 state_y w (px 82 +ℤ state_h +ℤ px 30)
        "EVERY data view implements all five states"
        "The empty state nobody built is the one that renders during the live run.")
  _ ← place_items state_cols (state_y +ℤ px 82) state_h 0 states
  pure tt

-- The legend, and the box beside it.
unfoldable pub screen_key : ℤ → Draw (Unit {0})
screen_key state_y = do
  let legend_y = state_y +ℤ px 82 +ℤ state_h +ℤ px 30 +ℤ px 60
  draw_legend x0 legend_y (px 1180) (
      codes "Carries a wow moment. These three screens are the demo."
      ∷ legend_human
      ∷ codes "Evidence and audit surface — drillable to the record behind it."
      ∷ codes "Supporting screen. Still drillable; nothing on screen is decorative."
      ∷ codes "Required by a beat but NOT in the task list. Build it or lose Beat 5."
      ∷ [])
  _ ←
      draw_box
        (item "Rules the whole UI obeys"
          "The audience reads this from ten feet away: every screen has one number that is deliberately the largest thing on it.\nNothing may look rehearsed — no pre-baked screenshots, no seeded animations. If a value is on screen it came from the API just now.\nEvery claim is drillable: a number a presenter cannot open is a number the audience assumes is decorative.\nPolling at 5s with refetchOnWindowFocus disabled, so a presenter alt-tabbing does not trigger a visible refetch mid-sentence.\nTypes are generated from contracts/*.md, never hand-written, because hand-written types drift and the drift surfaces during a demo.")
        (x0 +ℤ px 1180 +ℤ px 60) legend_y (w -ℤ px 1180 -ℤ px 60) none
  pure tt

unfoldable pub ui_screen_map : Draw (Unit {0})
ui_screen_map = do
  draw_header x0 (px 60) w "04 · Scoreboard UI — twelve screens, grouped by app role"
      "Conclusion: for the audience the UI is the system, and every beat of the demo has a screen that owns it — including the governance surface (/policy) that Beat 5 cannot happen without."
  invoke ←
      place_column 0 "Router.Invoke"
        "Service-to-service model access through the router. Application member type."
        invoke_screens
  read_column ←
      place_column 1 "Router.Read"
        "Read routing decisions and the scoreboard. User and Application." read_screens
  approver ←
      place_column 2 "Approver"
        "Decide on pending proposals. Cannot approve own proposals. User only." approver_screens
  let bottom = max_ℤ invoke.bottom (max_ℤ read_column.bottom approver.bottom)
  drill_arrows invoke read_column approver bottom
  let beat_y = bottom +ℤ px 170
  draw_beats beat_y
  let state_y = beat_y +ℤ px 82 +ℤ beat_h +ℤ px 30 +ℤ px 70
  draw_states state_y
  screen_key state_y
  pure tt
