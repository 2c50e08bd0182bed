-- ===== src/Diagram/Pictures/SourceMap.antt =====
-- `srcArchitecture`, of scripts/diagrams/diagrams.mjs: what is built of the repository.
pub mod Items
pub mod Layout
use foundry_capital_markets.Prelude.{◌/◌, not, none, some, List, [], ◌∷◌, map, tests, find, codes}
use foundry_capital_markets.Prelude.Int.{◌+ℤ◌, ◌-ℤ◌}
use foundry_capital_markets.Diagram.Metrics.{grains}
use foundry_capital_markets.Diagram.Geometry.{
  div_ℤ, px, top_side, bottom_side, centre, horizontal_first,
}
use foundry_capital_markets.Diagram.Scene.{Prefix}
use foundry_capital_markets.Diagram.Shapes.{Placed, box}
use foundry_capital_markets.Diagram.Arrows.{legend}
use foundry_capital_markets.Diagram.Pictures.{
  ◌>>=◌, ◌>>◌, Draw, pure, Item, item, group_spec, no_options, minus_px, draw_box, draw_group,
  draw_arrow, draw_header, draw_legend, place_items, nth, legend_human, legend_chokepoint,
}
use foundry_capital_markets.Diagram.Pictures.SourceMap.Items.{
  edge_items, svc_items, dom_items, gap_items, test_items,
}
use foundry_capital_markets.Diagram.Pictures.SourceMap.Layout.{
  x0, w, edge_y, edge_cols, edge_h, svc_y, svc_cols, svc_h, dom_y, dom_cols, dom_h, gap_y, gap_cols,
  gap_h, test_y, test_cols, test_h, legend_y,
}

-- What is not implemented.
unfoldable pub draw_gaps : Draw (Unit {0})
draw_gaps = do
  _ ← draw_group (
      group_spec x0 (gap_y -ℤ px 84) w (px 84 +ℤ gap_h +ℤ px 34)
        "NOT IMPLEMENTED — and drawn here so the gap is visible rather than assumed"
        "Awaiting the Azure subscription window. ADR-007: when a dependency is unreachable the system says which one and refuses — it never substitutes a recorded result.")
  _ ← place_items gap_cols gap_y gap_h 0 gap_items
  pure tt

-- The test projects.
unfoldable pub draw_tests : Draw (Unit {0})
draw_tests = do
  _ ← draw_group (
      group_spec x0 (test_y -ℤ px 84) w (px 84 +ℤ test_h +ℤ px 34) "tests/ — six projects"
        "The persistence suite runs against a real Cosmos engine in Docker and fails with instructions when it is absent, rather than skipping green.")
  _ ←
      place_items test_cols test_y test_h 0
        (map (λ (i : Item). record i { title_size = 18 }) test_items)
  pure tt

-- The arrows of a request.
unfoldable pub source_arrows : List Placed → List Placed → List Placed → Draw (Unit {0})
source_arrows edge svc dom = do
  edge_0 ← nth edge 0
  svc_0 ← nth svc 0
  draw_arrow edge_0 svc_0 (record no_options {
    sides = some (bottom_side, top_side);
    label = codes "POST /v1/route\nEntra token";
  })
  svc_1 ← nth svc 1
  draw_arrow edge_0 svc_1 (record no_options {
    sides = some (bottom_side, top_side);
    elbow = horizontal_first;
    label = codes "propose / approve\ntwo distinct identities";
    label_at = some (record {
      x = div_ℤ ((centre edge_0.frame).x +ℤ (centre svc_1.frame).x) 2;
      y = edge_y +ℤ edge_h +ℤ px 62;
    });
  })
  dom_0 ← nth dom 0
  draw_arrow svc_0 dom_0 (record no_options {
    sides = some (bottom_side, top_side);
    label = codes "the whole decision";
    label_dy = minus_px 34;
  })
  dom_1 ← nth dom 1
  draw_arrow svc_1 dom_1 (record no_options {
    sides = some (bottom_side, top_side);
    label = codes "the whole ruleset";
    label_dy = minus_px 34;
  })

-- The legend, and the box beside it.
unfoldable pub source_key : Draw (Unit {0})
source_key = do
  draw_legend x0 legend_y (px 1260) (
      legend_chokepoint
      ∷ legend_human
      ∷ codes "Synthetic data and the tests that prove the rest."
      ∷ codes "NOT implemented. README only, or an explicit NotInvoked."
      ∷ [])
  _ ←
      draw_box
        (item "How to read this repository in the right order"
          "Start at src/Fcmr.Router.Decisions. It has no dependencies, it holds every routing rule, and it is the only assembly the demo's central claim actually rests on — governance decides, the application does not.\nThen src/Fcmr.Approvals.Domain, which holds the human gate and, deliberately, no ability to act on it.\nThe services above them are thin on purpose: if you find a rule inside an endpoint, that is a defect, not a shortcut.\nEverything in the dashed red band is absent, not hidden. The demo can currently prove its governance and its privacy; it cannot yet prove an end-to-end model call, and it does not pretend to.")
        (x0 +ℤ px 1260 +ℤ px 60) legend_y (w -ℤ px 1260 -ℤ px 60) none
  pure tt

unfoldable pub src_architecture : Draw (Unit {0})
src_architecture = do
  draw_header x0 (px 60) w "05 · src/ code map — what is built, what is deliberately empty"
      "Conclusion: the governed decision path is real, dependency-free, exhaustively tested code; the model invocation and the three lane services are NOT implemented, and nothing in the repository fakes them."
  edge ← place_items edge_cols edge_y edge_h 0 edge_items
  svc ← place_items svc_cols svc_y svc_h 0 svc_items
  _ ← draw_group (
      group_spec x0 (dom_y -ℤ px 84) w (px 84 +ℤ dom_h +ℤ px 34)
        "DOMAIN ASSEMBLIES — the rules live here, never in an endpoint"
        "Handlers translate HTTP and nothing else. A rule reachable only through a controller is a rule that can only be tested through a socket.")
  dom ← place_items dom_cols dom_y dom_h 0 dom_items
  draw_gaps
  draw_tests
  source_arrows edge svc dom
  source_key
  pure tt
