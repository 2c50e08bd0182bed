-- ===== src/Diagram/Pictures/Catalogue.antt =====
-- `DIAGRAMS` of scripts/diagrams/diagrams.mjs, and `render` of scripts/diagrams/generate-diagrams.mjs.
--
-- A document's JSON and its SVG hold colours and strokes, which the scenes here leave out. They are
-- parameters: what they make of a diagram and the scene that its builder has drawn.
use Prim.Native.String.{String}
use foundry_capital_markets.Prelude.{Option, none, some, List, [], ◌∷◌, Str, codes}
use foundry_capital_markets.Diagram.Scene.{Scene, empty_scene}
use foundry_capital_markets.Diagram.Pictures.{Draw}
use foundry_capital_markets.Diagram.Pictures.Platform.{platform_topology}
use foundry_capital_markets.Diagram.Pictures.RequestFlow.{request_decision_flow}
use foundry_capital_markets.Diagram.Pictures.AgentMap.{agent_architecture}
use foundry_capital_markets.Diagram.Pictures.ScreenMap.{ui_screen_map}
use foundry_capital_markets.Diagram.Pictures.SourceMap.{src_architecture}
use foundry_capital_markets.Diagram.Generator.{Rendered, svg_name}

pub record Diagram : Type 0 where
  pub file : Str
  pub build : Draw (Unit {0})

abbrev diagram : String → Draw (Unit {0}) → Diagram
diagram file build = record { file = codes file; build = build }

abbrev pub all_diagrams : List Diagram
all_diagrams =
    diagram "01-platform-topology.excalidraw" platform_topology
    ∷ diagram "02-request-decision-flow.excalidraw" request_decision_flow
    ∷ diagram "03-agent-architecture.excalidraw" agent_architecture
    ∷ diagram "04-ui-screen-map.excalidraw" ui_screen_map
    ∷ diagram "05-src-architecture.excalidraw" src_architecture
    ∷ []

module _ (to_json render_svg : Diagram → Scene → Str) where
  -- What `render` makes of one diagram; `none` where its builder throws.
  unfoldable pub render_one : Diagram → Option Rendered
  unfolding svg_name
  render_one d = elim (d.build empty_scene) [
    | none ↦ none
    | some (_, s) ↦ some (record {
      file = d.file;
      svg_file = svg_name d.file;
      json = to_json d s;
      svg = render_svg d s;
    })
  ]

  unfoldable pub render : List Diagram → Option (List Rendered)
  unfolding render_one
  render [] = some []
  render (d ∷ ds) = elim (render_one d) [
    | none ↦ none
    | some r ↦ elim (render ds) [ none ↦ none | some rs ↦ some (r ∷ rs) ]
  ]
