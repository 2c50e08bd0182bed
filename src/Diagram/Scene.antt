-- ===== src/Diagram/Scene.antt =====
-- The class Scene of scripts/diagrams/diagram-kit.mjs, and the parts of its elements that are laid
-- out or refer to another element.
--
-- Colours, strokes, arrowheads and the numbers of the generator are left out, and so are the fixed
-- fields. No caller gives `text` an id.
use foundry_capital_markets.Prelude.{
  ℕ, ◌+◌, Bool, true, false, ◌&&◌, Option, none, some, List, [], ◌∷◌, ◌++◌, map, ◌==◌,
  if◌then◌else◌, Str, split, newline,
}
use foundry_capital_markets.Prelude.Int.{ℤ, pos, pos_part}
use foundry_capital_markets.Diagram.Metrics.{grains, measure_line, wrap_text, text_block_size}
use foundry_capital_markets.Diagram.Geometry.{round, Point, Frame}

pub data Prefix : Type 0 where
  txt : Prefix
  box_id : Prefix
  grp : Prefix
  arr : Prefix
  swa : Prefix

-- `${prefix}-${number}`: the number tells the ids of a scene apart.
pub record ElementId : Type 0 where
  pub prefix : Prefix
  pub number : ℕ

unfoldable pub same_prefix : Prefix → Prefix → Bool
same_prefix txt txt = true
same_prefix box_id box_id = true
same_prefix grp grp = true
same_prefix arr arr = true
same_prefix swa swa = true
same_prefix _ _ = false

unfoldable pub same_id : ElementId → ElementId → Bool
unfolding same_prefix
same_id i j = same_prefix i.prefix j.prefix && i.number == j.number

-- An entry of `boundElements`.
pub data BoundElement : Type 0 where
  bound_text : ElementId → BoundElement
  bound_arrow : ElementId → BoundElement

abbrev pub target : BoundElement → ElementId
target (bound_text i) = i
target (bound_arrow i) = i

pub record TextFields : Type 0 where
  pub lines : List Str
  pub original_text : Str
  pub font_size : ℕ
  pub font_family : ℕ
  pub container_id : Option ElementId

pub record ArrowFields : Type 0 where
  pub points : List Point
  pub start_binding : ElementId
  pub end_binding : ElementId

pub data Kind : Type 0 where
  rectangle : Kind
  text_element : TextFields → Kind
  arrow_element : ArrowFields → Kind

pub record Element : Type 0 where
  pub id : ElementId
  pub kind : Kind
  pub frame : Frame
  pub bound_elements : List BoundElement

-- `elements` in their order, and `idCounter`. `byId` is read off the elements.
pub record Scene : Type 0 where
  pub elements : List Element
  pub id_counter : ℕ

abbrev pub empty_scene : Scene
empty_scene = record { elements = []; id_counter = 0 }

abbrev pub last_of : Option Element → Option Element → Option Element
last_of o (some f) = some f
last_of o none = o

abbrev pub named : ElementId → Element → Option Element
named i e = if same_id e.id i then some e else none

-- `byId.get`: the last element that was set under an id.
unfoldable pub by_id : List Element → ElementId → Option Element
unfolding same_id
by_id [] i = none
by_id (e ∷ es) i = last_of (named i e) (by_id es i)

-- An element with an entry pushed, if it is the one of this id.
unfoldable pub touch : ElementId → BoundElement → Element → Element
unfolding same_id
touch i b e = if same_id e.id i then record e { bound_elements = e.bound_elements ++ b ∷ [] } else e

-- `byId.get(i).boundElements.push(b)`; `none` where there is no such element, which throws. An id is
-- made for one element, so the element that is touched is the one of the map.
unfoldable pub push_bound : ElementId → BoundElement → List Element → Option (List Element)
unfolding by_id touch
push_bound i b els = elim (by_id els i) [ none ↦ none | some e ↦ some (map (touch i b) els) ]

-- `id`.
unfoldable pub fresh : Prefix → Scene → ElementId
fresh prefix s = record { prefix = prefix; number = s.id_counter + 1 }

unfoldable pub rounded : Frame → Frame
unfolding round
rounded f = record {
  left = round f.left;
  top = round f.top;
  width = round f.width;
  height = round f.height;
}

-- `id` and `base`, with the fields that are assigned to the element next.
unfoldable pub base : Prefix → Kind → Frame → Scene → Scene
unfolding fresh rounded
base prefix kind frame s = record {
  elements =
      s.elements
      ++ record { id = fresh prefix s; kind = kind; frame = rounded frame; bound_elements = [] }
        ∷ [];
  id_counter = s.id_counter + 1;
}

-- Where a text is put, and how it is set.
pub record TextSpec : Type 0 where
  pub x : ℤ
  pub y : ℤ
  pub width : Option ℤ
  pub font_size : ℕ
  pub font_family : ℕ

abbrev first_line : Str → Str
first_line content = elim (split newline content) [ [] ↦ [] | l ∷ ls ↦ l ]

-- The lines of `text`: without a width, the first line and one pixel set it.
unfoldable pub text_lines : Str → TextSpec → List Str
unfolding wrap_text measure_line
text_lines content spec = elim spec.width [
  | some w ↦ wrap_text content spec.font_size (pos_part w) spec.font_family
  | none ↦
      wrap_text content spec.font_size
        (measure_line (first_line content) spec.font_size spec.font_family + grains)
        spec.font_family
]

-- The height of `text`, before it is rounded.
unfoldable pub text_height : Str → TextSpec → ℤ
unfolding text_lines text_block_size
text_height content spec =
    pos (text_block_size (text_lines content spec) spec.font_size spec.font_family).height

unfoldable pub text_frame : Str → TextSpec → Frame
unfolding text_lines text_block_size text_height
text_frame content spec = record {
  left = spec.x;
  top = spec.y;
  width = elim spec.width [
    | some w ↦ w
    | none ↦ pos (text_block_size (text_lines content spec) spec.font_size spec.font_family).width
  ];
  height = text_height content spec;
}

unfoldable pub text : Str → TextSpec → Scene → Scene
unfolding base text_lines text_frame
text content spec s =
    base txt
      (text_element (record {
        lines = text_lines content spec;
        original_text = content;
        font_size = spec.font_size;
        font_family = spec.font_family;
        container_id = none;
      }))
      (text_frame content spec) s
