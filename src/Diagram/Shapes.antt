-- ===== src/Diagram/Shapes.antt =====
-- The shapes of the class Scene of scripts/diagrams/diagram-kit.mjs: box, group, arrow, header and
-- legend.
use foundry_capital_markets.Prelude.{
  ℕ, ◌+◌, ◌*◌, Option, none, some, if◌then◌else◌, length, is_empty, Str,
}
use foundry_capital_markets.Prelude.Int.{ℤ, pos, pos_part, ◌+ℤ◌, ◌-ℤ◌, half, max_ℤ}
use foundry_capital_markets.Diagram.Metrics.{grains, helvetica, line_height, box_pad, wrap_text}
use foundry_capital_markets.Diagram.Geometry.{round, px, Frame}
use foundry_capital_markets.Diagram.Scene.{
  txt, box_id, grp, ElementId, BoundElement, bound_text, TextFields, rectangle, text_element, Scene,
  push_bound, fresh, base, TextSpec, text_height, text,
}

-- What `box` and `group` return.
pub record Placed : Type 0 where
  pub id : ElementId
  pub frame : Frame

-- A title or a body; an empty one is none.
pub record BoxSpec : Type 0 where
  pub x : ℤ
  pub y : ℤ
  pub width : ℤ
  pub height : Option ℤ
  pub title : Str
  pub body : Str
  pub title_size : ℕ
  pub body_size : ℕ
  pub title_family : ℕ
  pub body_family : ℕ

unfoldable pub inner : ℤ → ℤ
unfolding ◌-ℤ◌
inner width = width -ℤ pos (2 * box_pad)

unfoldable pub block_height : Str → ℕ → ℕ → ℤ → ℕ
unfolding wrap_text inner
block_height content size family width =
    length (wrap_text content size (pos_part (inner width)) family) * size * line_height

-- `Scene.measure`.
unfoldable pub measure : BoxSpec → ℤ
unfolding block_height max_ℤ
measure spec =
    let title =
      if is_empty spec.title
      then 0
      else block_height spec.title spec.title_size spec.title_family spec.width in
    let body =
      if is_empty spec.body
      then 0
      else 10 * grains + block_height spec.body spec.body_size spec.body_family spec.width in
    max_ℤ (pos (box_pad * 2 + title + body)) (px 64)

-- `rect.boundElements.push(b)`, for the element that `base` has made under this id.
unfoldable pub push_own : ElementId → BoundElement → Scene → Scene
unfolding push_bound
push_own i b s = elim (push_bound i b s.elements) [
  | some es ↦ record s { elements = es }
  | none ↦ s
]

unfoldable pub box_height : BoxSpec → ℤ
unfolding measure
box_height spec = elim spec.height [ some h ↦ h | none ↦ measure spec ]

-- `titleY`: the middle, or the top where a body follows.
unfoldable pub title_y : BoxSpec → ℤ
unfolding box_height block_height half ◌+ℤ◌ ◌-ℤ◌
title_y spec =
    let th = pos (block_height spec.title spec.title_size spec.title_family spec.width) in
    if is_empty spec.body then spec.y +ℤ half (box_height spec -ℤ th) else spec.y +ℤ pos box_pad

unfoldable pub title_fields : BoxSpec → ElementId → TextFields
unfolding wrap_text inner
title_fields spec rect_id = record {
  lines = wrap_text spec.title spec.title_size (pos_part (inner spec.width)) spec.title_family;
  original_text = spec.title;
  font_size = spec.title_size;
  font_family = spec.title_family;
  container_id = some rect_id;
}

unfoldable pub box_frame : BoxSpec → Frame
unfolding box_height
box_frame spec = record {
  left = spec.x;
  top = spec.y;
  width = spec.width;
  height = box_height spec;
}

unfoldable pub title_frame : BoxSpec → Frame
unfolding title_y block_height inner ◌+ℤ◌
title_frame spec = record {
  left = spec.x +ℤ pos box_pad;
  top = title_y spec;
  width = inner spec.width;
  height = pos (block_height spec.title spec.title_size spec.title_family spec.width);
}

-- The rectangle and its bound title.
unfoldable pub titled : BoxSpec → Scene → Scene
unfolding fresh base push_own
titled spec s =
    let rect_id = fresh box_id s in
    let s1 = base box_id rectangle (box_frame spec) s in
    push_own rect_id (bound_text (fresh txt s1))
      (base txt (text_element (title_fields spec rect_id)) (title_frame spec) s1)

unfoldable pub body_spec : BoxSpec → TextSpec
unfolding title_y block_height inner ◌+ℤ◌
body_spec spec = record {
  x = spec.x +ℤ pos box_pad;
  y =
      title_y spec
      +ℤ pos (block_height spec.title spec.title_size spec.title_family spec.width)
      +ℤ px 10;
  width = some (inner spec.width);
  font_size = spec.body_size;
  font_family = spec.body_family;
}

unfoldable pub box : BoxSpec → Scene → Scene × Placed
unfolding titled text fresh
box spec s =
    let s1 = titled spec s in
    (
      (if is_empty spec.body then s1 else text spec.body (body_spec spec) s1),
      record { id = fresh box_id s; frame = box_frame spec },
    )

pub record GroupSpec : Type 0 where
  pub frame : Frame
  pub label : Str
  pub label_size : ℕ
  pub sublabel : Str
  pub sublabel_size : ℕ

unfoldable pub label_spec : GroupSpec → TextSpec
unfolding inner ◌+ℤ◌
label_spec spec = record {
  x = spec.frame.left +ℤ pos box_pad;
  y = spec.frame.top +ℤ px 12;
  width = some (inner spec.frame.width);
  font_size = spec.label_size;
  font_family = helvetica;
}

-- The label's height is that of its element, which is rounded.
unfoldable pub sublabel_spec : GroupSpec → TextSpec
unfolding inner label_spec text_height round ◌+ℤ◌
sublabel_spec spec = record {
  x = spec.frame.left +ℤ pos box_pad;
  y = spec.frame.top +ℤ px 12 +ℤ round (text_height spec.label (label_spec spec)) +ℤ px 4;
  width = some (inner spec.frame.width);
  font_size = spec.sublabel_size;
  font_family = helvetica;
}

unfoldable pub group : GroupSpec → Scene → Scene × Placed
unfolding fresh base text
group spec s =
    let s1 = base grp rectangle spec.frame s in
    let s2 = text spec.label (label_spec spec) s1 in
    (
      (if is_empty spec.label
          then s1
          else if is_empty spec.sublabel
          then s2
          else text spec.sublabel (sublabel_spec spec) s2),
      record { id = fresh grp s; frame = spec.frame },
    )
