-- ===== src/Diagram/Validate/Accepted.antt =====
-- What is true of the diagrams of a directory that the validator accepts.
use mathlib.Core.List.{flat_map}
use foundry_capital_markets.Prelude.{
  ℕ, ◌≤◌, ◌≡◌, refl, sym, ◌∙◌, Bool, true, false, not, Option, none, some, List, [], ◌∷◌, map,
  arith, leb, if◌then◌else◌, leb→le, length, is_empty, any, keep, In, append-eq-nil, map-eq-nil,
  In-any, keep-nil, flat_map-nil, Str,
}
use foundry_capital_markets.Diagram.Geometry.{Point, Frame}
use foundry_capital_markets.Diagram.Scene.{ElementId, TextFields, text_element, Element}
use foundry_capital_markets.Diagram.Checks.{unless, reference_errors}
use foundry_capital_markets.Diagram.Overlap.{
  overlaps, contains, rects, leaves, pair, overlap_errors, inside, overlap_errors-inside,
}
use foundry_capital_markets.Diagram.Fits.{
  wraps_again, too_small, shown_lines, width_errors, rewrapped, min_body_font, text_errors,
  check_fit,
}
use foundry_capital_markets.Diagram.Validate.{
  spill_errors, container_rects, straddles, straddling, has_negative_size, texts, Problem,
  negative_size, reference, overlap, spill, straddle, fit, no_title, diagram_errors, validate,
  fails, diagrams, exit_code,
}

pub record Accepted (els : List Element) : Type 0 where
  pub linked : reference_errors els ≡ []
  pub apart : (p : Point) → length (keep (inside p) (leaves (rects els))) ≤ 1
  pub enclosed :
      (leaf c : Frame)
      → In leaf (leaves (rects els))
      → In c (container_rects (rects els))
      → overlaps leaf c ≡ true
      → contains c leaf ≡ true
  pub legible :
      (e : Element) (t : TextFields)
      → In e els
      → e.kind ≡ text_element t
      → min_body_font ≤ t.font_size
  pub titled : (t : TextFields) × (In t (texts els) × (28 ≤ t.font_size))

-- The parts of `validate`, each without a problem.
pub record Clean (els : List Element) : Type 0 where
  pub references : reference_errors els ≡ []
  pub overlapping_none : overlap_errors els ≡ []
  pub straddling_none : straddling (rects els) ≡ []
  pub fits : flat_map (check_fit els) els ≡ []
  pub requirements : diagram_errors (texts els) ≡ []

validate-Clean : (els : List Element) → validate els ≡ [] → Clean els
unfolding validate
validate-Clean els h =
    let (_, h1) = append-eq-nil (map (λ e. negative_size e.id) (keep has_negative_size els)) _ h in
    let (a, h2) = append-eq-nil (map reference (reference_errors els)) _ h1 in
    let (b, h3) = append-eq-nil (map overlap (overlap_errors els)) _ h2 in
    let (_, h4) =
      append-eq-nil (map spill (flat_map (spill_errors (leaves (rects els))) els)) _ h3 in
    let (d, h5) = append-eq-nil (map straddle (straddling (rects els))) _ h4 in
    let (f, g) = append-eq-nil (map fit (flat_map (check_fit els) els)) _ h5 in
    record {
      references = map-eq-nil reference _ a;
      overlapping_none = map-eq-nil overlap _ b;
      straddling_none = map-eq-nil straddle _ d;
      fits = map-eq-nil fit _ f;
      requirements = g;
    }

unless-nil : {A : Type 0} (b : Bool) (a : A) → unless b a ≡ [] → b ≡ true
unless-nil true a h = refl
unless-nil false a h = cc

straddles-contains :
    (leaf c : Frame) → straddles leaf c ≡ false → overlaps leaf c ≡ true → contains c leaf ≡ true
unfolding straddles
straddles-contains leaf c h k = ground (arith, h, k)

text_errors-legible :
    (els : List Element) (i : ElementId) (f : Frame) (t : TextFields)
    → text_errors els i f t ≡ []
    → min_body_font ≤ t.font_size
unfolding text_errors
text_errors-legible els i f t h =
    let (_, rest) = append-eq-nil (width_errors els i f t) _ h in
    let (_, last) =
      append-eq-nil (unless (leb (length (rewrapped f t)) (length (shown_lines t))) (wraps_again i))
        _ rest in
    leb→le min_body_font t.font_size (unless-nil _ (too_small i) last)

check_fit-text_element :
    (els : List Element) (e : Element) (t : TextFields)
    → e.kind ≡ text_element t
    → check_fit els e ≡ text_errors els e.id e.frame t
unfolding check_fit
check_fit-text_element els e t h = rw (h, check_fit) refl

diagram_errors-title :
    (ts : List TextFields)
    → diagram_errors ts ≡ []
    → (t : TextFields) × (In t ts × (28 ≤ t.font_size))
unfolding diagram_errors
diagram_errors-title ts h =
    let (first, _) = append-eq-nil (unless (any (λ t. leb 28 t.font_size) ts) no_title) _ h in
    let (t, (m, big)) = In-any (λ t. leb 28 t.font_size) ts (unless-nil _ no_title first) in
    (t, (m, leb→le 28 t.font_size big))

Clean-Accepted : (els : List Element) → Clean els → Accepted els
unfolding straddling
Clean-Accepted els v = record {
  linked = v.references;
  apart = λ p. overlap_errors-inside els p v.overlapping_none;
  enclosed = λ leaf c l m o.
      straddles-contains leaf c
        (keep-nil (straddles leaf) (container_rects (rects els)) c
          (map-eq-nil (pair leaf) _ (
            flat_map-nil (λ x. map (pair x) (keep (straddles x) (container_rects (rects els))))
              (leaves (rects els)) leaf v.straddling_none l))
          m)
        o;
  legible = λ e t m k.
      text_errors-legible els e.id e.frame t
        (sym (check_fit-text_element els e t k) ∙ flat_map-nil (check_fit els) els e v.fits m);
  titled = diagram_errors-title (texts els) v.requirements;
}

fails_none :
    (o : Option (List Element))
    → fails o ≡ false
    → (els : List Element) × ((o ≡ some els) × (validate els ≡ []))
unfolding fails
fails_none none h = ground (arith, h)
fails_none (some els) h = (els, (refl, empty_list (validate els) h))
  where
    empty_list : (ps : List Problem) → not (is_empty ps) ≡ false → ps ≡ []
    empty_list [] e = refl
    empty_list (p ∷ ps) e = ground (arith, e)

exit_zero :
    (files : List (Str × Option (List Element)))
    → exit_code files ≡ 0
    → keep (λ f. fails f.1) (diagrams files) ≡ []
unfolding exit_code
exit_zero files h = at_lists (diagrams files) (keep (λ f. fails f.1) (diagrams files)) h
  where
    at_lists :
        {A : Type 0} (ds fs : List A)
        → ◌≡◌ {A = ℕ} (if is_empty ds then 1 else if is_empty fs then 0 else 1) 0
        → fs ≡ []
    at_lists [] fs e = ground (arith, e)
    at_lists (d ∷ ds) [] e = refl
    at_lists (d ∷ ds) (g ∷ fs) e = ground (arith, e)

-- If `main` ends with exit code 0, then every `.excalidraw` file of the directory holds a document in
-- which all references between elements are good, no point lies within two leaf rectangles, a leaf
-- that overlaps a container lies within it, every text has 16 pixels or more, and one has 28 or
-- more. Containers are the rectangles with the id of one that contains another, and leaves all
-- others. The elements of a document have the fields that the kit writes.
pub exit_code-Accepted :
    (files : List (Str × Option (List Element))) (f : Str × Option (List Element))
    → exit_code files ≡ 0
    → In f (diagrams files)
    → (els : List Element) × ((f.1 ≡ some els) × Accepted els)
exit_code-Accepted files f h m =
    let (els, (there, valid)) =
      fails_none f.1 (keep-nil (λ g. fails g.1) (diagrams files) f (exit_zero files h) m) in
    (els, (there, Clean-Accepted els (validate-Clean els valid)))
