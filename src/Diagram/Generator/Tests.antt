-- ===== src/Diagram/Generator/Tests.antt =====
-- Two files of one diagram.
use foundry_capital_markets.Prelude.{
  ◌≡◌, refl, inl, inr, true, false, [], ◌∷◌, ◌++◌, arith, Str, codes, ◌===◌, starts_with, ends_with,
}
use foundry_capital_markets.Diagram.Generator.{
  Args, out_requires_directory, parsed, bad_usage, is_directory, parse_args_from, parse_args,
  Rendered, svg_name, outputs,
}
use foundry_capital_markets.Diagram.Generator.Sync.{Differ, paths}

abbrev slash : Str → Str → Str
slash dir name = dir ++ b'/' ∷ name

abbrev same : Str → Str
same s = s

abbrev flow : Rendered
flow = record {
  file = codes "flow.excalidraw";
  svg_file = codes "flow.svg";
  json = codes "{}";
  svg = codes "<svg/>";
}

out_taken :
    parse_args (codes "--out" ∷ codes "d" ∷ codes "--check" ∷ [])
    ≡ parsed (record { out = codes "d"; check = true; help = false })
unfolding parse_args parse_args_from is_directory starts_with ◌===◌
out_taken = refl

out_missing : parse_args (codes "--check" ∷ codes "--out" ∷ []) ≡ bad_usage out_requires_directory
unfolding parse_args parse_args_from is_directory starts_with ◌===◌
out_missing = refl

flow_svg : svg_name (codes "flow.excalidraw") ≡ codes "flow.svg"
unfolding svg_name ends_with starts_with
flow_svg = refl

flow-Differ : Differ (paths slash (codes "d") (outputs (flow ∷ [])))
unfolding outputs
flow-Differ = ((λ i. elim i [ inl e ↦ ground (arith, e) | inr n ↦ n ]), ((λ n. n), tt))

abbrev writing : Args
writing = record { out = codes "d"; check = false; help = false }
