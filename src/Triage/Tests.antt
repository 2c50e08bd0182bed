-- ===== src/Triage/Tests.antt =====
-- ralph-triage.js on a small team.
use foundry_capital_markets.Prelude.{
  ◌+◌, ◌/◌, ◌≡◌, refl, false, none, some, [], ◌∷◌, map, length, any, keep, find, All, In, Str,
  codes, ◌===◌, includes,
}
use foundry_capital_markets.Triage.Cells.{
  fold_case, normalize_text_for_path_match, normalize_module_path, normalize_name,
}
use foundry_capital_markets.Triage.Tables.{
  Module, Member, parse_routing_rules, parse_module_ownership, parse_roster,
}
use foundry_capital_markets.Triage.Matching.{
  module_ownership, medium, secondary_owner, overlap, sum, score, find_member, module_matches,
  module_length, best_module_from, find_best_module_match, matched, best_score, best_rule_from,
  find_best_rule_match, role_reason, find_role_keyword_match, is_lead, find_lead_fallback,
  decide_module, decide_rule, issue_text, triage_issue,
}
use foundry_capital_markets.Triage.Issues.{
  text, Issue, per_page, fetch_from, label_is, issue_has_label, is_untriaged_issue, assign_all,
  results,
}
use foundry_capital_markets.Triage.Remote.{no_output, parse_args, parse_owner_repo_from_remote}
use foundry_capital_markets.Triage.Best.{IsBestModule, find_best_module_match-IsBestModule}
use foundry_capital_markets.Triage.Members.{triage_issue-In}
use foundry_capital_markets.Triage.Labels.{IsJustified, results-IsJustified}
use foundry_capital_markets.Triage.Pages.{server, fetch_from-eq}

-- Lower case on the ASCII letters.
abbrev ascii_lower : Str → Str
ascii_lower = map fold_case

abbrev team_md : Str
team_md =
    codes
      "# Team\r\n## Members\n| Name | Role |\n|---|:--|\n| `Rusty` | Lead |\n| [Saul](x) | UI |\n| Scribe | Log |\n## Other\n| a | b |\n"

abbrev routing_md : Str
routing_md =
    codes
      "## Work Type -> Agent\n| Work type | Route to | Examples |\n|--|--|--|\n| UI | Saul | screens, Forms |\n\n## Module Ownership\n| Module | Primary | Secondary |\n|--|--|--|\n| `src/webui` | Basher | Saul |\n| src | Rusty | - |\n"

runner : Unit {0}
unfolding parse_roster parse_routing_rules parse_module_ownership triage_issue find_member
    find_best_module_match best_module_from module_matches module_length find_best_rule_match
    best_rule_from best_score matched score sum find_role_keyword_match role_reason is_lead
    find_lead_fallback decide_module decide_rule issue_text normalize_name normalize_module_path
    normalize_text_for_path_match overlap includes find keep any fold_case results assign_all
    is_untriaged_issue issue_has_label label_is ◌===◌
runner = tt

abbrev rusty : Member
rusty = record { name = codes "Rusty"; role = codes "Lead"; label = codes "squad:rusty" }

abbrev saul : Member
saul = record { name = codes "Saul"; role = codes "UI"; label = codes "squad:saul" }

roster_read : parse_roster ascii_lower team_md ≡ rusty ∷ saul ∷ []
unfolding runner
roster_read = refl

abbrev webui_module : Module
webui_module = record {
  module_path = codes "src/webui";
  primary = codes "Basher";
  secondary = some (codes "Saul");
}

abbrev src_module : Module
src_module = record { module_path = codes "src"; primary = codes "Rusty"; secondary = none }

modules_read : parse_module_ownership ascii_lower routing_md ≡ webui_module ∷ src_module ∷ []
unfolding runner
modules_read = refl

rules_read :
    parse_routing_rules ascii_lower routing_md
    ≡ record {
      work_type = codes "UI";
      agent_name = codes "Saul";
      keywords = codes "screens" ∷ codes "Forms" ∷ [];
    }
      ∷ []
unfolding runner
rules_read = refl

-- The primary owner of the longest path is not on the roster: the secondary is.
by_module :
    triage_issue ascii_lower
      (codes "Crash")
      (codes "in src\\WebUI/a.ts")
      []
      (webui_module ∷ src_module ∷ [])
      (rusty ∷ saul ∷ [])
    ≡ some (record {
      agent = saul;
      reason = secondary_owner (codes "src/webui") (codes "Saul");
      source = module_ownership;
      confidence = medium;
    })
unfolding runner
by_module = refl

abbrev sample_issue : Issue
sample_issue = record {
  number = 7;
  title = codes "Forms are broken";
  body = [];
  labels = text (codes "Squad") ∷ [];
  pull_request = false;
}

find_best_module_match-IsBestModule_example :
    IsBestModule ascii_lower
      (codes "in src/webui")
      (src_module ∷ webui_module ∷ [])
      (find_best_module_match ascii_lower (codes "in src/webui") (src_module ∷ webui_module ∷ []))
find_best_module_match-IsBestModule_example =
    find_best_module_match-IsBestModule ascii_lower (codes "in src/webui")
      (src_module ∷ webui_module ∷ [])

triage_issue-In_example : In saul (rusty ∷ saul ∷ [])
triage_issue-In_example =
    triage_issue-In ascii_lower (rusty ∷ saul ∷ []) (codes "Crash") (codes "in src\\WebUI/a.ts") []
      (webui_module ∷ src_module ∷ []) by_module

results-IsJustified_example :
    All
      (IsJustified ascii_lower (parse_roster ascii_lower team_md) (sample_issue ∷ []))
      (results ascii_lower team_md routing_md (sample_issue ∷ []))
results-IsJustified_example = results-IsJustified ascii_lower team_md routing_md (sample_issue ∷ [])

-- The results of that run.
results_one :
    map (λ a. a.label) (results ascii_lower team_md routing_md (sample_issue ∷ []))
    ≡ codes "squad:saul" ∷ []
unfolding runner
results_one = refl

fetch_from-eq_example :
    fetch_from (length (sample_issue ∷ []) / per_page + 1) (server (sample_issue ∷ [])) 1 []
    ≡ some (sample_issue ∷ [])
fetch_from-eq_example = fetch_from-eq (sample_issue ∷ [])

remotes :
    (parse_owner_repo_from_remote (λ u. none) (codes "git@github.com:a/b.git")
      ≡ some (record { owner = codes "a"; repo = codes "b" }))
    × (parse_owner_repo_from_remote (λ u. some (codes "/a/b.git")) (codes "https://h/a/b.git")
        ≡ some (record { owner = codes "a"; repo = codes "b" }))
    × (parse_args (codes "--output" ∷ []) ≡ no_output)
unfolding parse_owner_repo_from_remote parse_args
remotes = (refl, refl, refl)
