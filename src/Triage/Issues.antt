-- ===== src/Triage/Issues.antt =====
-- The issues of ralph-triage.js: their labels, the pages that they come in, and what `main` writes.
use foundry_capital_markets.Prelude.{
  ℕ, zero, suc, ◌+◌, Bool, false, not, ◌&&◌, Option, none, some, List, [], ◌∷◌, ◌++◌, map, ltb,
  if◌then◌else◌, length, any, all, keep, Str, codes, ◌===◌,
}
use foundry_capital_markets.Triage.Tables.{
  Rule, Module, Member, parse_routing_rules, parse_module_ownership, parse_roster,
}
use foundry_capital_markets.Triage.Matching.{Source, Reason, Decision, triage_issue}

-- A label as GitHub sends it: a text, an object with or without a name that is a text, or nothing.
pub data Label : Type 0 where
  text : Str → Label
  object : Option Str → Label
  missing : Label

-- `title`, `body` and `labels` where they are absent read as empty.
pub record Issue : Type 0 where
  pub number : ℕ
  pub title : Str
  pub body : Str
  pub labels : List Label
  pub pull_request : Bool

pub record Assignment : Type 0 where
  pub issue_number : ℕ
  pub assign_to : Str
  pub label : Str
  pub reason : Reason
  pub source : Source

-- An answer of the GitHub API: a list of issues, or another value.
pub data Answer : Type 0 where
  issues : List Issue → Answer
  other : Answer

-- `perPage`.
abbrev pub per_page : ℕ
per_page = 100

-- The loop of `fetchSquadIssues` over the pages, with the request as a function of the page;
-- `none` means that the fuel ran out. A failed request ends the script and is not modelled here.
unfoldable pub fetch_from : ℕ → (ℕ → Answer) → ℕ → List Issue → Option (List Issue)
fetch_from zero request page all = none
fetch_from (suc fuel) request page all = elim (request page) [
  | other ↦ some all
  | issues [] ↦ some all
  | issues (i ∷ is) ↦
      let more = fetch_from fuel request (page + 1) (all ++ (i ∷ is)) in
      if ltb (length (i ∷ is)) per_page then some (all ++ (i ∷ is)) else more
]

module _ (lower : Str → Str) where
  unfoldable pub label_is : Str → Label → Bool
  label_is target missing = false
  label_is target (text name) = lower name === target
  label_is target (object none) = false
  label_is target (object (some name)) = lower name === target

  unfoldable pub issue_has_label : Issue → Str → Bool
  issue_has_label issue name = any (label_is (lower name)) issue.labels

  unfoldable pub is_untriaged_issue : Issue → List Str → Bool
  is_untriaged_issue issue member_labels =
      not issue.pull_request
      && issue_has_label issue (codes "squad")
      && not (any (issue_has_label issue) member_labels)

  abbrev pub assignment_of : Issue → Decision → Assignment
  assignment_of issue d = record {
    issue_number = issue.number;
    assign_to = d.agent.name;
    label = d.agent.label;
    reason = d.reason;
    source = d.source;
  }

  -- The loop of `main` over the untriaged issues.
  unfoldable pub assign_all : List Rule → List Module → List Member → List Issue → List Assignment
  assign_all rules modules roster [] = []
  assign_all rules modules roster (issue ∷ more) =
      let rest = assign_all rules modules roster more in
      elim (triage_issue lower issue.title issue.body rules modules roster) [
        | none ↦ rest
        | some d ↦ assignment_of issue d ∷ rest
      ]

  -- `main` between its reads and its write: the results for the open issues.
  unfoldable pub results : Str → Str → List Issue → List Assignment
  results team_md routing_md open_issues =
      let roster = parse_roster lower team_md in
      let member_labels = map (λ m. m.label) roster in
      assign_all (parse_routing_rules lower routing_md) (parse_module_ownership lower routing_md)
        roster (keep (λ i. is_untriaged_issue i member_labels) open_issues)
