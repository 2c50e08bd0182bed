-- ===== src/Triage/Matching.antt =====
-- Who an issue goes to: the matchers of ralph-triage.js and `triageIssue`.
use foundry_capital_markets.Prelude.{
  ℕ, ◌+◌, ◌*◌, Bool, not, ◌&&◌, ◌||◌, Option, none, some, List, [], ◌∷◌, ◌++◌, map, ltb, leb,
  if◌then◌else◌, length, is_empty, any, keep, find, Str, codes, ◌===◌, includes, join, newline,
}
use foundry_capital_markets.Triage.Cells.{
  ◌>>=◌, normalize_text_for_path_match, normalize_module_path, normalize_name,
}
use foundry_capital_markets.Triage.Tables.{Rule, Module, Member}

pub data Source : Type 0 where
  module_ownership : Source
  routing_rule : Source
  role_keyword : Source
  lead_fallback : Source

pub data Confidence : Type 0 where
  high : Confidence
  medium : Confidence
  low : Confidence

-- The reasons, with what their texts quote.
pub data Reason : Type 0 where
  primary_owner : (module_path owner : Str) → Reason
  secondary_owner : (module_path owner : Str) → Reason
  keywords : List Str → Reason
  frontend_role : Reason
  backend_role : Reason
  testing_role : Reason
  no_match : Reason

abbrev quoted : Str → Str
quoted s = b'"' ∷ (s ++ b'"' ∷ [])

unfoldable pub reason_text : Reason → Str
reason_text (primary_owner path owner) =
    codes "Matched module path " ++ (quoted path ++ (codes " to primary owner " ++ quoted owner))
reason_text (secondary_owner path owner) =
    codes "Matched module path " ++ (quoted path ++ (codes " to secondary owner " ++ quoted owner))
reason_text (keywords ks) = codes "Matched routing keyword(s): " ++ join (codes ", ") ks
reason_text frontend_role = codes "Matched frontend/UI role keywords"
reason_text backend_role = codes "Matched backend/API role keywords"
reason_text testing_role = codes "Matched testing/QA role keywords"
reason_text no_match = codes "No module, routing, or role keyword match — routed to Lead/Architect"

pub record Decision : Type 0 where
  pub agent : Member
  pub reason : Reason
  pub source : Source
  pub confidence : Confidence

pub record RuleMatch : Type 0 where
  pub rule : Rule
  pub matched_keywords : List Str

pub record RoleMatch : Type 0 where
  pub agent : Member
  pub reason : Reason

-- `a.includes(b) || b.includes(a)`
unfoldable pub overlap : Str → Str → Bool
overlap a b = includes a b || includes b a

unfoldable pub sum : List ℕ → ℕ
sum [] = 0
sum (n ∷ ns) = n + sum ns

-- 100 for each keyword, and their characters.
unfoldable pub score : List Str → ℕ
score ks = length ks * 100 + sum (map length ks)

-- The first or the later of two searches.
infixl 4 ◌orelse◌
abbrev pub ◌orelse◌ {ℓ} : {A : Type ℓ} → Option A → Option A → Option A
none orelse b = b
some a orelse b = some a

module _ (lower : Str → Str) where
  -- By name, by role, by part of a name, by part of a role, in that order.
  unfoldable pub find_member : Str → List Member → Option Member
  find_member target roster =
      let t = normalize_name lower target in
      if is_empty t
      then none
      else find (λ m. normalize_name lower m.name === t) roster
        orelse find (λ m. normalize_name lower m.role === t) roster
        orelse find (λ m. overlap t (normalize_name lower m.name)) roster
        orelse find (λ m. overlap t (normalize_name lower m.role)) roster

  -- The module's path, where it is one that the text holds.
  unfoldable pub module_matches : Str → Module → Bool
  module_matches text m =
      let p = normalize_module_path lower m.module_path in not (is_empty p) && includes text p

  -- `normalizeModulePath(…).length`
  unfoldable pub module_length : Module → ℕ
  module_length m = length (normalize_module_path lower m.module_path)

  -- The loop of `findBestModuleMatch`; the best length so far is that of the best so far, or -1.
  unfoldable pub best_module_from : Str → Option Module → List Module → Option Module
  best_module_from text best [] = best
  best_module_from text best (m ∷ ms) =
      best_module_from text
        (if module_matches text m
          then elim best [
            | none ↦ some m
            | some b ↦ if ltb (module_length b) (module_length m) then some m else some b
          ]
          else best)
        ms

  unfoldable pub find_best_module_match : Str → List Module → Option Module
  find_best_module_match text modules = best_module_from text none modules

  -- The keywords that the text holds, in lower case.
  unfoldable pub matched : Str → Rule → List Str
  matched text r = keep (λ k. not (is_empty k) && includes text k) (map lower r.keywords)

  -- The loop of `findBestRuleMatch`; no rule so far has the score 0.
  unfoldable pub best_score : Option RuleMatch → ℕ
  best_score none = 0
  best_score (some b) = score b.matched_keywords

  unfoldable pub best_rule_from : Str → Option RuleMatch → List Rule → Option RuleMatch
  best_rule_from text best [] = best
  best_rule_from text best (r ∷ rs) =
      let ks = matched text r in
      best_rule_from text
        (if is_empty ks
          then best
          else if ltb (best_score best) (score ks)
          then some (record { rule = r; matched_keywords = ks })
          else best)
        rs

  unfoldable pub find_best_rule_match : Str → List Rule → Option RuleMatch
  find_best_rule_match text rules = best_rule_from text none rules

  -- The role keywords of one member, the frontend's first.
  unfoldable pub role_reason : Str → Member → Option Reason
  role_reason text m =
      let role = lower m.role in
      let holds = λ (ws : List Str). any (includes text) ws in
      let is = λ (ws : List Str). any (includes role) ws in
      if is (codes "frontend" ∷ codes "ui" ∷ [])
        && holds (codes "ui" ∷ codes "frontend" ∷ codes "css" ∷ [])
      then some frontend_role
      else if is (codes "backend" ∷ codes "api" ∷ codes "server" ∷ [])
          && holds (codes "api" ∷ codes "backend" ∷ codes "database" ∷ [])
      then some backend_role
      else if is (codes "test" ∷ codes "qa" ∷ [])
          && holds (codes "test" ∷ codes "bug" ∷ codes "fix" ∷ [])
      then some testing_role
      else none

  unfoldable pub find_role_keyword_match : Str → List Member → Option RoleMatch
  find_role_keyword_match text [] = none
  find_role_keyword_match text (m ∷ ms) = elim (role_reason text m) [
    | some r ↦ some (record { agent = m; reason = r })
    | none ↦ find_role_keyword_match text ms
  ]

  unfoldable pub is_lead : Member → Bool
  is_lead m = includes (lower m.role) (codes "lead") || includes (lower m.role) (codes "architect")

  unfoldable pub find_lead_fallback : List Member → Option Member
  find_lead_fallback roster = find is_lead roster

  -- A decision by a module's owners, the primary first.
  unfoldable pub decide_module : List Member → Module → Option Decision
  decide_module roster m = elim (find_member m.primary roster) [
    | some agent ↦ some (record {
      agent = agent;
      reason = primary_owner m.module_path m.primary;
      source = module_ownership;
      confidence = high;
    })
    | none ↦ elim m.secondary [
      | none ↦ none
      | some owner ↦ elim (find_member owner roster) [
        | none ↦ none
        | some agent ↦ some (record {
          agent = agent;
          reason = secondary_owner m.module_path owner;
          source = module_ownership;
          confidence = medium;
        })
      ]
    ]
  ]

  unfoldable pub decide_rule : List Member → RuleMatch → Option Decision
  decide_rule roster b = elim (find_member b.rule.agent_name roster) [
    | none ↦ none
    | some agent ↦ some (record {
      agent = agent;
      reason = keywords b.matched_keywords;
      source = routing_rule;
      confidence = if leb 2 (length b.matched_keywords) then high else medium;
    })
  ]

  abbrev pub decide_role : RoleMatch → Decision
  decide_role r = record {
    agent = r.agent;
    reason = r.reason;
    source = role_keyword;
    confidence = medium;
  }

  abbrev pub decide_lead : Member → Decision
  decide_lead m = record { agent = m; reason = no_match; source = lead_fallback; confidence = low }

  -- The text of an issue that is searched.
  unfoldable pub issue_text : Str → Str → Str
  issue_text title body = lower (title ++ newline ∷ body)

  -- A module's owner, a rule's agent, a role's keywords, and at last the lead. A match whose agent
  -- is not found falls through to the next.
  unfoldable pub triage_issue : Str → Str → List Rule → List Module → List Member → Option Decision
  triage_issue title body rules modules roster =
      let text = issue_text title body in
      (find_best_module_match (normalize_text_for_path_match text) modules >>= decide_module roster)
      orelse (find_best_rule_match text rules >>= decide_rule roster)
      orelse (find_role_keyword_match text roster >>= λ r. some (decide_role r))
      orelse (find_lead_fallback roster >>= λ m. some (decide_lead m))
