-- ===== src/Triage/Members.antt =====
-- Whom ralph-triage.js assigns: a member of the roster, and someone where there is a lead.
use mathlib.Core.Path.{subst}
use foundry_capital_markets.Prelude.{
  ◌≡◌, refl, ◌≢◌, inl, inr, Bool, true, Option, none, some, List, [], ◌∷◌, arith, Bool-cases,
  Option-cases, some-inj, is_empty, find, In, In-find, find-none, Str, ◌===◌, ===_iff,
}
use foundry_capital_markets.Triage.Cells.{◌>>=◌, normalize_text_for_path_match, normalize_name}
use foundry_capital_markets.Triage.Tables.{Rule, Module, Member}
use foundry_capital_markets.Triage.Matching.{
  Decision, RuleMatch, RoleMatch, ◌orelse◌, find_member, find_best_module_match,
  find_best_rule_match, role_reason, find_role_keyword_match, is_lead, find_lead_fallback,
  decide_module, decide_rule, decide_lead, issue_text, triage_issue,
}

some-ne : {A : Type 0} {a : A} → some a ≢ none
some-ne = cc

orelse_right-ne : {A : Type 0} (a b : Option A) → b ≢ none → (a orelse b) ≢ none
orelse_right-ne none b h = h
orelse_right-ne (some a) b h = cc

-- What holds of either side's value holds of the value.
orelse-elim :
    {A : Type 0} (P : A → Type 0) (a b : Option A) {x : A}
    → (a ≡ some x → P x)
    → (b ≡ some x → P x)
    → (a orelse b) ≡ some x
    → P x
orelse-elim P none b f g e = g e
orelse-elim P (some a) b f g e = f e

bind-elim :
    {A B : Type 0} (P : B → Type 0) (o : Option A) (f : A → Option B) {x : B}
    → ((a : A) → o ≡ some a → f a ≡ some x → P x)
    → (o >>= f) ≡ some x
    → P x
bind-elim P none f h e = cc
bind-elim P (some a) f h e = h a refl e

module _ (lower : Str → Str) (roster : List Member) where
  abbrev name_of : Member → Str
  name_of m = normalize_name lower m.name

  found-In : (p : Member → Bool) {m : Member} → find p roster ≡ some m → In m roster
  found-In p {m} e = (In-find p m roster e).0

  pub find_member-In :
      (target : Str) {m : Member} → find_member lower target roster ≡ some m → In m roster
  unfolding find_member
  find_member-In target {m} e = elim (Bool-cases (is_empty (normalize_name lower target))) [
    | inl empty ↦ cc (rw empty at e)
    | inr full ↦
        orelse-elim (λ x. In x roster) _ _
          (orelse-elim (λ x. In x roster) _ _
            (orelse-elim (λ x. In x roster) _ _ (found-In _) (found-In _)) (found-In _))
          (found-In _) (rw full at e)
  ]

  -- Where a member of the roster has the target for a name, up to the normal form, whoever is found
  -- has it too: such a member comes before all that are found by a role or by part of a name.
  pub find_member_exact :
      (target : Str) (m : Member) {found : Member}
      → In m roster
      → name_of m ≡ normalize_name lower target
      → find_member lower target roster ≡ some found
      → name_of found ≡ normalize_name lower target
  unfolding find_member
  find_member_exact target m {found} there same e =
      let t = normalize_name lower target in
      elim (Bool-cases (is_empty t)) [
        | inl empty ↦ cc (rw empty at e)
        | inr full ↦ elim (Option-cases (find (λ m. name_of m === t) roster)) [
          | inl missed ↦ cc (
            find-none (λ m. name_of m === t) m roster missed there,
            (===_iff (name_of m) t).1 same,
          )
          | inr (x, hit) ↦ cc (
            (===_iff (name_of x) t).0 (In-find (λ m. name_of m === t) x roster hit).1,
            some-inj (rw (full, hit) at e),
          )
        ]
      ]

  lead-In : (m : Member) → find_lead_fallback lower roster ≡ some m → In m roster
  unfolding find_lead_fallback
  lead-In m e = found-In (is_lead lower) e

  find_role-In :
      (text : Str) (ms : List Member) {r : RoleMatch}
      → find_role_keyword_match lower text ms ≡ some r
      → In r.agent ms
  unfolding find_role_keyword_match
  find_role-In text [] e = cc
  find_role-In text (m ∷ ms) {r} e = elim (Option-cases (role_reason lower text m)) [
    | inl other ↦ inr (find_role-In text ms (rw (other, find_role_keyword_match) at e))
    | inr (reason, hit) ↦ inl (ground arith)
  ]

  decide_module-In :
      (m : Module) {d : Decision} → decide_module lower roster m ≡ some d → In d.agent roster
  unfolding decide_module
  decide_module-In m {d} e = elim (Option-cases (find_member lower m.primary roster)) [
    | inr (agent, hit) ↦ ground (arith, find_member-In m.primary {m = d.agent})
    | inl missed ↦ elim (Option-cases m.secondary) [
      | inl single ↦ ground arith
      | inr (owner, named) ↦ ground (arith, find_member-In owner {m = d.agent})
    ]
  ]

  decide_rule-In :
      (b : RuleMatch) {d : Decision} → decide_rule lower roster b ≡ some d → In d.agent roster
  unfolding decide_rule
  decide_rule-In b {d} e = ground (arith, find_member-In b.rule.agent_name {m = d.agent})

  -- Whoever is assigned an issue is a member of the roster.
  pub triage_issue-In :
      (title body : Str) (rules : List Rule) (modules : List Module) {d : Decision}
      → triage_issue lower title body rules modules roster ≡ some d
      → In d.agent roster
  unfolding triage_issue
  triage_issue-In title body rules modules {d} e =
      let text = issue_text lower title body in
      let P = λ (d : Decision). In d.agent roster in
      orelse-elim P _ _
        (orelse-elim P _ _
          (orelse-elim P _ _
            (bind-elim P (find_best_module_match lower (normalize_text_for_path_match text) modules)
              (decide_module lower roster) (λ m f g. decide_module-In m g))
            (bind-elim P (find_best_rule_match lower text rules) (decide_rule lower roster)
              (λ b f g. decide_rule-In b g)))
          (bind-elim P (find_role_keyword_match lower text roster) _
            (λ r f g. subst P (some-inj g) (find_role-In text roster f))))
        (bind-elim P (find_lead_fallback lower roster) _
          (λ m f g. subst P (some-inj g) (lead-In m f)))
        e

  -- Where the roster has a lead or an architect, every issue is assigned.
  pub triage_issue-ne-none :
      (title body : Str) (rules : List Rule) (modules : List Module) (m : Member)
      → In m roster
      → is_lead lower m ≡ true
      → triage_issue lower title body rules modules roster ≢ none
  unfolding triage_issue find_lead_fallback
  triage_issue-ne-none title body rules modules m there lead =
      elim (Option-cases (find (is_lead lower) roster)) [
        | inl missed ↦ cc (find-none (is_lead lower) m roster missed there, lead)
        | inr (x, hit) ↦
            orelse_right-ne _ (find (is_lead lower) roster >>= λ m. some (decide_lead lower m))
              (rw hit some-ne)
      ]
