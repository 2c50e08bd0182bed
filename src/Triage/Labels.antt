-- ===== src/Triage/Labels.antt =====
-- What `main` of ralph-triage.js writes: each result is for an untriaged issue, and its label settles
-- the issue.
use foundry_capital_markets.Prelude.{
  ◌≡◌, refl, ap, inl, inr, Bool, true, false, List, [], ◌∷◌, map, arith, Option-cases, any, keep,
  All, In, In-keep, All-of_In, Str, ===_refl,
}
use foundry_capital_markets.Triage.Tables.{
  Rule, Module, Member, parse_routing_rules, parse_module_ownership, parse_roster,
}
use foundry_capital_markets.Triage.Matching.{triage_issue}
use foundry_capital_markets.Triage.Issues.{
  text, Issue, Assignment, label_is, issue_has_label, is_untriaged_issue, assign_all, results,
}
use foundry_capital_markets.Triage.Members.{triage_issue-In}

-- The issue, once a workflow has put the label on it.
abbrev pub add_label : Str → Issue → Issue
add_label name issue = record issue { labels = text name ∷ issue.labels }

any_of_In :
    {A : Type 0} (p : A → Bool) (a : A) (xs : List A) → In a xs → p a ≡ true → any p xs ≡ true
unfolding any
any_of_In p a [] m h = elim m [ ]
any_of_In p a (x ∷ xs) m h = ground (arith, any_of_In p a xs)

In-map : {A B : Type 0} (f : A → B) (a : A) (xs : List A) → In a xs → In (f a) (map f xs)
In-map f a [] m = elim m [ ]
In-map f a (x ∷ xs) (inl e) = inl (ap f e)
In-map f a (x ∷ xs) (inr m) = inr (In-map f a xs m)

module _ (lower : Str → Str) where
  -- A result names an open issue that was untriaged and a label of the roster, and with that label
  -- the issue is triaged.
  pub record IsJustified (roster : List Member) (open_issues : List Issue) (a : Assignment)
      : Type 0 where
    pub issue : Issue
    pub is_open : In issue open_issues
    pub numbered : a.issue_number ≡ issue.number
    pub untriaged : is_untriaged_issue lower issue (map (λ m. m.label) roster) ≡ true
    pub agent : Member
    pub on_roster : In agent roster
    pub labelled : a.label ≡ agent.label
    pub settled :
        is_untriaged_issue lower (add_label a.label issue) (map (λ m. m.label) roster) ≡ false

  has_added_label :
      (name : Str) (issue : Issue) → issue_has_label lower (add_label name issue) name ≡ true
  unfolding issue_has_label any label_is
  has_added_label name issue = rw ===_refl

  settled_by :
      (issue : Issue) (name : Str) (labels : List Str)
      → In name labels
      → is_untriaged_issue lower (add_label name issue) labels ≡ false
  unfolding is_untriaged_issue
  settled_by issue name labels m = ground (
    arith,
    any_of_In (issue_has_label lower (add_label name issue)) name labels m
        (has_added_label name issue),
  )

  module _ (rules : List Rule) (modules : List Module) (roster : List Member)
      (all : List Issue) where
    assign_all-IsJustified :
        (is : List Issue)
        → All (λ i. In i all × (is_untriaged_issue lower i (map (λ m. m.label) roster) ≡ true)) is
        → All (IsJustified roster all) (assign_all lower rules modules roster is)
    unfolding assign_all
    assign_all-IsJustified [] h = tt
    assign_all-IsJustified (i ∷ is) ((here, untriaged), h) =
        elim (Option-cases (triage_issue lower i.title i.body rules modules roster)) [
          | inl missed ↦ rw (missed, assign_all) (assign_all-IsJustified is h)
          | inr (d, hit) ↦
              let on_roster = triage_issue-In lower roster i.title i.body rules modules hit in
              rw (hit, assign_all)
                (
                  record {
                    issue = i;
                    is_open = here;
                    numbered = refl;
                    untriaged = untriaged;
                    agent = d.agent;
                    on_roster = on_roster;
                    labelled = refl;
                    settled =
                        settled_by i d.agent.label _
                          (In-map (λ (m : Member). m.label) d.agent roster on_roster);
                  },
                  assign_all-IsJustified is h,
                )
        ]

  -- Every result of a run is for an open issue that carried no member's label, and assigns it a
  -- member of the roster; with that member's label on it, the next run leaves the issue alone.
  pub results-IsJustified :
      (team_md routing_md : Str) (open_issues : List Issue)
      → All
          (IsJustified (parse_roster lower team_md) open_issues)
          (results lower team_md routing_md open_issues)
  unfolding results
  results-IsJustified team_md routing_md open_issues =
      let roster = parse_roster lower team_md in
      let untriaged = λ (i : Issue). is_untriaged_issue lower i (map (λ m. m.label) roster) in
      assign_all-IsJustified (parse_routing_rules lower routing_md)
        (parse_module_ownership lower routing_md) roster open_issues (keep untriaged open_issues)
        (All-of_In _ (keep untriaged open_issues) (λ i m. In-keep untriaged i open_issues m))
