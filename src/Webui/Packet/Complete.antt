-- ===== src/Webui/Packet/Complete.antt =====
-- What an approver is shown of a packet.
use foundry_capital_markets.Prelude.{
  ◌≡◌, refl, ◌⊎◌, inl, inr, some, List, [], ◌∷◌, All, In, In-append_left, In-append_right,
  All-of_In, In-map_intro, Str,
}
use foundry_capital_markets.Webui.Packet.{
  EvidenceSource, EvidencePacket, Section, or_empty, action_section, decision_section,
  input_sections, source_item, source_section, claim_section, packet_view,
}

-- A text that stands in a section.
abbrev pub Says : Section → Str → Type 0
Says s t =
    (s.summary ≡ some t)
    ⊎ (((p : Str × Str) × In p s.pairs × (p.1 ≡ t))
        ⊎ ((item : List Str) × In item s.items × In t item))

abbrev pub Shows : List Section → Str → Type 0
Shows ss t = (s : Section) × In s ss × Says s t

module _ {N : Type 0} (shown fixed_two usd : N → Str) where
  inputs_shown :
      (is : List (Str × Str)) (f : Str × Str)
      → In f is
      → Shows (input_sections shown fixed_two usd is) f.1
  unfolding input_sections
  inputs_shown [] f i = elim i [ ]
  inputs_shown (j ∷ js) f i = (_, inl refl, inr (inl (f, i, refl)))

  -- What an approver is accountable for having read is on the screen: the summary of the action and
  -- each of its fields, the rationale of the decision, each input, the excerpt of each source, and
  -- each claim that could not be attributed.
  pub packet_view-Shows :
      (p : EvidencePacket N)
      → Shows (packet_view shown fixed_two usd p) p.proposed_action.summary
        × Shows (packet_view shown fixed_two usd p) p.routing_decision.rationale
        × All
            (λ (f : Str × Str). Shows (packet_view shown fixed_two usd p) f.1)
            (or_empty p.proposed_action.fields)
        × All (λ (f : Str × Str). Shows (packet_view shown fixed_two usd p) f.1) (or_empty p.inputs)
        × All
            (λ (s : EvidenceSource N). Shows (packet_view shown fixed_two usd p) s.excerpt)
            (or_empty p.retrieved_sources)
        × All (λ c. Shows (packet_view shown fixed_two usd p) c) (or_empty p.unattributable_claims)
  unfolding packet_view action_section decision_section source_section claim_section source_item
  packet_view-Shows p = (
    (_, inl refl, inl refl),
    (_, inr (inl refl), inl refl),
    All-of_In _ (or_empty p.proposed_action.fields)
        (λ f i. (_, inl refl, inr (inl (f, inr i, refl)))),
    All-of_In _ (or_empty p.inputs) (λ f i.
        let (s, m, says) = inputs_shown (or_empty p.inputs) f i in
        (
          s,
          inr (inr (In-append_left s (input_sections shown fixed_two usd (or_empty p.inputs)) _ m)),
          says,
        )),
    All-of_In _ (or_empty p.retrieved_sources) (λ s i. (
      _,
      inr (
          inr (
            In-append_right _ (input_sections shown fixed_two usd (or_empty p.inputs)) _
              (inl refl))),
      inr (
          inr (
            _,
            In-map_intro (source_item shown fixed_two usd) s (or_empty p.retrieved_sources) i,
            inr (inr (inl refl)),
          )),
    )),
    All-of_In _ (or_empty p.unattributable_claims) (λ c i. (
      _,
      inr (
          inr (
            In-append_right _ (input_sections shown fixed_two usd (or_empty p.inputs)) _
              (inr (inl refl)))),
      inr (
          inr (
            _,
            In-map_intro (λ (c : Str). c ∷ []) c (or_empty p.unattributable_claims) i,
            inl refl,
          )),
    )),
  )
