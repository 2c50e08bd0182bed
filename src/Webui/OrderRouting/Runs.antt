-- ===== src/Webui/OrderRouting/Runs.antt =====
-- Which execution stands beside which proposal, over every run of the screen.
use foundry_capital_markets.Prelude.{
  ◌≡◌, refl, ◌∙◌, ◌≢◌, ◌↔◌, ◌⊎◌, inl, inr, true, false, none, some, List, [], ◌∷◌, arith, In,
}
use foundry_capital_markets.Webui.OrderRouting.{
  Reply, arrived, threw, Proposed, proposal, Executed, filled, Screen, empty_screen, propose,
  proposed, run, ran, executable, order_of, Picked, here, there, Step, ask, told, start, finish,
  Reachable, initial, next,
}

module _ {O : Type 0} where
  -- No execution is waited for while a proposal is.
  abbrev pub Quiet : Screen O → Type 0
  Quiet s = (s.submitting ≡ false) ⊎ (s.running ≡ [])

  -- The screens that are reached with no proposal and execution under way at once.
  pub data CalmlyReachable : Screen O → Type 0 where
    calm_start : CalmlyReachable empty_screen
    calm_next : {s t : Screen O} → CalmlyReachable s → Step s t → Quiet t → CalmlyReachable t

  -- The form's state: disabled for one proposal under way, or enabled for none.
  abbrev FormAgrees : Screen O → Type 0
  FormAgrees s =
      ((s.submitting ≡ true) × (s.proposing ≡ 1)) ⊎ ((s.submitting ≡ false) × (s.proposing ≡ 0))

  FormAgrees-step : (s t : Screen O) → FormAgrees s → Step s t → FormAgrees t
  unfolding propose proposed run ran
  FormAgrees-step s _ h (ask e) = ground arith
  FormAgrees-step s _ h (told (arrived p) ne) = ground arith
  FormAgrees-step s _ h (told (threw m) ne) = ground arith
  FormAgrees-step s _ h (start o e) = h
  FormAgrees-step s _ h (finish rest o (arrived e) picked same) = h
  FormAgrees-step s _ h (finish rest o (threw m) picked same) = h

  FormAgrees-reached : (s : Screen O) → Reachable s → FormAgrees s
  FormAgrees-reached _ initial = inr (refl, refl)
  FormAgrees-reached _ (next {s} {t} r step) = FormAgrees-step s t (FormAgrees-reached s r) step

  -- The form is disabled exactly while one proposal waits for its answer: there are never two, and
  -- when none waits the form can be sent again, whatever the answers were.
  pub submitting_iff :
      (s : Screen O)
      → Reachable s
      → ((s.submitting ≡ true) ↔ (s.proposing ≡ 1)) × ((s.submitting ≡ false) ↔ (s.proposing ≡ 0))
  submitting_iff s r = ground (arith, FormAgrees-reached s r)

  -- What is on the screen, and what is waited for, is of the proposal that is shown.
  abbrev Belongs : Screen O → Type 0
  Belongs s =
      FormAgrees s
      × ((e : Executed O) → s.execution ≡ some e → executable s ≡ some (order_of e))
      × ((o : O) → In o s.running → executable s ≡ some o)
      × (s.submitting ≡ true → s.execution ≡ none)

  Picked-In : {o : O} {rest os : List O} → Picked o rest os → In o os
  Picked-In here = inl refl
  Picked-In (there p) = inr (Picked-In p)

  In-Picked : (q : O) {o : O} {rest os : List O} → Picked o rest os → In q rest → In q os
  In-Picked q here m = inr m
  In-Picked q (there p) (inl e) = inl e
  In-Picked q (there p) (inr m) = inr (In-Picked q p m)

  -- While a proposal is waited for, nothing is shown of an execution and none runs.
  bare :
      (s : Screen O)
      → Belongs s
      → Quiet s
      → s.proposing ≢ 0
      → (s.execution ≡ none) × (s.running ≡ [])
  bare s (form, shown, waits, clear) q ne = ground (arith, clear)

  no_running : (s : Screen O) (o : O) → s.running ≡ [] → ¬ In o s.running
  no_running s o e = rw e (λ m. m)

  idle_of_running : (s : Screen O) (o : O) → In o s.running → Quiet s → s.submitting ≡ false
  idle_of_running s o m (inl e) = e
  idle_of_running s o m (inr e) = absurd (no_running s o e m)

  Belongs-told :
      (s : Screen O) (r : Reply (Proposed O))
      → Belongs s
      → Quiet s
      → s.proposing ≢ 0
      → Belongs (proposed r s)
  unfolding proposed
  Belongs-told s (arrived p) b q ne =
      let (gone, still) = bare s b q ne in
      (
        FormAgrees-step s _ b.0 (told (arrived p) ne),
        (λ x k. cc (k, gone)),
        (λ o m. absurd (no_running s o still m)),
        λ k. cc,
      )
  Belongs-told s (threw message) b q ne =
      let (gone, still) = bare s b q ne in
      (
        FormAgrees-step s _ b.0 (told (threw message) ne),
        (λ x k. cc (k, gone)),
        (λ o m. absurd (no_running s o still m)),
        λ k. cc,
      )

  Belongs-finish :
      (s : Screen O) (rest : List O) (o : O) (r : Reply (Executed O))
      → Belongs s
      → Quiet s
      → Picked o rest s.running
      → ((e : Executed O) → r ≡ arrived e → order_of e ≡ o)
      → Belongs (ran rest r s)
  unfolding ran executable
  Belongs-finish s rest o (arrived e) (form, shown, waits, clear) q picked same =
      let m = Picked-In picked in
      (
        form,
        (λ x k. waits o m ∙ cc (k, same e refl)),
        (λ p m. waits p (In-Picked p picked m)),
        λ k. cc (k, idle_of_running s o m q),
      )
  Belongs-finish s rest o (threw message) (form, shown, waits, clear) q picked same =
      (form, (λ x k. cc), (λ p m. waits p (In-Picked p picked m)), λ k. refl)

  Belongs-step : (s t : Screen O) → Belongs s → Quiet s → Step s t → Belongs t
  unfolding propose run executable
  Belongs-step s _ (form, shown, waits, clear) q (ask e) =
      (FormAgrees-step s (propose s) form (ask e), (λ x k. cc), waits, λ k. refl)
  Belongs-step s _ b q (told r ne) = Belongs-told s r b q ne
  Belongs-step s _ (form, shown, waits, clear) q (start o e) = (form, shown, also, clear)
    where
      also : (p : O) → In p (o ∷ s.running) → executable s ≡ some p
      also p (inl k) = cc (k, e)
      also p (inr m) = waits p m
  Belongs-step s _ b q (finish rest o r picked same) = Belongs-finish s rest o r b q picked same

  Belongs-reached : (s : Screen O) → CalmlyReachable s → Belongs s × Quiet s
  Belongs-reached _ calm_start =
      ((inr (refl, refl), (λ x k. cc (k)), (λ o m. elim m [ ]), λ k. refl), inl refl)
  Belongs-reached _ (calm_next {s} {t} r step quiet) =
      let (b, q) = Belongs-reached s r in (Belongs-step s t b q step, quiet)

  -- As long as no proposal and execution are under way at once, a fill or a refusal on the screen is
  -- of the very order that the shown proposal routes, and so is each execution that is waited for.
  pub execution_belongs :
      (s : Screen O)
      → CalmlyReachable s
      → ((e : Executed O) → s.execution ≡ some e → executable s ≡ some (order_of e))
        × ((o : O) → In o s.running → executable s ≡ some o)
  execution_belongs s r =
      let ((form, shown, waits, clear), q) = Belongs-reached s r in (shown, waits)

  -- Without that, any fill can be shown beside any other proposal: the screen can be reached that shows
  -- the fill of order `o` beside the proposal of order `p`, and still offers to execute `p`.
  pub stale_fill :
      (o p : O)
      → (s : Screen O) × Reachable s
        × (s.execution ≡ some (filled o))
        × (s.result ≡ some (proposal p))
        × (executable s ≡ some p)
  unfolding propose proposed run ran executable
  stale_fill o p =
      let s1 = proposed (arrived (proposal o)) (propose empty_screen) in
      let s2 = propose (run o s1) in
      let s3 = ran [] (arrived (filled o)) s2 in
      (
        proposed (arrived (proposal p)) s3,
        next
            (next
              (next
                (next (next (next initial (ask refl)) (told (arrived (proposal o)) cc))
                  (start o refl))
                (ask refl))
              (finish [] o (arrived (filled o)) here (λ e k. cc (k))))
            (told (arrived (proposal p)) cc),
        refl,
        refl,
        refl,
      )
