-- ===== src/Webui/Execution/Forwarding.antt =====
-- Every request carries an approval as it was returned, or none, and one call is made at a time.
use foundry_capital_markets.Prelude.{
  ◌≡◌, refl, sym, ◌≢◌, ◌↔◌, ◌⊎◌, inl, inr, Bool, true, false, Option, none, some, List, [], ◌∷◌,
  some-inj, ◌||◌, arith, is_empty, trim, Str, All, In,
}
use foundry_capital_markets.Webui.OrderRouting.{arrived, threw}
use foundry_capital_markets.Webui.Execution.{
  ApprovalRecord, Forwarded, Base, ExecuteRequest, or_else, forward, request_of, Call, looking,
  executing, Panel, look, looked, execute, executed, look_disabled, execute_disabled,
  attempt_disabled, PanelStep, edit, rebase, press_look, look_ends, press_execute, press_attempt,
  execute_ends, PanelReached, opened, then_step,
}

-- A nullable field as it is forwarded: its value, or else what stands for `null`.
abbrev pub IsOrElse : Str → Option Str → Str → Type 0
IsOrElse s field instead = (field ≡ some s) ⊎ ((field ≡ none) × (s ≡ instead))

-- The fields of an approval that is forwarded, by those of the record.
pub record Copies (f : Forwarded) (a : ApprovalRecord) : Type 0 where
  pub same_id : f.approval_id ≡ a.id
  pub same_approver : IsOrElse f.approved_by a.decided_by_object_id []
  pub same_time : IsOrElse f.approved_at a.decided_at a.created_at
  pub same_expiry : f.expires_at ≡ a.expires_at

or_else-IsOrElse : (field : Option Str) (d : Str) → IsOrElse (or_else field d) field d
or_else-IsOrElse none d = inr (refl, refl)
or_else-IsOrElse (some s) d = inl refl

forward-Copies : (a : ApprovalRecord) → Copies (forward a) a
unfolding forward
forward-Copies a = record {
  same_id = refl;
  same_approver = or_else-IsOrElse a.decided_by_object_id [];
  same_time = or_else-IsOrElse a.decided_at a.created_at;
  same_expiry = refl;
}

-- The approval of a request, if any, is one that was returned, field for field.
abbrev pub IsForwarded : List ApprovalRecord → ExecuteRequest → Type 0
IsForwarded returned r =
    (r.approval ≡ none)
    ⊎ ((f : Forwarded) × (a : ApprovalRecord) × (r.approval ≡ some f) × In a returned × Copies f a)

-- What the panel shows was returned.
abbrev pub IsShown : List ApprovalRecord → Option ApprovalRecord → Type 0
IsShown returned o = (a : ApprovalRecord) → o ≡ some a → In a returned

-- The flag is set just while a call is under way.
abbrev pub BusyAgrees : Bool → Option Call → Type 0
BusyAgrees busy under_way = (busy ≡ true) ↔ (under_way ≢ none)

-- When each of the three buttons can be pressed.
pub record Buttons (p : Panel) : Type 0 where
  pub can_look :
      (look_disabled p ≡ false) ↔ ((p.under_way ≡ none) × (is_empty (trim p.approval_id) ≡ false))
  pub can_execute :
      (execute_disabled p ≡ false)
      ↔ ((p.under_way ≡ none) × ((a : ApprovalRecord) × (p.lookup ≡ some a)))
  pub can_attempt : (attempt_disabled p ≡ false) ↔ (p.under_way ≡ none)

pub record Sound (p : Panel) : Type 0 where
  pub forwarded : All (IsForwarded p.returned) p.sent
  pub shown : IsShown p.returned p.lookup
  pub one_call : BusyAgrees p.busy p.under_way

IsForwarded-cons :
    (a : ApprovalRecord) (returned : List ApprovalRecord) (rs : List ExecuteRequest)
    → All (IsForwarded returned) rs
    → All (IsForwarded (a ∷ returned)) rs
IsForwarded-cons a returned [] h = tt
IsForwarded-cons a returned (r ∷ rs) (inl n, h) = (inl n, IsForwarded-cons a returned rs h)
IsForwarded-cons a returned (r ∷ rs) (inr (f, b, e, m, c), h) =
    (inr (f, b, e, inr m, c), IsForwarded-cons a returned rs h)

request_of-IsForwarded :
    (base : Base) (returned : List ApprovalRecord) (o : Option ApprovalRecord)
    → IsShown returned o
    → IsForwarded returned (request_of base o)
unfolding request_of
request_of-IsForwarded base returned none h = inl refl
request_of-IsForwarded base returned (some a) h =
    inr (forward a, a, refl, h a refl, forward-Copies a)

busy_call : (c : Call) → BusyAgrees true (some c)
busy_call c = ((λ e n. cc), (λ n. refl))

idle : BusyAgrees false none
idle = ((λ e n. cc), (λ n. absurd (n refl)))

nothing_shown : (returned : List ApprovalRecord) → IsShown returned none
nothing_shown returned a e = cc

Sound-step : (p q : Panel) → Sound p → PanelStep p q → Sound q
unfolding look looked execute executed
Sound-step p _ h (edit text) = record {
  forwarded = h.forwarded;
  shown = h.shown;
  one_call = h.one_call;
}
Sound-step p _ h (rebase base) = record {
  forwarded = h.forwarded;
  shown = h.shown;
  one_call = h.one_call;
}
Sound-step p _ h (press_look e) = record {
  forwarded = h.forwarded;
  shown = nothing_shown p.returned;
  one_call = busy_call looking;
}
Sound-step p _ h (look_ends (arrived a) e) = record {
  forwarded = IsForwarded-cons a p.returned p.sent h.forwarded;
  shown = λ b same. inl (sym (some-inj same));
  one_call = idle;
}
Sound-step p _ h (look_ends (threw message) e) = record {
  forwarded = h.forwarded;
  shown = h.shown;
  one_call = idle;
}
Sound-step p _ h (press_execute e) = record {
  forwarded = (request_of-IsForwarded p.base p.returned p.lookup h.shown, h.forwarded);
  shown = h.shown;
  one_call = busy_call executing;
}
Sound-step p _ h (press_attempt e) = record {
  forwarded =
      (request_of-IsForwarded p.base p.returned none (nothing_shown p.returned), h.forwarded);
  shown = h.shown;
  one_call = busy_call executing;
}
Sound-step p _ h (execute_ends e) = record {
  forwarded = h.forwarded;
  shown = h.shown;
  one_call = idle;
}

-- What the flag says of the calls, and the buttons of the flag.
idle_iff :
    (busy : Bool) (under_way : Option Call)
    → BusyAgrees busy under_way
    → (busy ≡ false) ↔ (under_way ≡ none)
idle_iff true none h = absurd (h.0 refl refl)
idle_iff true (some c) h = ((λ e. cc), (λ e. cc))
idle_iff false none h = ((λ e. refl), (λ e. refl))
idle_iff false (some c) h = absurd (true_ne (h.1 (λ e. cc)))
  where
    true_ne : ◌≢◌ {A = Bool} false true
    true_ne e = cc

or_false : (a b : Bool) → ((a || b) ≡ false) ↔ ((a ≡ false) × (b ≡ false))
or_false a b = ground arith

shown_iff :
    (o : Option ApprovalRecord)
    → ((elim o [ none ↦ true | some a ↦ false ]) ≡ false) ↔ ((a : ApprovalRecord) × (o ≡ some a))
shown_iff none = ((λ e. cc), (λ (a, e). cc))
shown_iff (some a) = ((λ e. (a, refl)), (λ z. refl))

both : {A B C D : Type 0} → (A ↔ B) → (C ↔ D) → (A × C) ↔ (B × D)
both f g = ((λ (a, c). (f.0 a, g.0 c)), (λ (b, d). (f.1 b, g.1 d)))

through : {A B C : Type 0} → (A ↔ B) → (B ↔ C) → A ↔ C
through f g = ((λ a. g.0 (f.0 a)), (λ c. f.1 (g.1 c)))

self : {A : Type 0} → A ↔ A
self = ((λ a. a), (λ a. a))

Sound-Buttons : (p : Panel) → Sound p → Buttons p
unfolding look_disabled execute_disabled attempt_disabled
Sound-Buttons p h =
    let idle = idle_iff p.busy p.under_way h.one_call in
    record {
      can_look = through (or_false p.busy (is_empty (trim p.approval_id))) (both idle self);
      can_execute = through (or_false p.busy _) (both idle (shown_iff p.lookup));
      can_attempt = idle;
    }

reached-Sound : (p : Panel) → PanelReached p → Sound p
reached-Sound _ (opened base) = record { forwarded = tt; shown = nothing_shown []; one_call = idle }
reached-Sound _ (then_step {p} {q} r step) = Sound-step p q (reached-Sound p r) step

-- However the panel is used and whatever the service answers: each request that it hands on carries
-- no approval, or the id and the expiry of one that the approvals service returned, with its approver
-- and its time of decision; of an approval that nobody has decided the approver is empty, and the
-- time that of its creation. What the panel shows was returned. While a call is under way no button
-- can be pressed; otherwise an attempt without approval can be made, an approval can be looked up if
-- an id is typed that is not blank, and the proposal executed with one if an approval is shown.
pub reached-Sound-Buttons : (p : Panel) → PanelReached p → Sound p × Buttons p
reached-Sound-Buttons p r = (reached-Sound p r, Sound-Buttons p (reached-Sound p r))
