-- ===== src/Webui/Navigation/Laws.antt =====
-- Which screens are shown, and when an action is disabled.
use foundry_capital_markets.Prelude.{
  ◌≡◌, refl, ◌↔◌, ◌⊎◌, inl, inr, true, ◌||◌, none, List, [], ◌∷◌, arith, Bool-cases, is_empty, any,
  In, In-keep, In-keep_intro, Str,
}
use foundry_capital_markets.Webui.Navigation.{
  AppRole, router_invoke, router_read, approver, role_eq, ScreenDefinition, screens, holds,
  can_access, visible_screens, require_role,
}

role_eq_iff : (r q : AppRole) → (role_eq r q ≡ true) ↔ (r ≡ q)
unfolding role_eq
role_eq_iff router_invoke router_invoke = ground arith
role_eq_iff router_invoke router_read = ground arith
role_eq_iff router_invoke approver = ground arith
role_eq_iff router_read router_invoke = ground arith
role_eq_iff router_read router_read = ground arith
role_eq_iff router_read approver = ground arith
role_eq_iff approver router_invoke = ground arith
role_eq_iff approver router_read = ground arith
role_eq_iff approver approver = ground arith

any_iff_In : (r : AppRole) (roles : List AppRole) → (any (role_eq r) roles ≡ true) ↔ In r roles
unfolding any
any_iff_In r [] = ground arith
any_iff_In r (q ∷ qs) = ground (arith, role_eq_iff r q, any_iff_In r qs)

pub holds_iff : (roles : List AppRole) (r : AppRole) → (holds roles r ≡ true) ↔ In r roles
unfolding holds
holds_iff roles r = any_iff_In r roles

-- Some role that the screen wants is among those held.
abbrev pub Shares : List AppRole → List AppRole → Type 0
Shares roles wanted = (r : AppRole) × In r wanted × In r roles

any-holds : (roles wanted : List AppRole) → (any (holds roles) wanted ≡ true) → Shares roles wanted
unfolding any
any-holds roles [] h = cc
any-holds roles (w ∷ ws) h = elim (Bool-cases (holds roles w)) [
  | inl held ↦ (w, inl refl, (holds_iff roles w).0 held)
  | inr no_role ↦ let (r, there, has) = any-holds roles ws (ground arith) in (r, inr there, has)
]

any-holds_intro :
    (roles wanted : List AppRole) (r : AppRole)
    → In r wanted
    → In r roles
    → any (holds roles) wanted ≡ true
unfolding any
any-holds_intro roles [] r m h = elim m [ ]
any-holds_intro roles (w ∷ ws) r m h = ground (arith, holds_iff roles r, any-holds_intro roles ws r)

-- A screen is in the navigation exactly when it is one of the inventory's and either asks for no
-- role or asks for one that is held.
pub visible_screens_iff :
    (roles : List AppRole) (s : ScreenDefinition)
    → In s (visible_screens roles)
      ↔ (In s screens × ((s.required_roles ≡ []) ⊎ Shares roles s.required_roles))
unfolding visible_screens
visible_screens_iff roles s = (
  (λ m.
      let (there, ok) = In-keep (λ s. can_access s roles) s screens m in
      (there, access s.required_roles (unfold can_access in ok))),
  (λ h.
      In-keep_intro (λ s. can_access s roles) s screens h.0
        (unfold can_access in grant s.required_roles h.1)),
)
  where
    access :
        (wanted : List AppRole)
        → (is_empty wanted || any (holds roles) wanted) ≡ true
        → (wanted ≡ []) ⊎ Shares roles wanted
    access [] h = inl refl
    access (w ∷ ws) h = inr (any-holds roles (w ∷ ws) h)

    grant :
        (wanted : List AppRole)
        → (wanted ≡ []) ⊎ Shares roles wanted
        → (is_empty wanted || any (holds roles) wanted) ≡ true
    grant [] h = refl
    grant (w ∷ ws) (inl e) = cc
    grant (w ∷ ws) (inr (r, m, h)) = any-holds_intro roles (w ∷ ws) r m h

-- An action is disabled exactly for who does not hold its role, and a reason is given exactly then.
pub require_role_iff :
    (roles : List AppRole) (required : AppRole) (action : Str)
    → (((require_role roles required action).disabled ≡ true) ↔ (¬ In required roles))
      × (((require_role roles required action).reason ≡ none) ↔ In required roles)
unfolding require_role
require_role_iff roles required action = ground (arith, holds_iff roles required)
