-- ===== src/Webui/App/Roles.antt =====
-- The routes of the screens, by the role that each asks for.
use mathlib.Core.Path.{subst}
use foundry_capital_markets.Prelude.{
  ℕ, ◌≡◌, refl, sym, ap, ◌∙◌, ◌⊎◌, inl, inr, Bool, true, false, Option, none, List, [], ◌∷◌, map,
  if◌then◌else◌, All, In, In-append_left, In-append, All-In, In-map_intro, Str, codes, ◌===◌,
}
use foundry_capital_markets.Webui.Navigation.{
  AppRole, router_read, approver, ScreenDefinition, screens, holds, visible_screens,
}
use foundry_capital_markets.Webui.Navigation.Laws.{holds_iff, Shares, visible_screens_iff}
use foundry_capital_markets.Webui.App.{
  Shown, approvals_queue, approval_detail, order_routing, placeholder, navigate, Routed,
  implemented, element_of, home, routed, screen_route, detail_routes, routes,
}

In-map :
    {A B : Type 0} (f : A → B) (b : B) (xs : List A)
    → In b (map f xs)
    → (a : A) × In a xs × (b ≡ f a)
In-map f b [] i = elim i [ ]
In-map f b (x ∷ xs) (inl e) = (x, inl refl, e)
In-map f b (x ∷ xs) (inr i) = let (a, m, e) = In-map f b xs i in (a, inr m, e)

unfoldable pub is_queue : Shown → Bool
is_queue approvals_queue = true
is_queue _ = false

unfoldable pub is_order_routing : Shown → Bool
is_order_routing order_routing = true
is_order_routing _ = false

unfoldable pub is_detail : Shown → Bool
is_detail approval_detail = true
is_detail _ = false

impossible : {A : Type 0} → false ≡ true → A
impossible h = cc h

-- Each screen whose element passes the test asks for the role.
abbrev pub Ask : (Shown → Bool) → AppRole → Type 0
Ask test role = All (λ s. test (element_of s) ≡ true → s.required_roles ≡ role ∷ []) screens

pub queue-Ask : Ask is_queue approver
unfolding element_of implemented ◌===◌ is_queue
queue-Ask = (
  impossible,
  (
    impossible,
    (
      impossible,
      (
        impossible,
        (impossible, (impossible, (impossible, ((λ h. refl), (impossible, (impossible, tt)))))),
      ),
    ),
  ),
)

pub order_routing-Ask : Ask is_order_routing router_read
unfolding element_of implemented ◌===◌ is_order_routing
order_routing-Ask = (
  impossible,
  (
    impossible,
    (
      impossible,
      (
        impossible,
        (impossible, (impossible, ((λ h. refl), (impossible, (impossible, (impossible, tt)))))),
      ),
    ),
  ),
)

pub detail-Ask : Ask is_detail approver
unfolding element_of implemented ◌===◌ is_detail
detail-Ask = (
  impossible,
  (
    impossible,
    (
      impossible,
      (
        impossible,
        (impossible, (impossible, (impossible, (impossible, (impossible, (impossible, tt)))))),
      ),
    ),
  ),
)

only_shared :
    (role : AppRole) (roles wanted : List AppRole)
    → wanted ≡ role ∷ []
    → (wanted ≡ []) ⊎ Shares roles wanted
    → In role roles
only_shared role roles wanted e (inl h) = cc (e, h)
only_shared role roles wanted e (inr (r, m, h)) = at_role (subst (In r) e m)
  where
    at_role : In r (role ∷ []) → In role roles
    at_role (inl same) = subst (λ q. In q roles) same h
    at_role (inr i) = elim i [ ]

-- A route of a screen whose element passes the test is there for who holds the role.
screen_route-role :
    (test : Shown → Bool) (role : AppRole) (roles : List AppRole) (r : Routed)
    → Ask test role
    → test r.element ≡ true
    → In r (map screen_route (visible_screens roles))
    → In role roles
screen_route-role test role roles r asks h i =
    let (s, m, e) = In-map screen_route r (visible_screens roles) i in
    let (there, ok) = (visible_screens_iff roles s).0 m in
    let wanted =
      All-In (λ s. test (element_of s) ≡ true → s.required_roles ≡ role ∷ []) screens s asks there
        (ap (λ (q : Routed). test q.element) (sym e) ∙ h) in
    only_shared role roles s.required_roles wanted ok

pub detail_routes-role :
    (roles : List AppRole) (r : Routed)
    → In r (detail_routes roles)
    → In approver roles × (r.element ≡ approval_detail)
unfolding detail_routes
detail_routes-role roles r i = at_test (holds roles approver) refl i
  where
    at_test :
        (b : Bool)
        → holds roles approver ≡ b
        → In r (if b then routed (codes "/approvals/:id") approval_detail ∷ [] else [])
        → In approver roles × (r.element ≡ approval_detail)
    at_test false e j = elim j [ ]
    at_test true e (inl same) =
        ((holds_iff roles approver).0 e, ap (λ (q : Routed). q.element) same)
    at_test true e (inr j) = elim j [ ]

-- A test that no redirection and no placeholder passes, and the detail of an approval only if it asks
-- for approvers.
pub record Test (test : Shown → Bool) (role : AppRole) : Type 0 where
  pub asks : Ask test role
  pub no_home : (to : Str) → test (navigate to) ≡ false
  pub no_rest : (t : Str) (b : Option ℕ) → test (placeholder t b) ≡ false
  pub detail : test approval_detail ≡ true → approver ≡ role

pub routes-role :
    (test : Shown → Bool) (role : AppRole) (roles : List AppRole) (r : Routed)
    → Test test role
    → test r.element ≡ true
    → In r (routes roles)
    → In role roles
unfolding routes
routes-role test role roles r k h (inl e) =
    cc (ap (λ (q : Routed). test q.element) e, h, k.no_home (home roles))
routes-role test role roles r k h (inr i) =
    elim (In-append r (map screen_route (visible_screens roles)) _ i) [
      | inl j ↦ screen_route-role test role roles r k.asks h j
      | inr j ↦ elim (In-append r (detail_routes roles) _ j) [
        | inl d ↦
            let (held, same) = detail_routes-role roles r d in
            subst (λ q. In q roles) (k.detail (ap test (sym same) ∙ h)) held
        | inr l ↦ elim l [
          | inl e ↦
              cc (ap (λ (q : Routed). test q.element) e, h, k.no_rest (codes "Not found") none)
          | inr n ↦ elim n [ ]
        ]
      ]
    ]

-- A screen of the inventory whose role is held has its route.
pub screen_route_there :
    (s : ScreenDefinition) (role : AppRole) (roles : List AppRole)
    → In s screens
    → s.required_roles ≡ role ∷ []
    → In role roles
    → In (screen_route s) (routes roles)
unfolding routes
screen_route_there s role roles there asks held =
    let wanted : In role s.required_roles = subst (In role) (sym asks) (inl refl) in
    inr (
      In-append_left (screen_route s) (map screen_route (visible_screens roles)) _ (
        In-map_intro screen_route s (visible_screens roles)
          ((visible_screens_iff roles s).1 (there, inr (role, wanted, held)))))
