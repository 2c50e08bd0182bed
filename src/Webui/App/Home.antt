-- ===== src/Webui/App/Home.antt =====
-- Where the root leads.
use mathlib.Core.Path.{subst}
use foundry_capital_markets.Prelude.{
  ◌≡◌, refl, sym, ap, ◌∙◌, ◌≢◌, ◌↔◌, ◌⊎◌, inl, inr, false, List, [], ◌∷◌, map, get_or, any, keep,
  In, In-append_left, Str, codes, ◌===◌, ===_iff,
}
use foundry_capital_markets.Webui.Navigation.{
  AppRole, router_invoke, router_read, approver, ScreenDefinition, screens, holds, can_access,
  visible_screens,
}
use foundry_capital_markets.Webui.Navigation.Laws.{visible_screens_iff}
use foundry_capital_markets.Webui.App.{
  Routed, navigate, routed, home_of, home, screen_route, detail_routes, routes,
}
use foundry_capital_markets.Webui.App.Reaching.{nowhere}

-- The first screen of a list that holds one is routed.
first_there :
    (s : ScreenDefinition) (ss : List ScreenDefinition)
    → In s ss
    → (e : Routed) × In e (map screen_route ss) × (e.path ≡ home_of ss)
unfolding home_of
first_there s [] i = elim i [ ]
first_there s (t ∷ ts) i = (screen_route t, inl refl, refl)

-- Each role opens a screen.
opened :
    (role : AppRole) (roles : List AppRole)
    → In role roles
    → (s : ScreenDefinition) × In s (visible_screens roles)
opened router_invoke roles held = (
  _,
  (visible_screens_iff roles (get_or screens 0 nowhere)).1
      (inl refl, inr (router_invoke, inl refl, held)),
)
opened router_read roles held = (
  _,
  (visible_screens_iff roles (get_or screens 1 nowhere)).1
      (inr (inl refl), inr (router_read, inl refl, held)),
)
opened approver roles held = (
  _,
  (visible_screens_iff roles (get_or screens 7 nowhere)).1
      (inr (inr (inr (inr (inr (inr (inr (inl refl))))))), inr (approver, inl refl, held)),
)

differ : (s t : Str) → (s === t) ≡ false → s ≢ t
differ s t h e = cc ((===_iff s t).1 e, h)

nowhere_routed : (e : Routed) → In e (routes []) → e.path ≢ home []
unfolding routes detail_routes home home_of visible_screens can_access holds keep any ◌===◌
nowhere_routed e (inl h) k =
    differ (codes "/") (codes "/scoreboard") refl (ap (λ (q : Routed). q.path) (sym h) ∙ k)
nowhere_routed e (inr (inl h)) k =
    differ (codes "*") (codes "/scoreboard") refl (ap (λ (q : Routed). q.path) (sym h) ∙ k)
nowhere_routed e (inr (inr i)) k = i

home_routed :
    (roles : List AppRole)
    → ((e : Routed) × In e (routes roles) × (e.path ≡ home roles)) ↔ (roles ≢ [])
unfolding routes home
home_routed roles = (
  (λ (e, i, same) none_held.
      nowhere_routed e (subst (λ rs. In e (routes rs)) none_held i) (same ∙ ap home none_held)),
  there roles,
)
  where
    there : (rs : List AppRole) → rs ≢ [] → (e : Routed) × In e (routes rs) × (e.path ≡ home rs)
    there [] h = absurd (h refl)
    there (r ∷ rs) h =
        let (s, m) = opened r (r ∷ rs) (inl refl) in
        let (e, i, same) = first_there s (visible_screens (r ∷ rs)) m in
        (e, inr (In-append_left e (map screen_route (visible_screens (r ∷ rs))) _ i), same)

fallback : (roles : List AppRole) → (home roles ≡ codes "/scoreboard") ⊎ (roles ≢ [])
unfolding home home_of visible_screens can_access holds keep any
fallback [] = inl refl
fallback (r ∷ rs) = inr (λ e. cc)

-- A route for the root is declared, which leads to a path that is the scoreboard's for a user without
-- a role. A route is declared for that path too exactly if the user holds a role.
pub home_iff :
    (roles : List AppRole)
    → (to : Str) × In (routed (codes "/") (navigate to)) (routes roles)
      × (((e : Routed) × In e (routes roles) × (e.path ≡ to)) ↔ (roles ≢ []))
      × ((to ≡ codes "/scoreboard") ⊎ (roles ≢ []))
unfolding routes
home_iff roles = (home roles, inl refl, home_routed roles, fallback roles)
