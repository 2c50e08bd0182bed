-- ===== src/Webui/App.antt =====
-- The application shell, src/webui/src/App.tsx: the routes that it declares for the roles that a user
-- holds. How react-router matches them is left out.
pub mod Roles
pub mod Reaching
pub mod Home
mod Tests
use foundry_capital_markets.Prelude.{
  ℕ, ◌*◌, ◌/◌, Option, none, some, List, [], ◌∷◌, ◌++◌, map, if◌then◌else◌, Str, codes, ◌===◌,
}
use foundry_capital_markets.Webui.Navigation.{
  AppRole, approver, ScreenDefinition, holds, visible_screens,
}

-- What a route shows.
pub data Shown : Type 0 where
  approvals_queue : Shown
  approval_detail : Shown
  order_routing : Shown
  placeholder : (title : Str) (beat : Option ℕ) → Shown
  navigate : (to : Str) → Shown

pub record Routed : Type 0 where
  pub path : Str
  pub element : Shown

-- `implemented[path]`.
unfoldable pub implemented : Str → Option Shown
unfolding ◌===◌
implemented path =
    if path === codes "/approvals"
    then some approvals_queue
    else if path === codes "/order-routing"
    then some order_routing
    else none

unfoldable pub element_of : ScreenDefinition → Shown
unfolding implemented
element_of s = elim (implemented s.path) [ some e ↦ e | none ↦ placeholder s.title s.beat ]

-- `screens[0]?.path ?? '/scoreboard'`.
unfoldable pub home_of : List ScreenDefinition → Str
home_of [] = codes "/scoreboard"
home_of (s ∷ ss) = s.path

unfoldable pub home : List AppRole → Str
unfolding home_of visible_screens
home roles = home_of (visible_screens roles)

abbrev pub routed : Str → Shown → Routed
routed path element = record { path = path; element = element }

abbrev pub screen_route : ScreenDefinition → Routed
screen_route s = routed s.path (element_of s)

unfoldable pub detail_routes : List AppRole → List Routed
unfolding holds
detail_routes roles =
    if holds roles approver then routed (codes "/approvals/:id") approval_detail ∷ [] else []

-- The routes, in their order.
unfoldable pub routes : List AppRole → List Routed
unfolding home visible_screens element_of detail_routes
routes roles =
    routed (codes "/") (navigate (home roles))
    ∷ (map screen_route (visible_screens roles)
        ++ (detail_routes roles ++ routed (codes "*") (placeholder (codes "Not found") none) ∷ []))

-- What PlaceholderScreen says.
unfoldable pub placeholder_text : (ℕ → Str) → Option ℕ → Str
placeholder_text shown none = codes "Not yet implemented."
placeholder_text shown (some beat) =
    codes "Not yet implemented. This screen serves demo beat " ++ (shown beat ++ codes ".")
