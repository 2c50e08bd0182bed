-- ===== src/Webui/App/Tests.antt =====
-- A user who may read and approve.
use foundry_capital_markets.Prelude.{
  ◌≡◌, refl, ◌≢◌, ◌↔◌, ◌⊎◌, Str, List, [], ◌∷◌, any, keep, In, codes,
}
use foundry_capital_markets.Webui.Navigation.{
  AppRole, router_read, approver, role_eq, holds, can_access, visible_screens,
}
use foundry_capital_markets.Webui.App.{Routed, navigate, routed, home_of, home, routes}
use foundry_capital_markets.Webui.App.Roles.{is_queue, is_order_routing, is_detail}
use foundry_capital_markets.Webui.App.Reaching.{Reaches, routes_iff}
use foundry_capital_markets.Webui.App.Home.{home_iff}

abbrev reader : List AppRole
reader = router_read ∷ approver ∷ []

reader-home : home reader ≡ codes "/scoreboard"
unfolding home home_of visible_screens can_access holds role_eq any keep
reader-home = refl

routes_iff_example :
    (Reaches is_queue reader ↔ In approver reader)
    × (Reaches is_detail reader ↔ In approver reader)
    × (Reaches is_order_routing reader ↔ In router_read reader)
routes_iff_example = routes_iff reader

home_iff_example :
    (to : Str) × In (routed (codes "/") (navigate to)) (routes reader)
    × (((e : Routed) × In e (routes reader) × (e.path ≡ to)) ↔ (reader ≢ []))
    × ((to ≡ codes "/scoreboard") ⊎ (reader ≢ []))
home_iff_example = home_iff reader
