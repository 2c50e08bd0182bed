-- ===== src/Webui/App/Reaching.antt =====
-- Who is routed to the screens that are built.
use foundry_capital_markets.Prelude.{
  ◌≡◌, refl, ◌↔◌, inl, inr, Bool, true, none, List, [], map, get_or, In, In-append_left,
  In-append_right, codes, ◌===◌,
}
use foundry_capital_markets.Webui.Navigation.{
  AppRole, router_read, approver, ScreenDefinition, screens, visible_screens,
}
use foundry_capital_markets.Webui.Navigation.Laws.{holds_iff}
use foundry_capital_markets.Webui.App.{
  Shown, approval_detail, Routed, implemented, element_of, routed, screen_route, detail_routes,
  routes,
}
use foundry_capital_markets.Webui.App.Roles.{
  is_queue, is_order_routing, is_detail, queue-Ask, order_routing-Ask, detail-Ask, Test,
  routes-role, screen_route_there,
}

-- A route whose element passes the test.
abbrev pub Reaches : (Shown → Bool) → List AppRole → Type 0
Reaches test roles = (r : Routed) × In r (routes roles) × (test r.element ≡ true)

queue-Test : Test is_queue approver
unfolding is_queue
queue-Test = record {
  asks = queue-Ask;
  no_home = λ to. refl;
  no_rest = λ t b. refl;
  detail = λ h. refl;
}

order_routing-Test : Test is_order_routing router_read
unfolding is_order_routing
order_routing-Test = record {
  asks = order_routing-Ask;
  no_home = λ to. refl;
  no_rest = λ t b. refl;
  detail = λ h. cc h;
}

detail-Test : Test is_detail approver
unfolding is_detail
detail-Test = record {
  asks = detail-Ask;
  no_home = λ to. refl;
  no_rest = λ t b. refl;
  detail = λ h. refl;
}

detail_there : (roles : List AppRole) → In approver roles → Reaches is_detail roles
unfolding routes detail_routes is_detail
detail_there roles held = (
  routed (codes "/approvals/:id") approval_detail,
  inr (
      In-append_right _ (map screen_route (visible_screens roles)) _ (
        In-append_left _ (detail_routes roles) _
          (rw ((holds_iff roles approver).1 held, detail_routes) (inl refl)))),
  refl,
)

abbrev pub nowhere : ScreenDefinition
nowhere = record { path = []; title = []; required_roles = []; beat = none }

-- The queue and the detail of approvals are routed exactly for who holds the Approver role, and the
-- order routing screen exactly for who holds Router.Read, whatever the other roles are.
pub routes_iff :
    (roles : List AppRole)
    → (Reaches is_queue roles ↔ In approver roles)
      × (Reaches is_detail roles ↔ In approver roles)
      × (Reaches is_order_routing roles ↔ In router_read roles)
unfolding element_of implemented ◌===◌ is_queue is_order_routing
routes_iff roles = (
  (
    (λ (r, i, h). routes-role is_queue approver roles r queue-Test h i),
    (λ held. (_, screen_route_there _ approver roles queue_place refl held, refl)),
  ),
  ((λ (r, i, h). routes-role is_detail approver roles r detail-Test h i), detail_there roles),
  (
    (λ (r, i, h). routes-role is_order_routing router_read roles r order_routing-Test h i),
    (λ held. (_, screen_route_there _ router_read roles order_place refl held, refl)),
  ),
)
  where
    queue_place : In (get_or screens 7 nowhere) screens
    queue_place = inr (inr (inr (inr (inr (inr (inr (inl refl)))))))

    order_place : In (get_or screens 6 nowhere) screens
    order_place = inr (inr (inr (inr (inr (inr (inl refl))))))
