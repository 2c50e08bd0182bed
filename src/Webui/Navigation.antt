-- ===== src/Webui/Navigation.antt =====
-- src/webui/src/shell/navigation.ts: the screens, and the roles that open them.
pub mod Laws
use foundry_capital_markets.Prelude.{
  ℕ, Bool, true, false, not, ◌||◌, Option, none, some, List, [], ◌∷◌, ◌++◌, if◌then◌else◌, is_empty,
  any, keep, Str, codes, includes,
}

pub data AppRole : Type 0 where
  router_invoke : AppRole
  router_read : AppRole
  approver : AppRole

unfoldable pub role_eq : AppRole → AppRole → Bool
role_eq router_invoke router_invoke = true
role_eq router_read router_read = true
role_eq approver approver = true
role_eq _ _ = false

pub record ScreenDefinition : Type 0 where
  pub path : Str
  pub title : Str
  pub required_roles : List AppRole
  pub beat : Option ℕ

abbrev screen : Str → Str → AppRole → ℕ → ScreenDefinition
screen path title role beat = record {
  path = path;
  title = title;
  required_roles = role ∷ [];
  beat = some beat;
}

-- `SCREENS`.
abbrev pub screens : List ScreenDefinition
screens =
    screen (codes "/request") (codes "Request console") router_invoke 2
    ∷ screen (codes "/scoreboard") (codes "Scoreboard") router_read 3
    ∷ screen (codes "/comparison") (codes "Cost comparison") router_read 3
    ∷ screen (codes "/decisions") (codes "Decisions") router_read 3
    ∷ screen (codes "/research") (codes "Research") router_invoke 7
    ∷ screen (codes "/surveillance") (codes "Surveillance triage") router_read 4
    ∷ screen (codes "/order-routing") (codes "Order routing") router_read 6
    ∷ screen (codes "/approvals") (codes "Approvals") approver 6
    ∷ screen (codes "/policy") (codes "Policy sets") router_read 5
    ∷ screen (codes "/audit") (codes "Audit reconstruction") router_read 8
    ∷ []

-- `roles.includes(r)`.
unfoldable pub holds : List AppRole → AppRole → Bool
unfolding any role_eq
holds roles r = any (role_eq r) roles

unfoldable pub can_access : ScreenDefinition → List AppRole → Bool
unfolding any holds
can_access s roles = is_empty s.required_roles || any (holds roles) s.required_roles

unfoldable pub visible_screens : List AppRole → List ScreenDefinition
unfolding keep can_access
visible_screens roles = keep (λ s. can_access s roles) screens

-- `Router.Invoke` and the like, as the reason names them.
unfoldable pub role_name : AppRole → Str
role_name router_invoke = codes "Router.Invoke"
role_name router_read = codes "Router.Read"
role_name approver = codes "Approver"

pub record DisabledAction : Type 0 where
  pub disabled : Bool
  pub reason : Option Str

unfoldable pub require_role : List AppRole → AppRole → Str → DisabledAction
unfolding holds role_name
require_role roles required action =
    if holds roles required then record { disabled = false; reason = none } else record {
      disabled = true;
      reason = some (
          action
          ++ (codes " requires the "
              ++ (role_name required ++ codes " role. Your account does not hold it.")));
    }
