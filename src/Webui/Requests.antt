-- ===== src/Webui/Requests.antt =====
-- The requests that src/webui/src/api/client.ts sends: method, path, headers and body of each call.
--
-- `encodeURIComponent` is a parameter, and so is the type of the bodies, which JSON.stringify writes.
pub mod Paths
mod Tests
use foundry_capital_markets.Prelude.{
  not, Option, none, some, ◌++◌, if◌then◌else◌, take, is_empty, Str, codes,
}

pub data Method : Type 0 where
  get : Method
  post : Method

-- The calls of the class ApiClient, with what they take.
pub data ClientCall (J : Type 0) : Type 0 where
  route : J → ClientCall J
  list_policy_sets : ClientCall J
  list_approvals : (state : Str) → ClientCall J
  get_approval : (id : Str) → ClientCall J
  decide_approval : (id : Str) (decision : J) → ClientCall J
  propose_route : J → ClientCall J
  execute_route : J → ClientCall J

-- What is handed to `fetch`.
pub record Sent (J : Type 0) : Type 0 where
  pub url : Str
  pub method : Method
  pub content_type : Str
  pub authorization : Option Str
  pub body : Option J

-- A token that is there and not empty.
unfoldable pub bearer : Option Str → Option Str
bearer none = none
bearer (some token) = if is_empty token then none else some (codes "Bearer " ++ token)

module _ {J : Type 0} where
  unfoldable pub method_of : ClientCall J → Method
  method_of (route r) = post
  method_of list_policy_sets = get
  method_of (list_approvals state) = get
  method_of (get_approval id) = get
  method_of (decide_approval id d) = post
  method_of (propose_route r) = post
  method_of (execute_route r) = post

  unfoldable pub body_of : ClientCall J → Option J
  body_of (route r) = some r
  body_of list_policy_sets = none
  body_of (list_approvals state) = none
  body_of (get_approval id) = none
  body_of (decide_approval id d) = some d
  body_of (propose_route r) = some r
  body_of (execute_route r) = some r

  unfoldable pub path_of : (Str → Str) → ClientCall J → Str
  path_of encode (route r) = codes "/v1/route"
  path_of encode list_policy_sets = codes "/v1/policy-sets"
  path_of encode (list_approvals state) = codes "/v1/approvals?state=" ++ state
  path_of encode (get_approval id) = codes "/v1/approvals/" ++ encode id
  path_of encode (decide_approval id d) = codes "/v1/approvals/" ++ (encode id ++ codes "/decision")
  path_of encode (propose_route r) = codes "/v1/route-proposals"
  path_of encode (execute_route r) = codes "/v1/executions"

  -- `sendAllowing`, up to the response.
  unfoldable pub request : (Str → Str) → Str → Option Str → ClientCall J → Sent J
  unfolding bearer method_of body_of path_of
  request encode base_url token call = record {
    url = base_url ++ path_of encode call;
    method = method_of call;
    content_type = codes "application/json";
    authorization = bearer token;
    body = body_of call;
  }
