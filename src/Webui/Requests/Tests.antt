-- ===== src/Webui/Requests/Tests.antt =====
-- Requests of a client whose bodies are texts.
use foundry_capital_markets.Prelude.{
  ◌≡◌, refl, not, none, some, [], ◌∷◌, arith, ◌==◌, keep, Str, codes, split, Lacks,
}
use foundry_capital_markets.Webui.Requests.{
  post, list_policy_sets, get_approval, decide_approval, propose_route, bearer, method_of, body_of,
  path_of, request,
}
use foundry_capital_markets.Webui.Requests.Paths.{slash, split-path_of}

-- An encoding that leaves slashes out.
abbrev encode : Str → Str
encode s = keep (λ c. not (c == b'/')) s

signed_in :
    request encode (codes "https://api") (some (codes "tok")) (propose_route (codes "{}"))
    ≡ record {
      url = codes "https://api/v1/route-proposals";
      method = post;
      content_type = codes "application/json";
      authorization = some (codes "Bearer tok");
      body = some (codes "{}");
    }
unfolding request bearer path_of method_of body_of
signed_in = refl

signed_out :
    (request {J = Str} encode (codes "https://api") none list_policy_sets).authorization ≡ none
unfolding request bearer
signed_out = refl

encoded_apart : Lacks slash (encode (codes "a/b"))
unfolding keep
encoded_apart = ground arith

split-path_of_example :
    (split slash (path_of {J = Str} encode (get_approval (codes "a/b")))
      ≡ [] ∷ codes "v1" ∷ codes "approvals" ∷ encode (codes "a/b") ∷ [])
    × (split slash (path_of encode (decide_approval (codes "a/b") (codes "{}")))
        ≡ [] ∷ codes "v1" ∷ codes "approvals" ∷ encode (codes "a/b") ∷ codes "decision" ∷ [])
split-path_of_example = split-path_of Str encode (codes "a/b") encoded_apart (codes "{}")
