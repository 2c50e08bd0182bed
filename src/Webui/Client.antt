-- ===== src/Webui/Client.antt =====
-- src/webui/src/api/client.ts: which answers of a service are results, and which are failures.
use foundry_capital_markets.Prelude.{
  ℕ, ◌≡◌, refl, sym, ap, ◌∙◌, ◌≢◌, ◌↔◌, ◌⊎◌, inl, inr, Bool, true, false, not, ◌&&◌, Option, none,
  some, List, [], ◌∷◌, arith, leb, ◌==◌, if◌then◌else◌, Bool-cases, any, In, Str,
}

-- A response of `fetch`. A body that is not JSON is `none`; `J` is the type of JSON values, with the
-- two fields that an error's body may carry.
pub record Response (J : Type 0) : Type 0 where
  pub status : ℕ
  pub status_text : Str
  pub correlation_id : Option Str
  pub json : Option J

pub record ApiError : Type 0 where
  pub status : ℕ
  pub message : Str
  pub correlation_id : Option Str

-- How a call ends: with the parsed body, with an `ApiError`, or with the exception of `json()`.
pub data Outcome (J : Type 0) : Type 0 where
  answered : J → Outcome J
  api_error : ApiError → Outcome J
  not_json : Outcome J

-- `response.ok`.
unfoldable pub is_ok : ℕ → Bool
is_ok status = leb 200 status && leb status 299

module _ {J : Type 0} (detail title : J → Option Str) where
  -- `payload.detail ?? payload.title ?? detail`
  unfoldable pub error_text : Response J → Str
  error_text r = elim r.json [
    | none ↦ r.status_text
    | some payload ↦ elim (detail payload) [
      | some d ↦ d
      | none ↦ elim (title payload) [ some t ↦ t | none ↦ r.status_text ]
    ]
  ]

  unfoldable pub read_body : Response J → Outcome J
  read_body r = elim r.json [ none ↦ not_json | some j ↦ answered j ]

  -- `sendAllowing`, from the response on.
  unfoldable pub send_allowing : List ℕ → Response J → Outcome J
  unfolding error_text read_body
  send_allowing refusal_statuses r =
      if not (is_ok r.status) && not (any (λ s. s == r.status) refusal_statuses)
      then api_error
          (record { status = r.status; message = error_text r; correlation_id = r.correlation_id })
      else read_body r

  -- The calls, by the statuses that they take for answers.
  unfoldable pub send : Response J → Outcome J
  send r = send_allowing [] r

  unfoldable pub propose_route : Response J → Outcome J
  propose_route r = send_allowing (422 ∷ []) r

  unfoldable pub execute_route : Response J → Outcome J
  execute_route r = send_allowing (403 ∷ 409 ∷ []) r

  any_status_iff : (status : ℕ) (ss : List ℕ) → (any (λ s. s == status) ss ≡ true) ↔ In status ss
  unfolding any
  any_status_iff status [] = ground arith
  any_status_iff status (s ∷ ss) = ground (arith, any_status_iff status ss)

  not_both :
      (ss : List ℕ) (r : Response J)
      → (is_ok r.status ≡ true) ⊎ In r.status ss
      → ¬ ((is_ok r.status ≡ false) × (¬ In r.status ss))
  not_both ss r h k = ground arith

  -- The error that a failed call ends with.
  abbrev error_of : Response J → ApiError
  error_of r = record {
    status = r.status;
    message = error_text r;
    correlation_id = r.correlation_id;
  }

  read_body-ne-api_error : (r : Response J) (e : ApiError) → read_body r ≢ api_error e
  unfolding read_body
  read_body-ne-api_error r e h = ground arith

  send_allowing_fails :
      (ss : List ℕ) (r : Response J)
      → is_ok r.status ≡ false
      → ¬ In r.status ss
      → send_allowing ss r ≡ api_error (error_of r)
  unfolding send_allowing
  send_allowing_fails ss r bad out = ground (arith, any_status_iff r.status ss)

  send_allowing_reads :
      (ss : List ℕ) (r : Response J)
      → (is_ok r.status ≡ true) ⊎ In r.status ss
      → send_allowing ss r ≡ read_body r
  unfolding send_allowing
  send_allowing_reads ss r h = ground (arith, any_status_iff r.status ss)

  -- A response is taken for an answer, or it is not.
  send_allowing-cases :
      (ss : List ℕ) (r : Response J)
      → ((is_ok r.status ≡ true) ⊎ In r.status ss) ⊎ ((is_ok r.status ≡ false) × (¬ In r.status ss))
  send_allowing-cases ss r = elim (Bool-cases (is_ok r.status)) [
    | inl ok ↦ inl (inl ok)
    | inr bad ↦ elim (Bool-cases (any (λ s. s == r.status) ss)) [
      | inl among ↦ inl (inr ((any_status_iff r.status ss).0 among))
      | inr out ↦ inr (bad, λ m. cc (out, (any_status_iff r.status ss).1 m))
    ]
  ]

  abbrev status_of : Outcome J → ℕ
  status_of (api_error e) = e.status
  status_of _ = 0

  abbrev id_of : Outcome J → Option Str
  id_of (api_error e) = e.correlation_id
  id_of _ = none

  error_of_inj :
      (r : Response J) (e : ApiError)
      → Path (Outcome J) (api_error (error_of r)) (api_error e)
      → (e.status ≡ r.status) × (e.correlation_id ≡ r.correlation_id)
  error_of_inj r e h = (sym (ap status_of h), sym (ap id_of h))

  -- A call fails with an `ApiError` exactly when the status is neither a success nor one of the
  -- refusals that it names, and the error carries that status and the response's correlation id.
  pub send_allowing-eq-api_error :
      (ss : List ℕ) (r : Response J)
      → (((e : ApiError) × (send_allowing ss r ≡ api_error e))
          ↔ ((is_ok r.status ≡ false) × (¬ In r.status ss)))
        × ((e : ApiError)
            → send_allowing ss r ≡ api_error e
            → (e.status ≡ r.status) × (e.correlation_id ≡ r.correlation_id))
  send_allowing-eq-api_error ss r = elim (send_allowing-cases ss r) [
    | inl fine ↦ rw (send_allowing_reads ss r fine) (
      ((λ h. absurd (read_body-ne-api_error r h.0 h.1)), λ h. absurd (not_both ss r fine h)),
      λ e h. absurd (read_body-ne-api_error r e h),
    )
    | inr (bad, out) ↦
        rw (send_allowing_fails ss r bad out)
          (((λ h. (bad, out)), λ h. (error_of r, refl)), λ e h. error_of_inj r e h)
  ]

  -- With a JSON body a call ends with it exactly when the response is taken for an answer.
  answered_iff :
      (ss : List ℕ) (r : Response J) (j : J)
      → r.json ≡ some j
      → (send_allowing ss r ≡ answered j) ↔ ((is_ok r.status ≡ true) ⊎ In r.status ss)
  answered_iff ss r j e = elim (send_allowing-cases ss r) [
    | inl fine ↦ ((λ h. fine), λ h. send_allowing_reads ss r fine ∙ (unfold read_body in rw e refl))
    | inr (bad, out) ↦ (
      (λ h. cc (h, send_allowing_fails ss r bad out)),
      (λ h. absurd (not_both ss r h (bad, out))),
    )
  ]

  -- A governed refusal with a JSON body reaches the screen whole: 422 from a proposal, 403 and 409 from
  -- an execution. No other status below 200 or above 299 does.
  pub refusals_answered :
      (r : Response J) (j : J)
      → r.json ≡ some j
      → ((propose_route r ≡ answered j) ↔ ((is_ok r.status ≡ true) ⊎ (r.status ≡ 422)))
        × ((execute_route r ≡ answered j)
            ↔ ((is_ok r.status ≡ true) ⊎ (r.status ≡ 403) ⊎ (r.status ≡ 409)))
        × ((send r ≡ answered j) ↔ (is_ok r.status ≡ true))
  unfolding propose_route execute_route send
  refusals_answered r j e = ground (
    arith,
    answered_iff (422 ∷ []) r j e,
    answered_iff (403 ∷ 409 ∷ []) r j e,
    answered_iff [] r j e,
  )

-- `describeDecisionFailure` of useApprovals.ts, for an `ApiError`.
pub data FailureText : Type 0 where
  refused_unrecorded : Str → FailureText
  expired_unrecorded : Str → FailureText
  role_lacking : FailureText
  plain : Str → (status : ℕ) → FailureText

unfoldable pub describe_decision_failure : ApiError → FailureText
describe_decision_failure e =
    if e.status == 409
    then refused_unrecorded e.message
    else if e.status == 410
    then expired_unrecorded e.message
    else if e.status == 403
    then role_lacking
    else plain e.message e.status
