-- ===== src/Webui/Async.antt =====
-- src/webui/src/state/asyncState.ts, the boundary that renders it, and the mapping of a query onto it
-- in useApprovals.ts.
use foundry_capital_markets.Prelude.{
  ℕ, ◌+◌, ◌-◌, ◌*◌, ◌/◌, ◌<◌, ◌≡◌, refl, ◌↔◌, Bool, true, false, Option, some, List, arith, ltb,
  if◌then◌else◌, Str, codes,
}

-- A time that `Date` cannot read is left out: `as_of` is in milliseconds.
pub record Freshness : Type 0 where
  pub as_of : ℕ
  pub source : Option Str

pub data AsyncState (T : Type 0) : Type 0 where
  loading : AsyncState T
  empty : (message : Str) → AsyncState T
  error : (message : Str) (retry : Bool) → AsyncState T
  ready : T → Freshness → AsyncState T
  partial : T → (missing : List Str) → Freshness → AsyncState T
  degraded : T → (reason : Str) → Freshness → AsyncState T

-- What the boundary puts on the screen: the banner that qualifies the data, its freshness and the
-- data itself, or a text and whether it offers a retry.
pub data Banner : Type 0 where
  no_banner : Banner
  missing_items : List Str → Banner
  degraded_source : Str → Banner

pub data View (T : Type 0) : Type 0 where
  waiting : View T
  nothing_yet : Str → View T
  could_not_load : (message : Str) (retry : Bool) → View T
  showing : Banner → Freshness → T → View T

-- A query of TanStack Query: `is_pending`, `is_error`, the error's message and the data.
pub record Query (T : Type 0) : Type 0 where
  pub is_pending : Bool
  pub is_error : Bool
  pub error_text : Str
  pub result : T
  pub data_updated_at : ℕ

module _ {T : Type 0} where
  unfoldable pub has_data : AsyncState T → Bool
  has_data loading = false
  has_data (empty m) = false
  has_data (error m r) = false
  has_data (ready d f) = true
  has_data (partial d m f) = true
  has_data (degraded d r f) = true

  unfoldable pub data_or : AsyncState T → T → T
  data_or loading fallback = fallback
  data_or (empty m) fallback = fallback
  data_or (error m r) fallback = fallback
  data_or (ready d f) fallback = d
  data_or (partial d m f) fallback = d
  data_or (degraded d r f) fallback = d

  unfoldable pub needs_qualification : AsyncState T → Bool
  needs_qualification (partial d m f) = true
  needs_qualification (degraded d r f) = true
  needs_qualification _ = false

  -- `AsyncBoundary`.
  unfoldable pub boundary : AsyncState T → View T
  boundary loading = waiting
  boundary (empty m) = nothing_yet m
  boundary (error m r) = could_not_load m r
  boundary (ready d f) = showing no_banner f d
  boundary (partial d m f) = showing (missing_items m) f d
  boundary (degraded d r f) = showing (degraded_source r) f d

  -- `toAsyncState`, with the options `isEmpty` and `emptyMessage`.
  unfoldable pub to_async_state : (T → Bool) → Str → Query T → AsyncState T
  to_async_state is_nothing empty_message q =
      if q.is_pending
      then loading
      else if q.is_error
      then error q.error_text true
      else if is_nothing q.result
      then empty empty_message
      else ready q.result
          (record { as_of = q.data_updated_at; source = some (codes "approvals-service") })

  -- A banner stands beside the data exactly in the states that need to be qualified.
  abbrev pub banner_of : View T → Banner
  banner_of (showing b f d) = b
  banner_of _ = no_banner

  -- What is shown is exactly the data that the state carries: the screen shows some exactly when the
  -- state has data, and then it is the state's own, whatever the fallback; it stands under a banner
  -- exactly in the states that have to be qualified.
  pub boundary-has_data :
      (s : AsyncState T) (fallback : T)
      → ((has_data s ≡ true)
          ↔ ((b : Banner) × (f : Freshness) × (boundary s ≡ showing b f (data_or s fallback))))
        × ((needs_qualification s ≡ false) ↔ (banner_of (boundary s) ≡ no_banner))
  unfolding has_data data_or needs_qualification boundary
  boundary-has_data loading fallback =
      (((λ h. cc), (λ h. let (b, f, e) = h in cc)), ((λ h. refl), λ h. refl))
  boundary-has_data (empty m) fallback =
      (((λ h. cc), (λ h. let (b, f, e) = h in cc)), ((λ h. refl), λ h. refl))
  boundary-has_data (error m r) fallback =
      (((λ h. cc), (λ h. let (b, f, e) = h in cc)), ((λ h. refl), λ h. refl))
  boundary-has_data (ready d f) fallback = (((λ _. (no_banner, f, refl)), λ _. refl), ground arith)
  boundary-has_data (partial d m f) fallback =
      (((λ h. (missing_items m, f, refl)), λ h. refl), ((λ h. cc), λ h. cc))
  boundary-has_data (degraded d r f) fallback =
      (((λ h. (degraded_source r, f, refl)), λ h. refl), ((λ h. cc), λ h. cc))

  -- A query shows rows exactly when it is settled, did not fail and is not empty; then it shows its own
  -- result, with no banner.
  pub to_async_state-has_data :
      (is_nothing : T → Bool) (message : Str) (q : Query T) (fallback : T)
      → ((has_data (to_async_state is_nothing message q) ≡ true)
          ↔ ((q.is_pending ≡ false) × (q.is_error ≡ false) × (is_nothing q.result ≡ false)))
        × (has_data (to_async_state is_nothing message q) ≡ true
            → data_or (to_async_state is_nothing message q) fallback ≡ q.result)
  unfolding has_data data_or to_async_state
  to_async_state-has_data is_nothing message q fallback = ground arith

-- `isStale`: more than five seconds, by the clock's milliseconds.
abbrev pub freshness_budget_seconds : ℕ
freshness_budget_seconds = 5

unfoldable pub is_stale : Freshness → ℕ → Bool
is_stale f now = ltb (f.as_of + freshness_budget_seconds * 1000) now

pub data Age : Type 0 where
  seconds_ago : ℕ → Age
  minutes_ago : ℕ → Age

-- `formatFreshness`: whole seconds, rounded to the nearest, a half up, and none below 0.
unfoldable pub format_freshness : Freshness → ℕ → Age
format_freshness f now =
    let seconds = (now - f.as_of + 500) / 1000 in
    if ltb seconds 60 then seconds_ago seconds else minutes_ago (seconds / 60)

abbrev pub seconds_of : Age → ℕ
seconds_of (seconds_ago s) = s
seconds_of (minutes_ago m) = m * 60

-- Data whose age is written as more than five seconds is always marked stale, and data whose age is
-- written as less than five seconds never is.
pub format_freshness-is_stale :
    (f : Freshness) (now : ℕ)
    → (freshness_budget_seconds < seconds_of (format_freshness f now) → is_stale f now ≡ true)
      × (seconds_of (format_freshness f now) < freshness_budget_seconds → is_stale f now ≡ false)
unfolding format_freshness is_stale
format_freshness-is_stale f now = ground arith
