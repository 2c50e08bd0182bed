-- ===== src/Webui/Deciding.antt =====
-- When the console lets a user decide, and what it says of the time that is left.
use native.Mathlib.Decide.{dec_lt}
use native.Mathlib.Nat.{lt_of_le_of_lt}
use foundry_capital_markets.Prelude.{
  ℕ, ◌+◌, ◌-◌, ◌*◌, ◌≤◌, ◌<◌, ◌≡◌, refl, ◌≢◌, ◌↔◌, inl, inr, Bool, true, false, ◌||◌, Option, none,
  some, List, [], ◌∷◌, arith, leb, Bool-cases, is_empty, In, Str, ===_iff, trim,
}
use foundry_capital_markets.Prelude.Int.{pos, negsuc, ◌-ℤ◌}
use foundry_capital_markets.Webui.Navigation.{approver, holds}
use foundry_capital_markets.Webui.Navigation.Laws.{holds_iff}
use foundry_capital_markets.Webui.Approvals.{
  ApprovalState, pending_approval, approved, rejected, expired, ApprovalResponse, ApprovalContext,
  ApprovalBlock, allowed, is_pending, is_elapsed, evaluate_for, evaluate_identity,
  evaluate_approval, time_to_expiry, ExpiryText, elapsed, in_seconds, in_minutes, in_hours,
  not_a_number, format_left, format_expiry, is_blocked, approve_disabled, reject_disabled,
  sent_reason,
}

-- The conditions under which a user may decide.
pub record MayDecide (approval : ApprovalResponse) (context : ApprovalContext) : Type 0 where
  pub user : Str
  pub is_approver : In approver context.roles
  pub known : context.current_user_object_id ≡ some user
  pub named : user ≢ []
  pub pending : approval.state ≡ pending_approval
  pub segregated : approval.proposed_by_object_id ≢ user
  pub in_time : (t : ℕ) → approval.expires_at ≡ some t → context.now < t

is_pending_iff : (s : ApprovalState) → (is_pending s ≡ true) ↔ (s ≡ pending_approval)
unfolding is_pending
is_pending_iff pending_approval = ground arith
is_pending_iff approved = ground arith
is_pending_iff rejected = ground arith
is_pending_iff expired = ground arith

is_elapsed-eq-false : (e : Option ℕ) (now t : ℕ) → is_elapsed e now ≡ false → e ≡ some t → now < t
unfolding is_elapsed
is_elapsed-eq-false e now t h k = ground arith

is_elapsed_of_lt :
    (e : Option ℕ) (now : ℕ) → ((t : ℕ) → e ≡ some t → now < t) → is_elapsed e now ≡ false
unfolding is_elapsed
is_elapsed_of_lt none now h = refl
is_elapsed_of_lt (some t) now h = ground (arith, h t refl)

is_empty_of_ne : {A : Type 0} (s : List A) → s ≢ [] → is_empty s ≡ false
is_empty_of_ne [] h = absurd (h refl)
is_empty_of_ne (c ∷ s) h = refl

ne_of_is_empty : {A : Type 0} (s : List A) → is_empty s ≡ false → s ≢ []
ne_of_is_empty [] h = cc
ne_of_is_empty (c ∷ s) h = cc

evaluate_for-eq-allowed_iff :
    (user : Str) (approval : ApprovalResponse) (now : ℕ)
    → (evaluate_for user approval now ≡ allowed) ↔ (
        (approval.state ≡ pending_approval)
        × (approval.proposed_by_object_id ≢ user)
        × (is_elapsed approval.expires_at now ≡ false))
unfolding evaluate_for
evaluate_for-eq-allowed_iff user approval now =
    ground (arith, is_pending_iff approval.state, ===_iff approval.proposed_by_object_id user)

evaluate_identity-eq-allowed :
    (id : Option Str) (approval : ApprovalResponse) (now : ℕ)
    → evaluate_identity id approval now ≡ allowed
    → (user : Str) × (id ≡ some user) × (user ≢ []) × (evaluate_for user approval now ≡ allowed)
unfolding evaluate_identity
evaluate_identity-eq-allowed none approval now h = cc
evaluate_identity-eq-allowed (some []) approval now h = cc
evaluate_identity-eq-allowed (some (c ∷ s)) approval now h = (c ∷ s, refl, cc, h)

evaluate_identity_of :
    (id : Option Str) (user : Str) (approval : ApprovalResponse) (now : ℕ)
    → id ≡ some user
    → user ≢ []
    → evaluate_for user approval now ≡ allowed
    → evaluate_identity id approval now ≡ allowed
unfolding evaluate_identity
evaluate_identity_of id user approval now e ne h =
    rw (e, evaluate_identity, is_empty_of_ne user ne) h

MayDecide-of_allowed :
    (approval : ApprovalResponse) (context : ApprovalContext)
    → evaluate_approval approval context ≡ allowed
    → MayDecide approval context
unfolding evaluate_approval
MayDecide-of_allowed approval context h = elim (Bool-cases (holds context.roles approver)) [
  | inr no_role ↦ cc (simp no_role at h)
  | inl role ↦
      let (user, known, named, rest) =
        evaluate_identity-eq-allowed context.current_user_object_id approval context.now
          (simp role at h) in
      let (pending, other, early) =
        (evaluate_for-eq-allowed_iff user approval context.now).0 rest in
      record {
        user = user;
        is_approver = (holds_iff context.roles approver).0 role;
        known = known;
        named = named;
        pending = pending;
        segregated = other;
        in_time = λ t e. is_elapsed-eq-false approval.expires_at context.now t early e;
      }
]

allowed_of_MayDecide :
    (approval : ApprovalResponse) (context : ApprovalContext)
    → MayDecide approval context
    → evaluate_approval approval context ≡ allowed
unfolding evaluate_approval
allowed_of_MayDecide approval context m =
    simp ((holds_iff context.roles approver).1 m.is_approver) (
      evaluate_identity_of context.current_user_object_id m.user approval context.now m.known
        m.named
        ((evaluate_for-eq-allowed_iff m.user approval context.now).1
          (m.pending, m.segregated, is_elapsed_of_lt approval.expires_at context.now m.in_time)))

-- The console lets a user decide exactly when the user holds the Approver role, is known by a
-- non-empty object id, did not propose the action, the proposal is pending, and an expiry that can
-- be read lies ahead.
pub evaluate_approval_iff :
    (approval : ApprovalResponse) (context : ApprovalContext)
    → (evaluate_approval approval context ≡ allowed) ↔ MayDecide approval context
evaluate_approval_iff approval context =
    (MayDecide-of_allowed approval context, allowed_of_MayDecide approval context)

-- Waiting never makes a proposal decidable: what is decidable at a later time was decidable before,
-- for the same roles and identity.
pub evaluate_approval_mono :
    (approval : ApprovalResponse) (context : ApprovalContext) (later : ℕ)
    → context.now ≤ later
    → evaluate_approval approval (record context { now = later }) ≡ allowed
    → evaluate_approval approval context ≡ allowed
evaluate_approval_mono approval context later h e =
    let m = MayDecide-of_allowed approval (record context { now = later }) e in
    allowed_of_MayDecide approval context (record {
      user = m.user;
      is_approver = m.is_approver;
      known = m.known;
      named = m.named;
      pending = m.pending;
      segregated = m.segregated;
      in_time = λ t k. lt_of_le_of_lt h (m.in_time t k);
    })

or_false-left : (a b : Bool) → (a || b) ≡ false → a ≡ false
or_false-left a b h = ground arith

or_true : (a : Bool) → (a || true) ≡ true
or_true a = ground arith

-- The Reject button works only where Approve does, and with a reason that is sent with the decision:
-- a rejection never leaves the console without one.
pub reject_disabled-eq-false :
    (block : ApprovalBlock) (submitting : Bool) (reason : Str)
    → reject_disabled block submitting reason ≡ false
    → (approve_disabled block submitting ≡ false)
      × (sent : Str) × (sent_reason reason ≡ some sent)
      × (sent ≢ [])
unfolding reject_disabled approve_disabled sent_reason
reject_disabled-eq-false block submitting reason h = elim (Bool-cases (is_empty (trim reason))) [
  | inl blank ↦ cc (simp (blank, or_true) at h)
  | inr filled ↦ (
    or_false-left (is_blocked block || submitting) (is_empty (trim reason)) h,
    trim reason,
    rw filled,
    ne_of_is_empty (trim reason) filled,
  )
]

-- What the panel writes of the time left, read back as milliseconds: from and below.
abbrev pub Covers : ExpiryText → ℕ → Type 0
Covers elapsed ms = ms ≡ 0
Covers (in_seconds s) ms = (s < 60) × (s * 1000 ≤ ms) × (ms < (s + 1) * 1000)
Covers (in_minutes m) ms = (1 ≤ m) × (m < 60) × (m * 60_000 ≤ ms) × (ms < (m + 1) * 60_000)
Covers (in_hours h m) ms =
    (1 ≤ h) × (m < 60) × ((h * 60 + m) * 60_000 ≤ ms) × (ms < (h * 60 + m + 1) * 60_000)
Covers not_a_number ms = ⊥

format_left-Covers : (ms : ℕ) → Covers (format_left (pos ms)) ms
unfolding format_left
format_left-Covers ms = ground arith

format_left-eq-elapsed : (ms : ℕ) → (format_left (pos ms) ≡ elapsed) ↔ (ms ≡ 0)
unfolding format_left
format_left-eq-elapsed ms = ground arith

sub_of_le : (t now : ℕ) → now ≤ t → pos t -ℤ pos now ≡ pos (t - now)
unfolding ◌-ℤ◌
sub_of_le t now h = ground arith

sub_of_lt : (t now : ℕ) → t < now → pos t -ℤ pos now ≡ negsuc (now - t - 1)
unfolding ◌-ℤ◌
sub_of_lt t now h = ground arith

format_expiry_lem :
    (approval : ApprovalResponse) (now t : ℕ)
    → approval.expires_at ≡ some t
    → format_expiry approval now ≡ format_left (pos t -ℤ pos now)
unfolding format_expiry
format_expiry_lem approval now t e = rw (e, time_to_expiry, format_expiry) refl

is_elapsed_lem : (e : Option ℕ) (now t : ℕ) → e ≡ some t → is_elapsed e now ≡ leb t now
unfolding is_elapsed
is_elapsed_lem e now t h = rw (h, is_elapsed) refl

-- The expiry's text agrees with the rule: it says elapsed exactly where the rule takes the proposal
-- for expired, and before that it is the time that is left, cut to its unit.
pub format_expiry-Covers :
    (approval : ApprovalResponse) (now t : ℕ)
    → approval.expires_at ≡ some t
    → ((format_expiry approval now ≡ elapsed) ↔ (is_elapsed approval.expires_at now ≡ true))
      × (now ≤ t → Covers (format_expiry approval now) (t - now))
format_expiry-Covers approval now t e = elim (dec_lt t now) [
  | yes late ↦
      rw
        (
          format_expiry_lem approval now t e,
          is_elapsed_lem approval.expires_at now t e,
          sub_of_lt t now late,
        )
        (unfold format_left in ground arith, λ h. absurd (omega arith))
  | no early ↦
      rw
        (
          format_expiry_lem approval now t e,
          is_elapsed_lem approval.expires_at now t e,
          sub_of_le t now (omega arith),
        )
        (ground (arith, format_left-eq-elapsed (t - now)), λ h. format_left-Covers (t - now))
]
