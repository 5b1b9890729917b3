-- ===== src/Webhooks/Counts.antt =====
-- The health of a webhook over a history of outcomes: its counters against the history itself.
use headwater.Prelude.{
  ◌≡◌, ◌↔◌, ◌≤◌, refl, ℕ, ◌+◌, Bool, Option, List, [], ◌∷◌, Text, length, leb, leb→le, arith,
  Bool-cases, inl, inr, if◌then◌else◌,
}
use headwater.Webhooks.Stored.{Webhook, failing, registered, with_outcome}

-- One delivery: whether it succeeded, the last status and error, and the time.
pub record Outcome : Type 0 where
  pub delivered : Bool
  pub status_code : Option ℕ
  pub error : Option Text
  pub now : ℕ

-- The webhook after the outcomes, of which the last comes first.
abbrev pub after : List Outcome → Webhook → Webhook
after [] h = h
after (o ∷ os) h = with_outcome o.delivered o.status_code o.error o.now (after os h)

abbrev pub successes : List Outcome → ℕ
successes [] = 0
successes (o ∷ os) = if o.delivered then successes os + 1 else successes os

-- The failures since the last success
abbrev pub streak : List Outcome → ℕ
streak [] = 0
streak (o ∷ os) = if o.delivered then 0 else streak os + 1

-- The counters say what has happened, and the webhook is failing while the last ten or more
-- deliveries have failed.
abbrev pub Reports : Webhook → List Outcome → Type 0
Reports h os =
    (h.delivery_count ≡ length os)
    × (h.success_count ≡ successes os)
    × (h.success_count + h.failure_count ≡ length os)
    × (h.consecutive_failures ≡ streak os)
    × ((h.status ≡ failing) ↔ (10 ≤ streak os))

with_outcome-Reports :
    (o : Outcome) (os : List Outcome) (h : Webhook)
    → Reports h os
    → Reports (with_outcome o.delivered o.status_code o.error o.now h) (o ∷ os)
unfolding with_outcome
with_outcome-Reports o os h (a, b, c, d, e) = elim (Bool-cases o.delivered) [
  | inl y ↦ rw y (
    omega (arith, a),
    omega (arith, b),
    omega (arith, c),
    refl,
    (λ z. absurd (ground (arith, z)), λ z. absurd (omega (arith, z))),
  )
  | inr y ↦ rw y (
    omega (arith, a),
    b,
    omega (arith, c),
    omega (arith, d),
    elim (Bool-cases (leb 10 (h.consecutive_failures + 1))) [
      | inl l ↦ rw l (λ z. omega (arith, d, leb→le _ _ l), λ z. refl)
      | inr l ↦ rw l (λ z. ground (arith, e.0 z), λ z. e.1 (ground (arith, d, l, z)))
    ],
  )
]

-- After any outcomes of deliveries, a registered webhook has counted every delivery, success and
-- failure and the failures since the last success, and its status is failing exactly if these are
-- ten or more.
pub after-Reports :
    (os : List Outcome) (url : Text) (events : List Text) (secret : Text)
    → Reports (after os (registered url events secret)) os
after-Reports [] url events secret = ground arith
after-Reports (o ∷ os) url events secret =
    with_outcome-Reports o os _ (after-Reports os url events secret)
