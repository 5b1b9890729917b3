-- ===== src/Webhooks/Sent.antt =====
-- What a delivery sends: only to targets that pass the validation, and no more than the attempts and
-- the redirects allow; and what its report of success rests on.
use mathlib.Core.Path.{subst}
use headwater.Prelude.{
  ◌∷◌, ◌≡◌, ◌≤◌, ◌<◌, Bool-cases, none, some, refl, sym, ℕ, zero, suc, ◌+◌, ◌*◌, max, true, Option,
  List, [], Text, All, length, inl, inr, arith, ◌⊎◌,
}
use headwater.Dict.{Dict}
use headwater.Exec.{Result, ok, raise}
use headwater.UrlGuard.{Net, ValidatedUrl}
use headwater.Webhooks.{
  Answer, response, exception, read_answer, is_redirect, send, Http, Wire, Request, Hop, final,
  redirected, pinned_request, hop, follow, post_with_redirect_guard, sleep, deliver,
}
use headwater.Webhooks.Targets.{validate_webhook_target}
use headwater.Webhooks.Posts.{Posted, status, rejected, failed}
use headwater.Webhooks.Attempts.{Tally, fresh, attempt}
use headwater.Webhooks.Delivery.{IsHonest, attempt-keeps, attempt-IsResult, attempt-delivered}

Result-cases : {E A : Type 0} (r : Result E A) → ((e : E) × (r ≡ raise e)) ⊎ ((a : A) × (r ≡ ok a))
Result-cases (ok a) = inr (a, refl)
Result-cases (raise e) = inl (e, refl)

max_one : (n : ℕ) → (k : ℕ) × (max 1 n ≡ suc k)
max_one zero = (0, omega arith)
max_one (suc n) = (n, omega arith)

module _ (net : Net) (http : Http) (allowed : Option (List Text)) (body : Text)
    (headers : Dict Text) where
  -- The request is the pinned one to a URL that passed the validation of targets.
  abbrev pub IsValidated : Request → Type 0
  IsValidated r =
      (target : Text) × (v : ValidatedUrl) × (validate_webhook_target net allowed target true
        ≡ ok v)
      × (r ≡ pinned_request net http allowed v body headers)

  -- At most `n` requests, all of them validated.
  abbrev pub Within : (n : ℕ) → List Request → Type 0
  Within n sent = (length sent ≤ n) × All IsValidated sent

  hop-Within :
      (target : Text) (n : ℕ) (w : Wire http)
      → Within n w.sent
      → Within (n + 1) (hop net http allowed target body headers w).1.sent
  unfolding hop
  hop-Within target n w (l, h) =
      elim (Result-cases (validate_webhook_target net allowed target true)) [
        | inl (m, e) ↦ rw (e, hop) (omega (arith, l), h)
        | inr (v, e) ↦ rw (e, hop) (omega (arith, l), ((target, v, e, refl), h))
      ]

  Within-weaken : (n m : ℕ) (sent : List Request) → n ≤ m → Within n sent → Within m sent
  Within-weaken n m w k (l, h) = (omega (arith, l, k), h)

  hop_cases :
      (h : Hop) → ((p : Posted) × (h ≡ final p)) ⊎ ((u : Text) × (l : Text) × (h ≡ redirected u l))
  hop_cases (final p) = inl (p, refl)
  hop_cases (redirected u l) = inr (u, l, refl)

  follow-Within :
      (hops : ℕ) (target : Text) (n : ℕ) (w : Wire http)
      → Within n w.sent
      → Within (n + suc hops) (follow net http allowed hops target body headers w).1.sent
  unfolding follow
  follow-Within zero target n w h =
      let h1 = hop-Within target n w h in
      elim (hop_cases (hop net http allowed target body headers w).0) [
        | inl (p, e) ↦ rw (e, follow) (Within-weaken (n + 1) (n + 1) _ (omega arith) h1)
        | inr (u, l, e) ↦ rw (e, follow) h1
      ]
  follow-Within (suc hops) target n w h =
      let h1 = hop-Within target n w h in
      elim (hop_cases (hop net http allowed target body headers w).0) [
        | inl (p, e) ↦
            rw (e, follow) (Within-weaken (n + 1) (n + suc (suc hops)) _ (omega arith) h1)
        | inr (u, l, e) ↦
            rw (e, follow)
              (elim (Result-cases (http.join u l)) [
                | inl (t, f) ↦ rw f (Within-weaken (n + 1) (n + suc (suc hops)) _ (omega arith) h1)
                | inr (next, f) ↦ rw f (
                    Within-weaken (n + 1 + suc hops) (n + suc (suc hops)) _ (omega arith)
                      (follow-Within hops next (n + 1) _ h1))
              ])
      ]

  -- A post that came to a status got it from the client, as the answer to the last request.
  abbrev pub Answered : Posted → Wire http → Type 0
  Answered (status c) w =
      (r : Request) × (location : Option Text) × (before : http.State) × (earlier : List Request)
      × (http.post r before ≡ (response c location, w.state))
      × (w.sent ≡ r ∷ earlier)
  Answered (rejected m) w = Unit
  Answered (failed m) w = Unit

  abbrev HopAnswered : Hop → Wire http → Type 0
  HopAnswered (final p) w = Answered p w
  HopAnswered (redirected u l) w = Unit

  read_answer-HopAnswered :
      (v : ValidatedUrl) (r : Request) (a : Answer) (before : http.State) (earlier : List Request)
      (w : Wire http)
      → http.post r before ≡ (a, w.state)
      → w.sent ≡ r ∷ earlier
      → HopAnswered (read_answer v a) w
  unfolding read_answer
  read_answer-HopAnswered v r (exception t) b l w e f = tt
  read_answer-HopAnswered v r (response c none) b l w e f = (r, none, b, l, e, f)
  read_answer-HopAnswered v r (response c (some [])) b l w e f = (r, some [], b, l, e, f)
  read_answer-HopAnswered v r (response c (some (x ∷ loc))) b l w e f =
      elim (Bool-cases (is_redirect c)) [
        | inl y ↦ rw y tt
        | inr y ↦ rw y (r, some (x ∷ loc), b, l, e, f)
      ]

  hop-HopAnswered :
      (target : Text) (w : Wire http)
      → let r = hop net http allowed target body headers w in HopAnswered r.0 r.1
  unfolding hop
  hop-HopAnswered target w = elim (Result-cases (validate_webhook_target net allowed target true)) [
    | inl (m, e) ↦ rw (e, hop) tt
    | inr (v, e) ↦
        let r = pinned_request net http allowed v body headers in
        let sent = send net http allowed r w in
        rw (e, hop) (read_answer-HopAnswered v r sent.0 w.state w.sent sent.1 refl refl)
  ]

  follow-Answered :
      (hops : ℕ) (target : Text) (w : Wire http)
      → let r = follow net http allowed hops target body headers w in Answered r.0 r.1
  unfolding follow
  follow-Answered zero target w =
      let h = hop-HopAnswered target w in
      elim (hop_cases (hop net http allowed target body headers w).0) [
        | inl (p, e) ↦ rw (e, follow) (rw e at h)
        | inr (u, l, e) ↦ rw (e, follow) tt
      ]
  follow-Answered (suc hops) target w =
      let h = hop-HopAnswered target w in
      elim (hop_cases (hop net http allowed target body headers w).0) [
        | inl (p, e) ↦ rw (e, follow) (rw e at h)
        | inr (u, l, e) ↦
            rw (e, follow)
              (elim (Result-cases (http.join u l)) [
                | inl (t, f) ↦ rw f tt
                | inr (next, f) ↦
                    rw f (follow-Answered hops next (hop net http allowed target body headers w).1)
              ])
      ]

  -- A delivery that is reported as made got a status of the 200s as the answer to its last request.
  abbrev pub IsReceived : Tally × Wire http → Type 0
  IsReceived r =
      r.0.delivered ≡ true
      → (c : ℕ) × (r.0.status_code ≡ some c) × (200 ≤ c) × (c < 300) × Answered (status c) r.1

  -- A delivery makes at least one attempt and no more than it may; it sends at most three requests
  -- for each attempt, and every request is the pinned one to a target that passes the validation. What is
  -- reported as delivered has no error, and the client answered the last request of it with a
  -- status of the 200s, which is the one reported; what is not delivered has an error.
  pub deliver-Within :
      (max_attempts : ℕ) (target : Text) (s : http.State)
      → let r =
          deliver net http allowed max_attempts target body headers
            (record { state = s; sent = []; slept = [] }) in
        (1 ≤ r.0.attempts)
        × (r.0.attempts ≤ max 1 max_attempts)
        × IsHonest r.0
        × IsReceived r
        × Within (3 * r.0.attempts) r.1.sent
  unfolding deliver sleep post_with_redirect_guard
  deliver-Within max_attempts target s =
      let (k, e) = max_one max_attempts in
      let w : Wire http = record { state = s; sent = []; slept = [] } in
      let post = follow net http allowed 2 target body headers in
      let pause = sleep net http allowed in
      let (a, b, c) = attempt-IsResult post pause k fresh w refl in
      let received = attempt-delivered post pause Answered (follow-Answered 2 target) in
      let h =
        attempt-keeps post pause (λ n v. Within (3 * n) v.sent)
          (λ n v i.
            Within-weaken (3 * n + 3) (3 * (n + 1)) _ (omega arith)
              (follow-Within 2 target (3 * n) v i))
          (λ n z v i. i) (suc k) fresh w (omega arith, tt) in
      subst
        (λ z.
          let r = attempt post pause z fresh w in
          (1 ≤ r.0.attempts)
          × (r.0.attempts ≤ z)
          × IsHonest r.0
          × IsReceived r
          × Within (3 * r.0.attempts) r.1.sent)
        (sym e) (omega (arith, a), omega (arith, b), c, received (suc k) fresh w refl, h)
