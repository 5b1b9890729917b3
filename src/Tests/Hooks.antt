-- ===== src/Tests/Hooks.antt =====
-- Runs of the webhooks.
use headwater.Prelude.{
  zero, suc, ◌≤◌, ℕ, ◌*◌, max, true, false, Option, none, some, List, [], ◌∷◌, Text, codes,
}
use headwater.Exec.{ok}
use headwater.Tests.Urls.{internet}
use headwater.Webhooks.{Http, Answer, deliver}
use headwater.Webhooks.Stored.{registered}
use headwater.Webhooks.Counts.{Outcome, Reports, after, after-Reports}
use headwater.Webhooks.Delivery.{IsHonest}
use headwater.Webhooks.Sent.{Within, IsReceived, deliver-Within}

abbrev refused : Outcome
refused = record { delivered = false; status_code = some 500; error = some []; now = 7 }

abbrev accepted : Outcome
accepted = record { delivered = true; status_code = some 200; error = none; now = 9 }

-- A client whose first answer is a redirect, the second one a failure, and all others successes.
abbrev pub flaky : Http
flaky = record {
  State = ℕ;
  post = λ r k. elim k [
    | zero ↦ (Answer.response 302 (some (codes "/moved")), 1)
    | suc zero ↦ (Answer.response 503 none, 2)
    | suc (suc n) ↦ (Answer.response 204 none, 3)
  ];
  copy_with = λ u h p. h;
  join = λ u l. ok l;
}

abbrev hosts : Option (List Text)
hosts = some (codes ".news.google.com" ∷ [])

after-Reports_example :
    Reports
      (after (accepted ∷ refused ∷ []) (registered (codes "u") [] (codes "s")))
      (accepted ∷ refused ∷ [])
after-Reports_example = after-Reports (accepted ∷ refused ∷ []) (codes "u") [] (codes "s")

deliver-Within_example :
    let r =
      deliver internet flaky hosts 4
        (codes "u")
        (codes "body")
        []
        (record { state = 0; sent = []; slept = [] }) in
    (1 ≤ r.0.attempts)
    × (r.0.attempts ≤ max 1 4)
    × IsHonest r.0
    × IsReceived internet flaky hosts (codes "body") [] r
    × Within internet flaky hosts (codes "body") [] (3 * r.0.attempts) r.1.sent
deliver-Within_example = deliver-Within internet flaky hosts (codes "body") [] 4 (codes "u") 0
