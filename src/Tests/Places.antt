-- ===== src/Tests/Places.antt =====
-- Runs of the place monitors.
use headwater.Prelude.{Bool, ℕ, ◌==◌, true, false, none, some, List, [], ◌∷◌, codes}
use headwater.Monitors.{Fetched, created, tracked}
use headwater.Monitors.Checks.{after, Follows, after-Follows}

abbrev pub rating : ℕ → Fetched ℕ
rating n = record {
  error = false;
  message = [];
  place = (codes "rating", some n) ∷ (codes "phone", none) ∷ [];
}

abbrev outage : Fetched ℕ
outage = record { error = true; message = codes "timeout"; place = [] }

abbrev runs : List (ℕ × Fetched ℕ)
runs = (30, rating 4) ∷ (20, outage) ∷ (10, rating 5) ∷ []

abbrev pub equal : ℕ → ℕ → Bool
equal a b = a == b

after-Follows_example :
    Follows equal (tracked equal []) (after equal runs (created none none none 1 [] 0)) runs
after-Follows_example = after-Follows equal none none none 1 [] 0 runs
