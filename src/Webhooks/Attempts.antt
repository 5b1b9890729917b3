-- ===== src/Webhooks/Attempts.antt =====
-- The loop of `deliver_webhook` and `_deliver_inline`: bounded attempts with growing pauses. The
-- post is a parameter of the loop, a function on any state, and so is the sleep.
use headwater.Prelude.{
  ℕ, zero, suc, ◌+◌, ◌-◌, ◌^◌, min, Bool, true, false, not, ◌||◌, ◌&&◌, Option, none, some, ◌++◌,
  Text, codes, str, ltb, leb, ◌==◌, if◌then◌else◌,
}
use headwater.Webhooks.Posts.{Posted, status, rejected, failed}

-- The variables of the loop
pub record Tally : Type 0 where
  pub attempts : ℕ
  pub status_code : Option ℕ
  pub error : Option Text
  pub delivered : Bool

abbrev pub fresh : Tally
fresh = record { attempts = 0; status_code = none; error = none; delivered = false }

-- `200 <= status_code < 300`
unfoldable pub is_success : ℕ → Bool
is_success c = leb 200 c && ltb c 300

-- `400 <= status_code < 500 and status_code not in (408, 429)`
unfoldable pub is_final : ℕ → Bool
is_final c = leb 400 c && ltb c 500 && not ((c == 408) || (c == 429))

unfoldable pub counted : Posted → Tally → Tally
counted (status c) t =
    if is_success c
    then record t {
      attempts = t.attempts + 1;
      status_code = some c;
      error = none;
      delivered = true;
    }
    else record t {
      attempts = t.attempts + 1;
      status_code = some c;
      error = some (codes "receiver returned HTTP " ++ str c);
    }
counted (rejected message) t = record t { attempts = t.attempts + 1; error = some message }
counted (failed message) t = record t { attempts = t.attempts + 1; error = some message }

-- Whether the loop is left by `break`.
unfoldable pub breaks : Posted → Bool
breaks (status c) = is_success c || is_final c
breaks (rejected message) = true
breaks (failed message) = false

-- Seconds of sleep after the attempt
unfoldable pub backoff : (attempts : ℕ) → ℕ
backoff attempts = min (2 ^ (attempts - 1)) 30

module _ {S : Type 0} (post : S → Posted × S) (sleep : ℕ → S → S) where
  -- No sleep after the last attempt
  abbrev pub paused : (left attempts : ℕ) → S → S
  paused zero attempts s = s
  paused (suc left) attempts s = sleep (backoff attempts) s

  -- The loop, with `left` more attempts
  unfoldable pub attempt : (left : ℕ) → Tally → S → Tally × S
  attempt zero t s = (t, s)
  attempt (suc left) t s =
      let (p, s') = post s in
      let t' = counted p t in
      let rest = attempt left t' (paused left t'.attempts s') in if breaks p then (t', s') else rest
