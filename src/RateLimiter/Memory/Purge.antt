-- ===== src/RateLimiter/Memory/Purge.antt =====
-- The sweep of the in-memory store: what it removes, and that no later check can tell.
use headwater.Prelude.{
  ◌+◌, length, not, keep, ℕ, ◌≤◌, ◌≡◌, refl, ◌∙◌, Option, none, some, List, [], ◌∷◌, arith, Text,
  text_eq, All, if◌then◌else◌, Bool-cases, inl, inr,
}
use headwater.Dict.{lookup, put, IsDict}
use headwater.Dict.Laws.{put-IsDict, lookup-put}
use headwater.Dict.Sweep.{length-sweep, sweep-keep, lookup-sweep, selects}
use headwater.RateLimiter.Memory.{
  Store, Window, count, expired, check_rate_limit_memory, purge_expired_entries,
}
use headwater.RateLimiter.Memory.Window.{Check, admitted}

module _ (timeframe : ℕ) where
  -- The entry of a bucket unless its window is over at `now`.
  abbrev pub live : ℕ → Option Window → Option Window
  live now none = none
  live now (some w) = if expired timeframe now w then none else some w

  live_by_test :
      (now : ℕ) (key : Text) (o : Option Window)
      → (if selects (λ _ w. expired timeframe now w) key o then none else o) ≡ live now o
  live_by_test now key none = refl
  live_by_test now key (some w) = refl

  pub lookup-purge :
      (now : ℕ) (key : Text) (s : Store)
      → IsDict s
      → lookup key (purge_expired_entries now timeframe s).1 ≡ live now (lookup key s)
  unfolding purge_expired_entries
  lookup-purge now key s d =
      lookup-sweep (λ _ w. expired timeframe now w) key s d ∙ live_by_test now key (lookup key s)

  -- Two stores that no check at `now` or later tells apart.
  abbrev Agree : ℕ → Store → Store → Type 0
  Agree now s s' =
      (j : Text) (t : ℕ)
      → now ≤ t
      → count timeframe t (lookup j s) ≡ count timeframe t (lookup j s')

  count-live :
      (now t : ℕ) (o : Option Window)
      → now ≤ t
      → count timeframe t (live now o) ≡ count timeframe t o
  unfolding count
  count-live now t none h = refl
  count-live now t (some w) h = ground arith

  Agree-put :
      (now : ℕ) (k : Text) (w : Window) (s s' : Store)
      → Agree now s s'
      → Agree now (put k w s) (put k w s')
  Agree-put now k w s s' a j t h = elim (Bool-cases (text_eq k j)) [
    | inl e ↦ rw (lookup-put k j w s, lookup-put k j w s', e)
    | inr e ↦ rw (lookup-put k j w s, lookup-put k j w s', e) (a j t h)
  ]

  admitted-Agree :
      (limit now : ℕ) (key : Text) (cs : List Check) (s s' : Store)
      → All (λ c. now ≤ c.now) cs
      → Agree now s s'
      → admitted limit timeframe key cs s ≡ admitted limit timeframe key cs s'
  unfolding admitted check_rate_limit_memory
  admitted-Agree limit now key [] s s' h a = refl
  admitted-Agree limit now key (c ∷ cs) s s' h a =
      let w = (count timeframe c.now (lookup c.key s')).1 in
      let rest =
        admitted-Agree limit now key cs (put c.key w s) (put c.key w s') h.1
          (Agree-put now c.key w s s' a) in
      rw (a c.key c.now h.0, rest)

  -- A sweep of a store with distinct keys at time `now` changes how many requests of a bucket are
  -- let through by no sequence of later checks, in which every clock reads `now` or more.
  pub admitted-purge :
      (limit now : ℕ) (key : Text) (cs : List Check) (s : Store)
      → IsDict s
      → All (λ c. now ≤ c.now) cs
      → admitted limit timeframe key cs (purge_expired_entries now timeframe s).1
        ≡ admitted limit timeframe key cs s
  admitted-purge limit now key cs s d h =
      admitted-Agree limit now key cs (purge_expired_entries now timeframe s).1 s h
        λ j t later. rw (lookup-purge now j s d) (count-live now t (lookup j s) later)

  -- A sweep of a store with distinct keys keeps exactly the entries whose window is not over, in
  -- their order, and returns how many it removed.
  pub purge-keep :
      (now : ℕ) (s : Store)
      → IsDict s
      → ((purge_expired_entries now timeframe s).1 ≡ keep (λ e. not (expired timeframe now e.1)) s)
        × (length (purge_expired_entries now timeframe s).1
              + (purge_expired_entries now timeframe s).0
            ≡ length s)
  unfolding purge_expired_entries
  purge-keep now s d = (
    sweep-keep (λ _ w. expired timeframe now w) s d,
    length-sweep (λ _ w. expired timeframe now w) s d,
  )

  -- A check keeps the store's keys distinct.
  pub check-IsDict :
      (key : Text) (limit now later : ℕ) (s : Store)
      → IsDict s
      → IsDict (check_rate_limit_memory key limit timeframe now later s).1
  unfolding check_rate_limit_memory
  check-IsDict key limit now later s d = put-IsDict key _ s d
