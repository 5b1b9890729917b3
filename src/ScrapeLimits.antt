-- ===== src/ScrapeLimits.antt =====
-- The limits of app/services/google_maps/scraper_limits.py: how many browsers may live at a time,
-- and how many points a fan-out may visit. The semaphores of the event loops are a dictionary from
-- the loop's name to the number that its semaphore was made with. `acquire_browser`, which waits,
-- is not modelled.
use headwater.Prelude.{
  ◌≡◌, ◌∙◌, refl, sym, ap, ℕ, zero, suc, ◌≤◌, min, Option, none, some, List, [], ◌∷◌, Text, ltb,
  leb, length, take, length-take, take_all, All, leb→le, Bool-cases, Option-cases, inl, inr, ℤ, pos,
  negsuc, parse_int, arith, if◌then◌else◌,
}
use headwater.Dict.{Dict, lookup, put}
use headwater.Dict.Entries.{put-All, lookup-All}
use headwater.Exec.{Exec, ok, raise, ◌>>◌, bind-keeps}

pub record Limits : Type 0 where
  pub max_concurrent_browsers : ℕ
  pub max_fanout : ℕ
  pub browser_semaphores : Dict ℕ

-- `ValueError`
pub data LimitError : Type 0 where
  not_positive : LimitError

abbrev default_max_concurrent_browsers : ℕ
default_max_concurrent_browsers = 4

abbrev default_max_fanout : ℕ
default_max_fanout = 25

abbrev positive_or : (default : ℕ) → Option ℤ → ℕ
positive_or default none = default
positive_or default (some (negsuc n)) = default
positive_or default (some (pos n)) = if ltb n 1 then default else n

-- `_env_int`, of the variable's value
unfoldable pub env_int : (raw : Option Text) → (default : ℕ) → ℕ
env_int none default = default
env_int (some raw) default = positive_or default (parse_int raw)

-- The limits as the module is loaded
unfoldable pub loaded : (getenv : Text → Option Text) → (browsers fanout : Text) → Limits
unfolding env_int
loaded getenv browsers fanout = record {
  max_concurrent_browsers = env_int (getenv browsers) default_max_concurrent_browsers;
  max_fanout = env_int (getenv fanout) default_max_fanout;
  browser_semaphores = [];
}

abbrev set_browsers : Option ℤ → Exec Limits LimitError Unit
set_browsers none l = (ok tt, l)
set_browsers (some (negsuc n)) l = (raise not_positive, l)
set_browsers (some (pos zero)) l = (raise not_positive, l)
set_browsers (some (pos (suc n))) l =
    (ok tt, record l { max_concurrent_browsers = suc n; browser_semaphores = [] })

abbrev set_fanout : Option ℤ → Exec Limits LimitError Unit
set_fanout none l = (ok tt, l)
set_fanout (some (negsuc n)) l = (raise not_positive, l)
set_fanout (some (pos zero)) l = (raise not_positive, l)
set_fanout (some (pos (suc n))) l = (ok tt, record l { max_fanout = suc n })

-- The first limit stays changed where the second one is refused.
unfoldable pub configure_limits :
    (max_concurrent_browsers max_fanout : Option ℤ) → Exec Limits LimitError Unit
configure_limits max_concurrent_browsers max_fanout = do
  set_browsers max_concurrent_browsers
  set_fanout max_fanout

-- `_browser_semaphore`, in the running loop: the number that the semaphore starts from
unfoldable pub browser_semaphore : (loop : Text) → Limits → ℕ × Limits
browser_semaphore loop l = elim (lookup loop l.browser_semaphores) [
  | some permits ↦ (permits, l)
  | none ↦ (
    l.max_concurrent_browsers,
    record l { browser_semaphores = put loop l.max_concurrent_browsers l.browser_semaphores },
  )
]

unfoldable pub cap_fanout : {A : Type 0} → Limits → List A → List A
cap_fanout l items = if leb (length items) l.max_fanout then items else take l.max_fanout items

-- Both limits are positive, and the semaphores have the present number of permits.
pub record IsLimiting (l : Limits) : Type 0 where
  pub some_browsers : 1 ≤ l.max_concurrent_browsers
  pub some_points : 1 ≤ l.max_fanout
  pub permits : All (λ e. e.1 ≡ l.max_concurrent_browsers) l.browser_semaphores

positive_or-positive : (default : ℕ) (o : Option ℤ) → 1 ≤ default → 1 ≤ positive_or default o
positive_or-positive default none h = h
positive_or-positive default (some (negsuc n)) h = h
positive_or-positive default (some (pos n)) h = ground (arith, h)

env_int-positive : (raw : Option Text) (default : ℕ) → 1 ≤ default → 1 ≤ env_int raw default
unfolding env_int
env_int-positive none default h = h
env_int-positive (some raw) default h = positive_or-positive default (parse_int raw) h

loaded-IsLimiting :
    (getenv : Text → Option Text) (browsers fanout : Text)
    → IsLimiting (loaded getenv browsers fanout)
unfolding loaded
loaded-IsLimiting getenv browsers fanout = record {
  some_browsers = env_int-positive (getenv browsers) 4 (omega arith);
  some_points = env_int-positive (getenv fanout) 25 (omega arith);
  permits = tt;
}

set_browsers-IsLimiting :
    (o : Option ℤ) (l : Limits) → IsLimiting l → IsLimiting (set_browsers o l).1
set_browsers-IsLimiting none l h = h
set_browsers-IsLimiting (some (negsuc n)) l h = h
set_browsers-IsLimiting (some (pos zero)) l h = h
set_browsers-IsLimiting (some (pos (suc n))) l h = record {
  some_browsers = omega arith;
  some_points = h.some_points;
  permits = tt;
}

set_fanout-IsLimiting : (o : Option ℤ) (l : Limits) → IsLimiting l → IsLimiting (set_fanout o l).1
set_fanout-IsLimiting none l h = h
set_fanout-IsLimiting (some (negsuc n)) l h = h
set_fanout-IsLimiting (some (pos zero)) l h = h
set_fanout-IsLimiting (some (pos (suc n))) l h = record {
  some_browsers = h.some_browsers;
  some_points = omega arith;
  permits = h.permits;
}

configure_limits-IsLimiting :
    (browsers fanout : Option ℤ) (l : Limits)
    → IsLimiting l
    → IsLimiting (configure_limits browsers fanout l).1
unfolding configure_limits
configure_limits-IsLimiting browsers fanout l h =
    bind-keeps IsLimiting (set_browsers browsers) (λ u. set_fanout fanout) l
      (set_browsers-IsLimiting browsers l h) (λ u l' h'. set_fanout-IsLimiting fanout l' h')

browser_semaphore-IsLimiting :
    (loop : Text) (l : Limits) → IsLimiting l → IsLimiting (browser_semaphore loop l).1
unfolding browser_semaphore
browser_semaphore-IsLimiting loop l h = elim (Option-cases (lookup loop l.browser_semaphores)) [
  | inr (n, e) ↦ rw (e, browser_semaphore) h
  | inl e ↦
      rw (e, browser_semaphore)
        (record {
          some_browsers = h.some_browsers;
          some_points = h.some_points;
          permits =
              put-All (λ e. e.1 ≡ l.max_concurrent_browsers) loop l.max_concurrent_browsers
                l.browser_semaphores refl h.permits;
        })
]

-- What changes the limits, or asks for a semaphore
pub data Call : Type 0 where
  configure : (max_concurrent_browsers max_fanout : Option ℤ) → Call
  semaphore : (loop : Text) → Call

abbrev pub after_calls : List Call → Limits → Limits
after_calls [] l = l
after_calls (configure b f ∷ cs) l = (configure_limits b f (after_calls cs l)).1
after_calls (semaphore loop ∷ cs) l = (browser_semaphore loop (after_calls cs l)).1

after_calls-IsLimiting :
    (cs : List Call) (l : Limits) → IsLimiting l → IsLimiting (after_calls cs l)
after_calls-IsLimiting [] l h = h
after_calls-IsLimiting (configure b f ∷ cs) l h =
    configure_limits-IsLimiting b f (after_calls cs l) (after_calls-IsLimiting cs l h)
after_calls-IsLimiting (semaphore loop ∷ cs) l h =
    browser_semaphore-IsLimiting loop (after_calls cs l) (after_calls-IsLimiting cs l h)

cap_fanout-take :
    {A : Type 0} (l : Limits) (items : List A) → cap_fanout l items ≡ take l.max_fanout items
unfolding cap_fanout
cap_fanout-take l items = elim (Bool-cases (leb (length items) l.max_fanout)) [
  | inl e ↦ rw e (sym (take_all l.max_fanout items (leb→le (length items) l.max_fanout e)))
  | inr e ↦ rw e refl
]

semaphore-permits :
    (loop : Text) (l : Limits)
    → IsLimiting l
    → (browser_semaphore loop l).0 ≡ l.max_concurrent_browsers
unfolding browser_semaphore
semaphore-permits loop l h = elim (Option-cases (lookup loop l.browser_semaphores)) [
  | inr (n, e) ↦
      rw (e, browser_semaphore)
        (lookup-All (λ e. e.1 ≡ l.max_concurrent_browsers) loop n l.browser_semaphores e h.permits)
  | inl e ↦ rw (e, browser_semaphore) refl
]

-- From the limits as they are loaded, whatever the environment says, and after any calls, refused
-- ones included: both limits are positive, a semaphore has as many permits as there may be
-- browsers, and a fan-out keeps its first items, as many as the limit.
pub after_calls-limits :
    {A : Type 0} (getenv : Text → Option Text) (browsers fanout loop : Text) (cs : List Call)
    (items : List A)
    → let l = after_calls cs (loaded getenv browsers fanout) in
      (1 ≤ l.max_concurrent_browsers)
      × (1 ≤ l.max_fanout)
      × ((browser_semaphore loop l).0 ≡ l.max_concurrent_browsers)
      × (cap_fanout l items ≡ take l.max_fanout items)
      × (length (cap_fanout l items) ≡ min l.max_fanout (length items))
after_calls-limits getenv browsers fanout loop cs items =
    let l = after_calls cs (loaded getenv browsers fanout) in
    let h =
      after_calls-IsLimiting cs (loaded getenv browsers fanout)
        (loaded-IsLimiting getenv browsers fanout) in
    (
      h.some_browsers,
      h.some_points,
      semaphore-permits loop l h,
      cap_fanout-take l items,
      ap length (cap_fanout-take l items) ∙ length-take l.max_fanout items,
    )
