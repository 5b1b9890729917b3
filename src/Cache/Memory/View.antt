-- ===== src/Cache/Memory/View.antt =====
-- What can be read from the memory cache: the entries that have not expired.
use headwater.Prelude.{
  is_some, text_eq_iff, ℕ, ◌+◌, ◌*◌, ◌≤◌, ◌≡◌, refl, Bool, true, Option, none, some, [], ◌∷◌, Text,
  text_eq, rstrip, starts_with, leb, ltb, ◌==◌, if◌then◌else◌, arith, Option-cases, inl, inr,
}
use headwater.Dict.{Dict, lookup, remove, IsDict}
use headwater.Dict.Laws.{lookup-put, lookup-remove, remove-IsDict}
use headwater.Dict.Sweep.{lookup-sweep, remove_all-IsDict}
use headwater.RateLimiter.Info.{second}
use headwater.Cache.Memory.{Memory, Entry, get, set, delete, clear, exists, cleanup_expired}

-- What a pattern clears.
abbrev pub cleared : Option Text → Text → Bool
cleared none j = true
cleared (some []) j = true
cleared (some (c ∷ p)) j = starts_with j (rstrip (λ x. x == b'*') (c ∷ p))

module _ {V : Type 0} where
  abbrev pub live : ℕ → Option (Entry V) → Option (Option V)
  live t none = none
  live t (some (value, expiry)) = if ltb t expiry then some value else none

  -- The value that a read of the key would find at time `t`, if there is one.
  unfoldable pub view : Memory V → ℕ → Text → Option (Option V)
  view m t key = live t (lookup key m.store)

  -- `none` for a missing value, as for a value that is `None`.
  abbrev pub flat : Option (Option V) → Option V
  flat none = none
  flat (some value) = value

  abbrev pub IsValid : Memory V → Type 0
  IsValid m = IsDict m.store

  live-remove :
      (k j : Text) (t now : ℕ) (d : Dict (Entry V)) (value : Option V) (expiry : ℕ)
      → IsDict d
      → lookup k d ≡ some (value, expiry)
      → expiry ≤ now
      → now ≤ t
      → live t (lookup j (remove k d)) ≡ live t (lookup j d)
  live-remove k j t now d value expiry h e past later =
      ground (arith, lookup-remove k j d h, text_eq_iff k j)

  pub view-get :
      (key j : Text) (now t : ℕ) (m : Memory V)
      → IsValid m
      → now ≤ t
      → view (get key now m).1 t j ≡ view m t j
  unfolding get view
  view-get key j now t m h later = elim (Option-cases (lookup key m.store)) [
    | inl e ↦ ground arith
    | inr ((v, x), e) ↦ ground (arith, live-remove key j t now m.store v x h e)
  ]

  pub reply-get : (key : Text) (now : ℕ) (m : Memory V) → (get key now m).0 ≡ flat (view m now key)
  unfolding get view
  reply-get key now m = ground arith

  pub view-exists :
      (key j : Text) (now t : ℕ) (m : Memory V)
      → IsValid m
      → now ≤ t
      → view (exists key now m).1 t j ≡ view m t j
  unfolding exists view
  view-exists key j now t m h later = elim (Option-cases (lookup key m.store)) [
    | inl e ↦ ground arith
    | inr ((v, x), e) ↦ ground (arith, live-remove key j t now m.store v x h e)
  ]

  pub view-set :
      (key j : Text) (value : Option V) (ttl now t : ℕ) (m : Memory V)
      → view (set key value ttl now m).1 t j ≡ (
          if text_eq key j
          then (if ltb t (now + ttl * second) then some value else none)
          else view m t j)
  unfolding set view
  view-set key j value ttl now t m =
      ground (arith, lookup-put key j (value, now + ttl * second) m.store)

  pub view-delete :
      (key j : Text) (t : ℕ) (m : Memory V)
      → IsValid m
      → view (delete key m).1 t j ≡ (if text_eq key j then none else view m t j)
  unfolding delete view
  view-delete key j t m h = ground (arith, lookup-remove key j m.store h, text_eq_iff key j)

  pub view-clear :
      (pattern : Option Text) (j : Text) (t : ℕ) (m : Memory V)
      → IsValid m
      → view (clear pattern m).1 t j ≡ (if cleared pattern j then none else view m t j)
  unfolding clear view
  view-clear none j t m h = unfold lookup in refl
  view-clear (some []) j t m h = unfold lookup in refl
  view-clear (some (c ∷ p)) j t m h =
      ground
        (arith, lookup-sweep (λ k _. starts_with k (rstrip (λ x. x == b'*') (c ∷ p))) j m.store h)

  pub view-cleanup :
      (j : Text) (now t : ℕ) (m : Memory V)
      → IsValid m
      → now ≤ t
      → view (cleanup_expired now m).1 t j ≡ view m t j
  unfolding cleanup_expired view
  view-cleanup j now t m h later = ground (arith, lookup-sweep (λ _ e. leb e.1 now) j m.store h)

  pub reply-exists :
      (key : Text) (now : ℕ) (m : Memory V) → (exists key now m).0 ≡ is_some (view m now key)
  unfolding exists view
  reply-exists key now m = ground arith

  -- Every method keeps the keys distinct.
  pub get-IsValid : (key : Text) (now : ℕ) (m : Memory V) → IsValid m → IsValid (get key now m).1
  unfolding get
  get-IsValid key now m h = ground (arith, remove-IsDict key m.store h)

  pub exists-IsValid :
      (key : Text) (now : ℕ) (m : Memory V) → IsValid m → IsValid (exists key now m).1
  unfolding exists
  exists-IsValid key now m h = ground (arith, remove-IsDict key m.store h)

  pub delete-IsValid : (key : Text) (m : Memory V) → IsValid m → IsValid (delete key m).1
  unfolding delete
  delete-IsValid key m h = ground (arith, remove-IsDict key m.store h)

  pub clear-IsValid :
      (pattern : Option Text) (m : Memory V) → IsValid m → IsValid (clear pattern m).1
  unfolding clear
  clear-IsValid none m h = tt
  clear-IsValid (some []) m h = tt
  clear-IsValid (some (c ∷ p)) m h = remove_all-IsDict _ m.store h

  pub cleanup-IsValid : (now : ℕ) (m : Memory V) → IsValid m → IsValid (cleanup_expired now m).1
  unfolding cleanup_expired
  cleanup-IsValid now m h = remove_all-IsDict _ m.store h
