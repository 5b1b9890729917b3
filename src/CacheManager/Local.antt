-- ===== src/CacheManager/Local.antt =====
-- The process's own store of cached values: what its operations leave, entry by entry.
use headwater.Prelude.{
  ◌≡◌, ◌∙◌, refl, ℕ, ◌≤◌, Bool, Bool-cases, Option-cases, inl, inr, true, false, Option, none, some,
  [], ◌∷◌, Text, text_eq, text_eq_iff, starts_with, is_some, ltb, leb, le→ltb, leb→le, arith,
  if◌then◌else◌,
}
use headwater.Dict.{lookup, IsDict}
use headwater.Dict.Laws.{lookup-remove}
use headwater.Dict.Sweep.{lookup-sweep, selects}
use headwater.Redis.Client.{Server}
use headwater.Redis.{is_available}
use headwater.CacheManager.{
  Caches, get_local, clear_local, clear_remote, delete_local, delete_remote, cleanup, read_entry,
}
use headwater.CacheManager.Values.{Types, Value}
use headwater.CacheManager.Namespaces.{IsName}
use headwater.CacheManager.Keys.{prefix_of}

at_key :
    {A : Type 0} (b : Bool) (o : Option A)
    → (if selects (λ (j : Text) v. b) [] o then none else o) ≡ (if b then none else o)
at_key true none = refl
at_key false none = refl
at_key true (some v) = refl
at_key false (some v) = refl

module _ {T : Types} where
  -- What an entry gives a reader.
  abbrev pub live : (now : ℕ) → Option (Value T × ℕ) → Option (Value T)
  live now none = none
  live now (some (v, expiry)) = if ltb now expiry then some v else none

  -- An entry that a clean-up drops is not live then or later.
  pub live-swept :
      (k : Text) (now later : ℕ) (o : Option (Value T × ℕ))
      → now ≤ later
      → live later (if selects (λ (j : Text) e. leb e.1 now) k o then none else o) ≡ live later o
  live-swept k now later none l = refl
  live-swept k now later (some (v, expiry)) l = elim (Bool-cases (leb expiry now)) [
    | inl e ↦
        let past : expiry ≤ later = omega (arith, l, leb→le expiry now e) in
        rw (e, le→ltb later expiry past) refl
    | inr e ↦ rw e refl
  ]

module _ {srv : Server} {T : Types} where
  -- The keys of the store are distinct, as those of a `dict` are.
  abbrev pub IsStore : Caches srv T → Type 0
  IsStore s = IsDict s.cache_store

  pub lookup-clear_local :
      (k ns : Text) (s : Caches srv T)
      → IsName ns
      → IsStore s
      → lookup k (clear_local (some ns) s).cache_store
        ≡ (if starts_with k (prefix_of (some ns)) then none else lookup k s.cache_store)
  unfolding clear_local
  lookup-clear_local k [] s n h = absurd n
  lookup-clear_local k (c ∷ ns) s n h =
      let prefix = prefix_of (some (c ∷ ns)) in
      lookup-sweep (λ j v. starts_with j prefix) k s.cache_store h
      ∙ at_key (starts_with k prefix) (lookup k s.cache_store)

  pub lookup-cleanup :
      (k : Text) (now : ℕ) (s : Caches srv T)
      → IsStore s
      → lookup k (cleanup now s).cache_store ≡ (
          if selects (λ j e. leb e.1 now) k (lookup k s.cache_store)
          then none
          else lookup k s.cache_store)
  unfolding cleanup
  lookup-cleanup k now s h = lookup-sweep (λ j e. leb e.1 now) k s.cache_store h

  pub delete_remote-store :
      (k : Text) (s : Caches srv T) → (delete_remote k s).1.cache_store ≡ s.cache_store
  unfolding delete_remote
  delete_remote-store k s = elim (Bool-cases (is_available srv s.redis)) [
    | inl e ↦ rw e refl
    | inr e ↦ rw e refl
  ]

  pub clear_remote-store :
      (ns : Option Text) (s : Caches srv T) → (clear_remote ns s).cache_store ≡ s.cache_store
  unfolding clear_remote
  clear_remote-store ns s = elim (Bool-cases (is_available srv s.redis)) [
    | inl e ↦ rw e (ground arith)
    | inr e ↦ rw e refl
  ]

  pub delete_remote-gone :
      (k : Text) (s : Caches srv T)
      → is_available srv s.redis ≡ false
      → delete_remote k s ≡ (false, s)
  unfolding delete_remote
  delete_remote-gone k s h = rw h refl

  pub clear_remote-gone :
      (ns : Option Text) (s : Caches srv T)
      → is_available srv s.redis ≡ false
      → clear_remote ns s ≡ s
  unfolding clear_remote
  clear_remote-gone ns s h = rw h refl

  pub delete_local-found :
      (k : Text) (s : Caches srv T)
      → ((delete_local k s).0 ≡ is_some (lookup k s.cache_store))
        × ((delete_local k s).1.redis ≡ s.redis)
  unfolding delete_local
  delete_local-found k s = elim (Bool-cases (is_some (lookup k s.cache_store))) [
    | inl e ↦ rw e (refl, refl)
    | inr e ↦ rw e (refl, refl)
  ]

  pub lookup-delete_local :
      (k j : Text) (s : Caches srv T)
      → IsStore s
      → lookup j (delete_local k s).1.cache_store
        ≡ (if text_eq k j then none else lookup j s.cache_store)
  unfolding delete_local
  lookup-delete_local k j s h = elim (Option-cases (lookup k s.cache_store)) [
    | inl e ↦ rw e (ground (arith, e, text_eq_iff k j))
    | inr (v, e) ↦ rw e (lookup-remove k j s.cache_store h)
  ]

  read_entry-live :
      (k : Text) (now : ℕ) (v : Value T) (expiry : ℕ) (s : Caches srv T)
      → (read_entry k now (some (v, expiry)) s).0 ≡ live now (some (v, expiry))
  read_entry-live k now v expiry s = elim (Bool-cases (ltb now expiry)) [
    | inl e ↦ rw e refl
    | inr e ↦ rw e refl
  ]

  pub get_local-live_of :
      (k : Text) (now : ℕ) (s : Caches srv T)
      → (get_local k now s).0 ≡ live now (lookup k s.cache_store)
  unfolding get_local
  get_local-live_of k now s = elim (Option-cases (lookup k s.cache_store)) [
    | inl e ↦ rw e refl
    | inr ((v, expiry), e) ↦ rw e (read_entry-live k now v expiry s)
  ]
