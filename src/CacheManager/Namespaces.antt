-- ===== src/CacheManager/Namespaces.antt =====
-- The namespaces of the cache's keys.
use mathlib.Core.List.{append_assoc}
use headwater.Prelude.{
  sym, ◌≡◌, ◌∙◌, refl, ap, ◌≢◌, Bool-cases, inl, inr, true, false, some, [], ◌∷◌, ◌++◌, Text, codes,
  starts_with, NoColon, starts_with-append, starts_at_colon, own_prefix, append-cancel,
  split_at_colon,
}
use headwater.CacheManager.Keys.{generate_key, prefix_of}

-- A namespace that is not empty and has no colon in it.
abbrev pub IsName : Text → Type 0
IsName [] = ⊥
IsName (c ∷ ns) = NoColon (c ∷ ns)

prefix_of-name : (ns : Text) → IsName ns → prefix_of (some ns) ≡ codes "cache:" ++ (ns ++ b':' ∷ [])
prefix_of-name [] h = absurd h
prefix_of-name (c ∷ ns) h = refl

IsName-NoColon : (ns : Text) → IsName ns → NoColon ns
IsName-NoColon [] h = absurd h
IsName-NoColon (c ∷ ns) h = h

generate_key-name :
    (key ns : Text) → IsName ns → generate_key key (some ns) ≡ codes "cache:" ++ (ns ++ b':' ∷ key)
unfolding generate_key
generate_key-name key ns h =
    ap (λ p. p ++ key) (prefix_of-name ns h)
    ∙ append_assoc (codes "cache:") (ns ++ b':' ∷ []) key
    ∙ ap (λ t. codes "cache:" ++ t) (append_assoc ns (b':' ∷ []) key)

-- In namespaces without colons, a key of the cache tells its namespace and its base key.
pub generate_key-injective :
    (key key' ns ns' : Text)
    → IsName ns
    → IsName ns'
    → generate_key key (some ns) ≡ generate_key key' (some ns')
    → (ns ≡ ns') × (key ≡ key')
generate_key-injective key key' ns ns' n n' e =
    split_at_colon ns ns' key key' (IsName-NoColon ns n) (IsName-NoColon ns' n') (
      append-cancel (codes "cache:") _ _
        (sym (generate_key-name key ns n) ∙ e ∙ generate_key-name key' ns' n'))

-- A key has the prefix of its own namespace, and of no other.
key-prefix :
    (key ns ns' : Text)
    → IsName ns
    → IsName ns'
    → starts_with (generate_key key (some ns)) (prefix_of (some ns'))
      ≡ starts_with (ns ++ b':' ∷ key) (ns' ++ b':' ∷ [])
key-prefix key ns ns' n n' =
    rw (generate_key-name key ns n, prefix_of-name ns' n')
      (starts_with-append (codes "cache:") (ns ++ b':' ∷ key) (ns' ++ b':' ∷ []))

pub own_key-prefix :
    (key ns : Text)
    → IsName ns
    → starts_with (generate_key key (some ns)) (prefix_of (some ns)) ≡ true
own_key-prefix key ns n = key-prefix key ns ns n n ∙ own_prefix ns key

pub other_key-prefix :
    (key ns ns' : Text)
    → IsName ns
    → IsName ns'
    → ns ≢ ns'
    → starts_with (generate_key key (some ns)) (prefix_of (some ns')) ≡ false
other_key-prefix key ns ns' n n' d =
    elim (Bool-cases (starts_with (generate_key key (some ns)) (prefix_of (some ns')))) [
      | inr e ↦ e
      | inl e ↦ absurd (
          d (
            starts_at_colon ns ns' key (IsName-NoColon ns n) (IsName-NoColon ns' n')
              (sym (key-prefix key ns ns' n n') ∙ e)))
    ]
