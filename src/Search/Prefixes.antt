-- ===== src/Search/Prefixes.antt =====
-- The search for a prefix against the list of the words that were inserted.
use mathlib.Core.Path.{subst}
use headwater.Prelude.{
  starts_with-split, starts_with_append, ◌==◌, ◌≡◌, ◌∙◌, ◌↔◌, sym, ap, ℕ, true, Option, none, some,
  List, [], ◌∷◌, ◌++◌, Text, text_eq, text_eq_iff, lower, take, Bool-cases, Option-cases, inl, inr,
}
use headwater.Prelude
use headwater.Dict.{Dict}
use headwater.Dict.Sweep.{contains}
use headwater.Search.{
  Children, no_children, child, node, child, Children, node, TrieNode, find_child, find_node,
  insert, find_all_with_prefix,
}
use headwater.Search.Entries.{entry, word_of, find_node-append, below, find_node-cons}
use headwater.Search.Words.{words_from, find_with_prefix-eq}
use headwater.Search.Members.{
  IsTrie, AreTries, the_word, insert_node-IsTrie, words-contains, contains-entry,
}
use headwater.Search.Inserted.{inserted, latest, entry-inserted}

no_word_at : (x : Text) → ◌≡◌ {A = Option Text} none (some x) → ⊥
no_word_at x h = cc

module _ {V : Type 0} where
  inserted-IsTrie : (ws : List (Text × Dict V)) → IsTrie (inserted ws).root
  unfolding insert IsTrie
  inserted-IsTrie [] = tt
  inserted-IsTrie (([], m) ∷ ws) = inserted-IsTrie ws
  inserted-IsTrie ((c ∷ w, m) ∷ ws) =
      insert_node-IsTrie (lower (c ∷ w)) (c ∷ w) m (inserted ws).root (inserted-IsTrie ws)

  lower-latest : (p x : Text) (ws : List (Text × Dict V)) → latest p ws ≡ some x → lower x ≡ p
  lower-latest p x [] h = absurd (cc (h))
  lower-latest p x (([], m) ∷ ws) h = lower-latest p x ws h
  lower-latest p x ((c ∷ w, m) ∷ ws) h = elim (Bool-cases (text_eq (lower (c ∷ w)) p)) [
    | inl e ↦
        (let q : c ∷ w ≡ x = cc (rw e at h) in
          sym (ap lower q) ∙ (text_eq_iff (lower (c ∷ w)) p).0 e)
    | inr e ↦ lower-latest p x ws (rw e at h)
  ]

  entry-append :
      (q p : Text) (n : TrieNode V) → entry (q ++ p) n ≡ word_of (below p (find_node q n))
  unfolding entry
  entry-append q p n = ap word_of (find_node-append q p n)

  not_found : (m : TrieNode V) → ◌≡◌ {A = Option (TrieNode V)} none (some m) → ⊥
  not_found m h = cc

  AreTries-find_child :
      (c : ℕ) (ns : Children V) (n : TrieNode V) → AreTries ns → find_child c ns ≡ some n → IsTrie n
  unfolding IsTrie find_child
  AreTries-find_child c no_children n t h = absurd (cc (h))
  AreTries-find_child c (child d m ns) n (a, b, t) h = elim (Bool-cases (d == c)) [
    | inl e ↦ subst IsTrie (cc (rw e at h)) b
    | inr e ↦ AreTries-find_child c ns n t (rw e at h)
  ]

  IsTrie-find_node : (q : Text) (n m : TrieNode V) → IsTrie n → find_node q n ≡ some m → IsTrie m
  unfolding IsTrie find_node
  IsTrie-find_node [] n m t h = subst IsTrie (cc (h)) t
  IsTrie-find_node (c ∷ q) (node ns e w d) m t h = elim (Option-cases (find_child c ns)) [
    | inl x ↦ absurd (not_found m (sym (find_node-cons c q ns e w d ∙ ap (below q) x) ∙ h))
    | inr (n, x) ↦
        IsTrie-find_node q n m (AreTries-find_child c ns n t x)
          (sym (find_node-cons c q ns e w d ∙ ap (below q) x) ∙ h)
  ]

  entry_of :
      (ws : List (Text × Dict V)) (q s x : Text) (o : Option (TrieNode V))
      → find_node q (inserted ws).root ≡ o
      → lower x ≡ q ++ s
      → entry (lower x) (inserted ws).root ≡ word_of (below s o)
  entry_of ws q s x o e x_is =
      ap (λ z. entry z (inserted ws).root) x_is
      ∙ entry-append q s (inserted ws).root
      ∙ ap (λ z. word_of (below s z)) e

  -- Below the node of a prefix stand the words inserted last that start with it in lower case.
  pub words_from_iff :
      (ws : List (Text × Dict V)) (q x : Text)
      → (contains x (words_from the_word (find_node q (inserted ws).root)) ≡ true)
        ↔ ((latest (lower x) ws ≡ some x) × (Prelude.starts_with (lower x) q ≡ true))
  unfolding entry
  words_from_iff ws q x = elim (Option-cases (find_node q (inserted ws).root)) [
    | inl e ↦ rw e (
      λ h. absurd (cc (h)),
      λ w.
          let (s, x_is) = starts_with-split (lower x) q w.1 in
          absurd (
            no_word_at x (sym (entry_of ws q s x none e x_is) ∙ entry-inserted (lower x) ws ∙ w.0)),
    )
    | inr (n, e) ↦ rw e (
      λ h.
          let (p, is_x) = contains-entry n x (IsTrie-find_node q _ n (inserted-IsTrie ws) e) h in
          let l : latest (q ++ p) ws ≡ some x =
            sym (entry-inserted (q ++ p) ws)
            ∙ entry-append q p (inserted ws).root
            ∙ ap (λ o. word_of (below p o)) e
            ∙ is_x in
          let x_is : lower x ≡ q ++ p = lower-latest (q ++ p) x ws l in
          (
            ap (λ z. latest z ws) x_is ∙ l,
            ap (λ z. Prelude.starts_with z q) x_is ∙ starts_with_append q p,
          ),
      λ w.
          let (s, x_is) = starts_with-split (lower x) q w.1 in
          words-contains n s x
            (sym (entry_of ws q s x (some n) e x_is) ∙ entry-inserted (lower x) ws ∙ w.0),
    )
  ]

  -- After any insertions the search for a prefix gives the first words, up to the limit, of one list,
  -- which holds exactly the words that were inserted last of those that agree with them in lower
  -- case, and that start with the prefix in lower case.
  pub find_all_with_prefix-inserted :
      (ws : List (Text × Dict V)) (prefix : Text)
      → (all : List Text) × ((limit : ℕ)
          → find_all_with_prefix prefix limit (inserted ws) ≡ take limit all)
        × ((x : Text)
            → (contains x all ≡ true) ↔ (
                (latest (lower x) ws ≡ some x)
                × (Prelude.starts_with (lower x) (lower prefix) ≡ true)))
  unfolding find_all_with_prefix
  find_all_with_prefix-inserted ws prefix = (
    words_from the_word (find_node (lower prefix) (inserted ws).root),
    λ limit. find_with_prefix-eq the_word limit prefix (inserted ws),
    λ x. words_from_iff ws (lower prefix) x,
  )
