-- ===== src/Search/Entries.antt =====
-- A trie as a map from paths: what a reading of the node at a path becomes when a word is inserted.
use headwater.Prelude.{
  ◌≡◌, ◌∙◌, refl, sym, ap, ℕ, Bool, true, false, Option, none, some, [], ◌∷◌, ◌++◌, Text, text_eq,
  starts_with, is_some, ◌==◌, ==_iff, arith, Bool-cases, Option-cases, inl, inr, if◌then◌else◌,
}
use headwater.Dict.{Dict}
use headwater.Search.{
  TrieNode, Children, node, no_children, child, new_node, find_child, update_child, find_node,
  insert_node, ends_at,
}

module _ {V : Type 0} where
  abbrev pub or_new : Option (TrieNode V) → TrieNode V
  or_new none = new_node
  or_new (some n) = n

  pub find_child-update_child :
      (c d : ℕ) (f : TrieNode V → TrieNode V) (ns : Children V)
      → find_child d (update_child c f ns)
        ≡ (if c == d then some (f (or_new (find_child c ns))) else find_child d ns)
  unfolding find_child update_child
  find_child-update_child c d f no_children = refl
  find_child-update_child c d f (child b n ns) =
      ground (arith, find_child-update_child c d f ns, ==_iff b c, ==_iff b d, ==_iff c d)

  -- The node at the path below a child, where there is one
  abbrev pub below : Text → Option (TrieNode V) → Option (TrieNode V)
  below p none = none
  below p (some n) = find_node p n

  pub find_node-cons :
      (c : ℕ) (p : Text) (ns : Children V) (e : Bool) (w : Option Text) (m : Dict V)
      → find_node (c ∷ p) (node ns e w m) ≡ below p (find_child c ns)
  unfolding find_node
  find_node-cons c p ns e w m = elim (Option-cases (find_child c ns)) [
    | inl x ↦ rw (x, find_node) refl
    | inr (n, x) ↦ rw (x, find_node) refl
  ]

  -- A reading of the node at a path that tells nothing of its children, nor a new node from none
  module _ {R : Type 0} (g : Option (TrieNode V) → R)
      (flat : (ns ns' : Children V) (e : Bool) (w : Option Text) (m : Dict V)
        → g (some (node ns e w m)) ≡ g (some (node ns' e w m)))
      (fresh : g (some new_node) ≡ g none) where
    below-or_new : (p : Text) (o : Option (TrieNode V)) → g (find_node p (or_new o)) ≡ g (below p o)
    unfolding find_node find_child
    below-or_new [] none = fresh
    below-or_new (c ∷ p) none = refl
    below-or_new p (some n) = refl

    find_node-insert_node :
        (q p : Text) (word : Text) (m : Dict V) (r : R) (n : TrieNode V)
        → ((n : TrieNode V) → g (some (insert_node [] word m n)) ≡ r)
        → g (find_node p (insert_node q word m n)) ≡ (if text_eq q p then r else g (find_node p n))
    unfolding insert_node text_eq find_node
    find_node-insert_node [] [] word m r n h = h n
    find_node-insert_node [] (d ∷ p) word [] r (node ns e w' m') h = refl
    find_node-insert_node [] (d ∷ p) word (x ∷ m) r (node ns e w' m') h = refl
    find_node-insert_node (b ∷ q) [] word m r (node ns e w' m') h = flat _ _ e w' m'
    find_node-insert_node (b ∷ q) (d ∷ p) word m r (node ns e w' m') h =
        let f = insert_node q word m in
        let before = find_node-cons d p ns e w' m' in
        ap g (find_node-cons d p (update_child b f ns) e w' m')
        ∙ ap (λ o. g (below p o)) (find_child-update_child b d f ns)
        ∙ elim (Bool-cases (b == d)) [
          | inl same ↦
              (let b_is_d = (==_iff b d).0 same in
                let old : g (find_node p (or_new (find_child b ns)))
                    ≡ g (find_node (d ∷ p) (node ns e w' m')) =
                  below-or_new p (find_child b ns)
                  ∙ ap (λ k. g (below p (find_child k ns))) b_is_d
                  ∙ ap g (sym before) in
                rw same (
                  find_node-insert_node q p word m r (or_new (find_child b ns)) h
                  ∙ ap (λ z. if text_eq q p then r else z) old))
          | inr other ↦ rw other (ap g (sym before))
        ]

  abbrev pub word_of : Option (TrieNode V) → Option Text
  word_of (some (node ns true (some (c ∷ w)) m)) = some (c ∷ w)
  word_of o = none

  -- The word that ends at the path.
  unfoldable pub entry : Text → TrieNode V → Option Text
  entry p n = word_of (find_node p n)

  word_of_flat :
      (ns ns' : Children V) (e : Bool) (w : Option Text) (m : Dict V)
      → word_of (some (node ns e w m)) ≡ word_of (some (node ns' e w m))
  word_of_flat ns ns' false w m = refl
  word_of_flat ns ns' true none m = refl
  word_of_flat ns ns' true (some []) m = refl
  word_of_flat ns ns' true (some (c ∷ w)) m = refl

  word_of_end :
      (c : ℕ) (w : Text) (m : Dict V) (n : TrieNode V)
      → word_of (some (insert_node [] (c ∷ w) m n)) ≡ some (c ∷ w)
  unfolding insert_node
  word_of_end c w [] (node ns e w' m') = refl
  word_of_end c w (x ∷ m) (node ns e w' m') = refl

  pub entry-insert_node :
      (q p : Text) (c : ℕ) (w : Text) (m : Dict V) (n : TrieNode V)
      → entry p (insert_node q (c ∷ w) m n) ≡ (if text_eq q p then some (c ∷ w) else entry p n)
  unfolding entry
  entry-insert_node q p c w m n =
      find_node-insert_node word_of word_of_flat refl q p (c ∷ w) m _ n (word_of_end c w m)

  end_ends :
      (word : Text) (m : Dict V) (n : TrieNode V) → ends_at (some (insert_node [] word m n)) ≡ true
  unfolding insert_node
  end_ends word [] (node ns e w' m') = refl
  end_ends word (x ∷ m) (node ns e w' m') = refl

  pub ends_at-insert_node :
      (q p word : Text) (m : Dict V) (n : TrieNode V)
      → ends_at (find_node p (insert_node q word m n))
        ≡ (if text_eq q p then true else ends_at (find_node p n))
  ends_at-insert_node q p word m n =
      find_node-insert_node ends_at (λ ns ns' e w m. refl) refl q p word m _ n (end_ends word m)

  made :
      (q p : Text) (o : Option (TrieNode V))
      → (if starts_with q p then true else is_some (find_node p (or_new o)))
        ≡ (if starts_with q p then true else is_some (below p o))
  unfolding starts_with find_node find_child
  made [] [] o = refl
  made (c ∷ q) [] o = refl
  made q (c ∷ p) none = refl
  made q (c ∷ p) (some n) = refl

  -- Inserting a word makes the nodes of all its prefixes.
  pub find_node-insert_node_iff :
      (q p word : Text) (m : Dict V) (n : TrieNode V)
      → is_some (find_node p (insert_node q word m n))
        ≡ (if starts_with q p then true else is_some (find_node p n))
  unfolding insert_node find_node starts_with
  find_node-insert_node_iff [] [] word m n = refl
  find_node-insert_node_iff (b ∷ q) [] word m (node ns e w' m') = refl
  find_node-insert_node_iff [] (d ∷ p) word [] (node ns e w' m') = refl
  find_node-insert_node_iff [] (d ∷ p) word (x ∷ m) (node ns e w' m') = refl
  find_node-insert_node_iff (b ∷ q) (d ∷ p) word m (node ns e w' m') =
      let f = insert_node q word m in
      let before = find_node-cons d p ns e w' m' in
      ap is_some (find_node-cons d p (update_child b f ns) e w' m')
      ∙ ap (λ o. is_some (below p o)) (find_child-update_child b d f ns)
      ∙ elim (Bool-cases (b == d)) [
        | inl same ↦
            (let b_is_d = (==_iff b d).0 same in
              rw same (
                find_node-insert_node_iff q p word m (or_new (find_child b ns))
                ∙ made q p (find_child b ns)
                ∙ ap (λ k. if starts_with q p then true else is_some (below p (find_child k ns)))
                    b_is_d
                ∙ ap (λ o. if starts_with q p then true else is_some o) (sym before)))
        | inr other ↦ rw other (ap is_some (sym before))
      ]

  pub find_node-append :
      (q p : Text) (n : TrieNode V) → find_node (q ++ p) n ≡ below p (find_node q n)
  unfolding find_node
  find_node-append [] p n = refl
  find_node-append (c ∷ q) p (node ns e w m) = elim (Option-cases (find_child c ns)) [
    | inl x ↦ rw (x, find_node) refl
    | inr (n, x) ↦ rw (x, find_node) (find_node-append q p n)
  ]
