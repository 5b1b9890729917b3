-- ===== src/Search/Words.antt =====
-- What the collection of words from a node gives: the first words, up to the limit, of all the words
-- below the node.
use headwater.Prelude.{
  ◌≡◌, ◌∙◌, ◌≤◌, sym, ap, ℕ, ◌-◌, true, false, Option, none, some, List, [], ◌∷◌, ◌++◌, Text,
  length, take, take-append, take_all, lower, Option-cases, take-nil, length-append, length-take,
  leb, leb→le, arith, Bool-cases, inl, inr,
}
use mathlib.Core.List.{append-nil, append_assoc}
use headwater.Dict.{Dict}
use headwater.Search.{
  TrieNode, Children, Trie, node, no_children, child, own, collect, collect_children,
  find_with_prefix, find_node,
}

module _ {V A : Type 0} (item : Text → Dict V → A) where
  -- All the items below a node, in the order of the dictionaries
  unfoldable mutual
    pub words : TrieNode V → List A
    words (node ns e w m) = own item (node ns e w m) ++ words_children ns

    pub words_children : Children V → List A
    words_children no_children = []
    words_children (child c n ns) = words n ++ words_children ns

  module _ (limit : ℕ) where
    -- The results with as many of the items as the limit leaves room for
    abbrev grab : List A → List A → List A
    grab results items = results ++ take (limit - length results) items

    grab-append : (rs xs ys : List A) → grab rs (xs ++ ys) ≡ grab (grab rs xs) ys
    grab-append rs xs ys =
        let k = limit - length rs in
        let room : k - length xs ≡ limit - length (rs ++ take k xs) =
          omega (arith, length-append rs (take k xs), length-take k xs) in
        ap (λ zs. rs ++ zs) (take-append k xs ys)
        ∙ sym (append_assoc rs (take k xs) (take (k - length xs) ys))
        ∙ ap (λ j. (rs ++ take k xs) ++ take j ys) room

    grab_full : (rs xs : List A) → leb limit (length rs) ≡ true → grab rs xs ≡ rs
    grab_full rs xs h =
        let none_left : limit - length rs ≡ 0 = omega (arith, leb→le limit (length rs) h) in
        rw none_left (append-nil rs)

    length-own : (n : TrieNode V) → length (own item n) ≤ 1
    length-own (node ns false w m) = omega arith
    length-own (node ns true none m) = omega arith
    length-own (node ns true (some []) m) = omega arith
    length-own (node ns true (some (c ∷ w)) m) = omega arith

    grab-own :
        (rs : List A) (n : TrieNode V)
        → leb limit (length rs) ≡ false
        → grab rs (own item n) ≡ rs ++ own item n
    grab-own rs n h =
        ap (λ zs. rs ++ zs) (take_all _ (own item n) (ground (arith, length-own n, h)))

    mutual
      unfolding collect words

      collect-eq : (n : TrieNode V) (rs : List A) → collect item limit n rs ≡ grab rs (words n)
      collect-eq (node ns e w m) rs = elim (Bool-cases (leb limit (length rs))) [
        | inl full ↦ rw full (sym (grab_full rs _ full))
        | inr room ↦ rw room (
            collect_children-eq ns (rs ++ own item (node ns e w m))
            ∙ ap (λ z. grab z (words_children ns)) (sym (grab-own rs (node ns e w m) room))
            ∙ sym (grab-append rs (own item (node ns e w m)) (words_children ns)))
      ]

      collect_children-eq :
          (ns : Children V) (rs : List A)
          → collect_children item limit ns rs ≡ grab rs (words_children ns)
      collect_children-eq no_children rs =
          sym (ap (λ zs. rs ++ zs) (take-nil (limit - length rs)) ∙ append-nil rs)
      collect_children-eq (child c n ns) rs = elim (Bool-cases (leb limit (length rs))) [
        | inl full ↦ rw full (sym (grab_full rs _ full))
        | inr room ↦ rw room (
            collect_children-eq ns (collect item limit n rs)
            ∙ ap (λ z. grab z (words_children ns)) (collect-eq n rs)
            ∙ sym (grab-append rs (words n) (words_children ns)))
      ]

  abbrev pub words_from : Option (TrieNode V) → List A
  words_from none = []
  words_from (some n) = words n

  pub find_with_prefix-eq :
      (limit : ℕ) (prefix : Text) (t : Trie V)
      → find_with_prefix item limit prefix t
        ≡ take limit (words_from (find_node (lower prefix) t.root))
  unfolding find_with_prefix
  find_with_prefix-eq limit prefix t = elim (Option-cases (find_node (lower prefix) t.root)) [
    | inl e ↦ rw e (sym (take-nil limit))
    | inr (n, e) ↦ rw e (collect-eq limit n [] ∙ ap (λ k. take k (words n)) (omega arith))
  ]
