-- ===== src/Search/Members.antt =====
-- The words below a node are those that its paths lead to.
use mathlib.Core.Path.{subst}
use headwater.Prelude.{
  ◌≡◌, ◌∙◌, refl, sym, ap, ℕ, true, false, ◌⊎◌, Option, none, some, List, [], ◌∷◌, ◌++◌, Text,
  text_eq, text_eq_iff, ◌==◌, ==_iff, arith, Bool-cases, inl, inr, if◌then◌else◌,
}
use headwater.Dict.{Dict}
use headwater.Dict.Sweep.{contains}
use headwater.Search.{
  TrieNode, Children, node, no_children, child, new_node, find_child, update_child, find_node,
  insert_node, own,
}
use headwater.Search.Entries.{
  entry, find_node-cons, below, word_of, or_new, find_child-update_child,
}
use headwater.Search.Words.{words, words_children}

abbrev pub the_word : {V : Type 0} → Text → Dict V → Text
the_word w m = w

pub contains-append :
    (x : Text) (xs ys : List Text)
    → contains x (xs ++ ys) ≡ (if contains x xs then true else contains x ys)
contains-append x [] ys = refl
contains-append x (y ∷ xs) ys = ground (arith, contains-append x xs ys)

-- The two ways to be in a join of lists
contains-cases :
    (x : Text) (xs ys : List Text)
    → contains x (xs ++ ys) ≡ true
    → (contains x xs ≡ true) ⊎ (contains x ys ≡ true)
contains-cases x xs ys h = elim (Bool-cases (contains x xs)) [
  | inl e ↦ inl e
  | inr e ↦ inr (sym (contains-append x xs ys ∙ rw e refl) ∙ h)
]

contains_left : (x : Text) (xs ys : List Text) → contains x xs ≡ true → contains x (xs ++ ys) ≡ true
contains_left x xs ys e = contains-append x xs ys ∙ rw e refl

contains_right :
    (x : Text) (xs ys : List Text) → contains x ys ≡ true → contains x (xs ++ ys) ≡ true
contains_right x xs ys e = contains-append x xs ys ∙ ground (arith, e)

not_below : (x : Text) → ◌≡◌ {A = Option Text} none (some x) → ⊥
not_below x h = cc

module _ {V : Type 0} where
  -- The characters of a node's children are distinct, at every node.
  unfoldable mutual
    pub IsTrie : TrieNode V → Type 0
    IsTrie (node ns e w m) = AreTries ns

    pub AreTries : Children V → Type 0
    AreTries no_children = Unit {0}
    AreTries (child c n ns) = (find_child c ns ≡ none) × IsTrie n × AreTries ns

  or_new-IsTrie :
      (o : Option (TrieNode V)) → ((n : TrieNode V) → o ≡ some n → IsTrie n) → IsTrie (or_new o)
  unfolding IsTrie
  or_new-IsTrie none h = tt
  or_new-IsTrie (some n) h = h n refl

  update_child-AreTries :
      (c : ℕ) (f : TrieNode V → TrieNode V) (ns : Children V)
      → ((n : TrieNode V) → IsTrie n → IsTrie (f n))
      → AreTries ns
      → AreTries (update_child c f ns)
  unfolding IsTrie update_child find_child
  update_child-AreTries c f no_children h t = (refl, h new_node tt, tt)
  update_child-AreTries c f (child d n ns) h (a, b, t) = elim (Bool-cases (d == c)) [
    | inl e ↦ rw e (a, h n b, t)
    | inr e ↦
        let fresh : find_child d (update_child c f ns) ≡ none =
          find_child-update_child c d f ns ∙ ground (arith, a, e, ==_iff c d, ==_iff d c) in
        rw e (fresh, b, update_child-AreTries c f ns h t)
  ]

  pub insert_node-IsTrie :
      (p w : Text) (m : Dict V) (n : TrieNode V) → IsTrie n → IsTrie (insert_node p w m n)
  unfolding IsTrie insert_node
  insert_node-IsTrie [] w [] (node ns e w' m') t = t
  insert_node-IsTrie [] w (x ∷ m) (node ns e w' m') t = t
  insert_node-IsTrie (c ∷ p) w m (node ns e w' m') t =
      update_child-AreTries c (insert_node p w m) ns (λ n h. insert_node-IsTrie p w m n h) t

  entry-nil : (n : TrieNode V) → entry [] n ≡ word_of (some n)
  unfolding entry find_node
  entry-nil n = refl

  own_word :
      (x : Text) (n : TrieNode V) → word_of (some n) ≡ some x → contains x (own the_word n) ≡ true
  own_word x (node ns false w m) h = absurd (cc (h))
  own_word x (node ns true none m) h = absurd (cc (h))
  own_word x (node ns true (some []) m) h = absurd (cc (h))
  own_word x (node ns true (some (c ∷ w)) m) h =
      let e : c ∷ w ≡ x = cc (h) in rw ((text_eq_iff (c ∷ w) x).1 e) refl

  word_own :
      (x : Text) (n : TrieNode V) → contains x (own the_word n) ≡ true → word_of (some n) ≡ some x
  word_own x (node ns false w m) h = absurd (cc (h))
  word_own x (node ns true none m) h = absurd (cc (h))
  word_own x (node ns true (some []) m) h = absurd (cc (h))
  word_own x (node ns true (some (c ∷ w)) m) h = elim (Bool-cases (text_eq (c ∷ w) x)) [
    | inl e ↦ ap some ((text_eq_iff (c ∷ w) x).0 e)
    | inr e ↦ absurd (ground (arith, e, h))
  ]

  mutual
    unfolding words find_child entry

    pub words-contains :
        (n : TrieNode V) (p x : Text) → entry p n ≡ some x → contains x (words the_word n) ≡ true
    words-contains (node ns e w m) [] x h =
        contains_left x (own the_word (node ns e w m)) (words_children the_word ns)
          (own_word x (node ns e w m) (sym (entry-nil (node ns e w m)) ∙ h))
    words-contains (node ns e w m) (c ∷ p) x h =
        contains_right x (own the_word (node ns e w m)) (words_children the_word ns)
          (words_children-contains ns c p x (sym (ap word_of (find_node-cons c p ns e w m)) ∙ h))

    words_children-contains :
        (ns : Children V) (c : ℕ) (p x : Text)
        → word_of (below p (find_child c ns)) ≡ some x
        → contains x (words_children the_word ns) ≡ true
    words_children-contains no_children c p x h = absurd (cc (h))
    words_children-contains (child d n ns) c p x h = elim (Bool-cases (d == c)) [
      | inl e ↦
          contains_left x (words the_word n) (words_children the_word ns)
            (words-contains n p x (rw e at h))
      | inr e ↦
          contains_right x (words the_word n) (words_children the_word ns)
            (words_children-contains ns c p x (rw e at h))
    ]

  mutual
    unfolding words find_child entry IsTrie

    pub contains-entry :
        (n : TrieNode V) (x : Text)
        → IsTrie n
        → contains x (words the_word n) ≡ true
        → (p : Text) × (entry p n ≡ some x)
    contains-entry (node ns e w m) x t h =
        elim (contains-cases x (own the_word (node ns e w m)) (words_children the_word ns) h) [
          | inl a ↦ ([], entry-nil (node ns e w m) ∙ word_own x (node ns e w m) a)
          | inr b ↦
              let (c, p, q) = contains_children-entry ns x t b in
              (c ∷ p, ap word_of (find_node-cons c p ns e w m) ∙ q)
        ]

    contains_children-entry :
        (ns : Children V) (x : Text)
        → AreTries ns
        → contains x (words_children the_word ns) ≡ true
        → (c : ℕ) × (p : Text) × (word_of (below p (find_child c ns)) ≡ some x)
    contains_children-entry no_children x t h = absurd (cc (h))
    contains_children-entry (child d n ns) x (a, b, t) h =
        elim (contains-cases x (words the_word n) (words_children the_word ns) h) [
          | inl i ↦ (let (p, q) = contains-entry n x b i in (d, p, rw ((==_iff d d).1 refl) q))
          | inr i ↦
              (let (c, p, q) = contains_children-entry ns x t i in
                (
                  c,
                  p,
                  elim (Bool-cases (d == c)) [
                    | inl e ↦ absurd (
                        not_below x (
                          sym (
                            ap (λ o. word_of (below p o))
                              (subst (λ k. find_child k ns ≡ none) ((==_iff d c).0 e) a))
                          ∙ q))
                    | inr e ↦ rw e q
                  ],
                ))
        ]
