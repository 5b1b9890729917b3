-- ===== src/Search.antt =====
-- The trie of app/core/search.py, which keeps the suggestions of the autocomplete service. A node's
-- `children` are a dictionary from characters, in insertion order; metadata is a dictionary with
-- values of any type. `lower` is that of the ASCII letters.
pub mod Entries
pub mod Words
pub mod Members
pub mod Inserted
pub mod Prefixes
pub mod Suggestions
pub mod Walk
pub mod Categories
use headwater.Prelude.{
  ℕ, ◌+◌, Bool, true, false, Option, none, some, List, [], ◌∷◌, ◌++◌, Text, lower, leb, ◌==◌,
  is_some, length, if◌then◌else◌,
}
use headwater.Dict.{Dict}

module _ (V : Type 0) where
  mutual
    pub data TrieNode : Type 0 where
      node :
          (children : Children) (is_end_of_word : Bool) (word : Option Text) (metadata : Dict V)
          → TrieNode

    pub data Children : Type 0 where
      no_children : Children
      child : (char : ℕ) → TrieNode → Children → Children

  pub record Trie : Type 0 where
    pub root : TrieNode
    pub size : ℕ

module _ {V : Type 0} where
  abbrev pub new_node : TrieNode V
  new_node = node no_children false none []

  abbrev pub empty_trie : Trie V
  empty_trie = record { root = new_node; size = 0 }

  -- `node.children[char]`, where it is there
  unfoldable pub find_child : ℕ → Children V → Option (TrieNode V)
  find_child c no_children = none
  find_child c (child d n ns) = if d == c then some n else find_child c ns

  -- `node.children[char]` after the change `f`, made first if it is not there
  unfoldable pub update_child : ℕ → (TrieNode V → TrieNode V) → Children V → Children V
  update_child c f no_children = child c (f new_node) no_children
  update_child c f (child d n ns) =
      if d == c then child d (f n) ns else child d n (update_child c f ns)

  unfoldable pub find_node : (prefix : Text) → TrieNode V → Option (TrieNode V)
  find_node [] n = some n
  find_node (c ∷ p) (node ns e w m) = elim (find_child c ns) [
    | none ↦ none
    | some n ↦ find_node p n
  ]

  abbrev pub is_end : TrieNode V → Bool
  is_end (node ns e w m) = e

  -- The changes of `insert` at the node for the word, and along the path to it.
  abbrev end_word : (word : Text) (metadata : Dict V) → TrieNode V → TrieNode V
  end_word word [] (node ns e w m) = node ns true (some word) m
  end_word word (x ∷ metadata) (node ns e w m) = node ns true (some word) (x ∷ metadata)

  unfoldable pub insert_node : (path word : Text) (metadata : Dict V) → TrieNode V → TrieNode V
  insert_node [] word metadata n = end_word word metadata n
  insert_node (c ∷ path) word metadata (node ns e w m) =
      node (update_child c (insert_node path word metadata) ns) e w m

  -- `node is not None and node.is_end_of_word`
  abbrev pub ends_at : Option (TrieNode V) → Bool
  ends_at none = false
  ends_at (some n) = is_end n

  unfoldable pub search : (word : Text) → Trie V → Bool
  search word t = ends_at (find_node (lower word) t.root)

  unfoldable pub starts_with : (prefix : Text) → Trie V → Bool
  starts_with prefix t = is_some (find_node (lower prefix) t.root)

  -- A node that is made on the way is no end of a word, so the test for the size reads the trie as
  -- it was.
  unfoldable pub insert : (word : Text) (metadata : Dict V) → Trie V → Trie V
  unfolding search
  insert [] metadata t = t
  insert (c ∷ word) metadata t = record {
    root = insert_node (lower (c ∷ word)) (c ∷ word) metadata t.root;
    size = if search (c ∷ word) t then t.size else t.size + 1;
  }

  -- `node.is_end_of_word and node.word`: what the node adds to the results.
  abbrev pub own : {A : Type 0} → (Text → Dict V → A) → TrieNode V → List A
  own item (node ns true (some (c ∷ w)) m) = item (c ∷ w) m ∷ []
  own item (node ns e w m) = []

module _ {V A : Type 0} (item : Text → Dict V → A) (limit : ℕ) where
  -- `_collect_words` and `_collect_words_with_metadata`, which differ in the item that is added
  unfoldable mutual
    pub collect : TrieNode V → List A → List A
    collect (node ns e w m) results =
        let rest = collect_children ns (results ++ own item (node ns e w m)) in
        if leb limit (length results) then results else rest

    pub collect_children : Children V → List A → List A
    collect_children no_children results = results
    collect_children (child c n ns) results =
        let rest = collect_children ns (collect n results) in
        if leb limit (length results) then results else rest

  abbrev collect_from : Option (TrieNode V) → List A
  collect_from none = []
  collect_from (some n) = collect n []

  unfoldable pub find_with_prefix : (prefix : Text) → Trie V → List A
  find_with_prefix prefix t = collect_from (find_node (lower prefix) t.root)

module _ {V : Type 0} where
  unfoldable pub find_all_with_prefix : (prefix : Text) (limit : ℕ) → Trie V → List Text
  find_all_with_prefix prefix limit = find_with_prefix (λ w m. w) limit prefix

  unfoldable pub find_all_with_prefix_and_metadata :
      (prefix : Text) (limit : ℕ) → Trie V → List (Text × Dict V)
  find_all_with_prefix_and_metadata prefix limit = find_with_prefix (λ w m. (w, m)) limit prefix
