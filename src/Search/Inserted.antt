-- ===== src/Search/Inserted.antt =====
-- A trie against the list of the words that were inserted.
use headwater.Prelude.{
  ◌≡◌, ◌∙◌, refl, ap, ℕ, ◌+◌, Bool, true, false, Option, none, some, List, [], ◌∷◌, Text, text_eq,
  lower, any, is_empty, is_some, arith, Bool-cases, inl, inr, if◌then◌else◌,
}
use headwater.Prelude
use headwater.Dict.{Dict}
use headwater.Search.{
  Trie, new_node, empty_trie, ends_at, find_child, find_node, insert, search, starts_with,
}
use headwater.Search.Entries.{
  entry, entry-insert_node, ends_at-insert_node, find_node-insert_node_iff,
}

-- What a trie without words says of a path
module _ (V : Type 0) where
  entry-new_node : (p : Text) → entry p (new_node {V = V}) ≡ none
  unfolding entry find_node find_child
  entry-new_node [] = refl
  entry-new_node (c ∷ p) = refl

  ends_at-new_node : (p : Text) → ends_at (find_node p (new_node {V = V})) ≡ false
  unfolding find_node find_child
  ends_at-new_node [] = refl
  ends_at-new_node (c ∷ p) = refl

  find_node-new_node :
      (p : Text) → is_some (find_node p (new_node {V = V})) ≡ (if is_empty p then true else false)
  unfolding find_node find_child
  find_node-new_node [] = refl
  find_node-new_node (c ∷ p) = refl

true_comm :
    (a b c : Bool)
    → (if a then true else if b then true else c) ≡ (if b then true else if a then true else c)
true_comm true true c = refl
true_comm true false c = refl
true_comm false true c = refl
true_comm false false c = refl

module _ {V : Type 0} where
  -- The trie after the insertions, of which the last comes first.
  abbrev pub inserted : List (Text × Dict V) → Trie V
  inserted [] = empty_trie
  inserted ((w, m) ∷ ws) = insert w m (inserted ws)

  -- The last word inserted that has this form in lower case
  abbrev pub latest : Text → List (Text × Dict V) → Option Text
  latest p [] = none
  latest p (([], m) ∷ ws) = latest p ws
  latest p ((c ∷ w, m) ∷ ws) = if text_eq (lower (c ∷ w)) p then some (c ∷ w) else latest p ws

  -- How many words differ in lower case
  abbrev pub distinct : List (Text × Dict V) → ℕ
  distinct [] = 0
  distinct (([], m) ∷ ws) = distinct ws
  distinct ((c ∷ w, m) ∷ ws) =
      if is_some (latest (lower (c ∷ w)) ws) then distinct ws else distinct ws + 1

  abbrev pub begins : (prefix : Text) → Text × Dict V → Bool
  begins prefix (w, m) = Prelude.starts_with (lower w) prefix

  pub entry-inserted :
      (p : Text) (ws : List (Text × Dict V)) → entry p (inserted ws).root ≡ latest p ws
  unfolding insert
  entry-inserted p [] = entry-new_node V p
  entry-inserted p (([], m) ∷ ws) = entry-inserted p ws
  entry-inserted p ((c ∷ w, m) ∷ ws) =
      entry-insert_node (lower (c ∷ w)) p c w m (inserted ws).root
      ∙ ap (λ z. if text_eq (lower (c ∷ w)) p then some (c ∷ w) else z) (entry-inserted p ws)

  ends-inserted :
      (p : Text) (ws : List (Text × Dict V))
      → ends_at (find_node p (inserted ws).root) ≡ is_some (latest p ws)
  unfolding insert
  ends-inserted p [] = ends_at-new_node V p
  ends-inserted p (([], m) ∷ ws) = ends-inserted p ws
  ends-inserted p ((c ∷ w, m) ∷ ws) =
      ends_at-insert_node (lower (c ∷ w)) p (c ∷ w) m (inserted ws).root
      ∙ elim (Bool-cases (text_eq (lower (c ∷ w)) p)) [
        | inl e ↦ rw e refl
        | inr e ↦ rw e (ends-inserted p ws)
      ]

  search-latest :
      (x : Text) (ws : List (Text × Dict V))
      → search x (inserted ws) ≡ is_some (latest (lower x) ws)
  unfolding search
  search-latest x ws = ends-inserted (lower x) ws

  no_word :
      (p : Text) (m : Dict V) (b : Bool)
      → (if is_empty p then true else b)
        ≡ (if is_empty p then true else if begins p ([], m) then true else b)
  unfolding lower headwater.Prelude.starts_with
  no_word [] m b = refl
  no_word (c ∷ p) m b = refl

  nodes-inserted :
      (p : Text) (ws : List (Text × Dict V))
      → is_some (find_node p (inserted ws).root) ≡ (if is_empty p then true else any (begins p) ws)
  unfolding insert
  nodes-inserted p [] = find_node-new_node V p
  nodes-inserted p (([], m) ∷ ws) = nodes-inserted p ws ∙ no_word p m (any (begins p) ws)
  nodes-inserted p ((c ∷ w, m) ∷ ws) =
      let q = lower (c ∷ w) in
      find_node-insert_node_iff q p (c ∷ w) m (inserted ws).root
      ∙ ap (λ z. if Prelude.starts_with q p then true else z) (nodes-inserted p ws)
      ∙ true_comm (Prelude.starts_with q p) (is_empty p) (any (begins p) ws)

  size-inserted : (ws : List (Text × Dict V)) → (inserted ws).size ≡ distinct ws
  unfolding insert
  size-inserted [] = refl
  size-inserted (([], m) ∷ ws) = size-inserted ws
  size-inserted ((c ∷ w, m) ∷ ws) =
      let h = search-latest (c ∷ w) ws in ground (arith, h, size-inserted ws)

  -- After any insertions `len` counts the words that differ in lower case, `search` finds a word
  -- exactly if it was inserted in some case and is not empty, and `starts_with` holds of a prefix
  -- exactly if it is empty or some word that was inserted starts with it in lower case.
  pub inserted_answers :
      (ws : List (Text × Dict V)) (x : Text)
      → ((inserted ws).size ≡ distinct ws)
        × (search x (inserted ws) ≡ is_some (latest (lower x) ws))
        × (starts_with x (inserted ws)
            ≡ (if is_empty (lower x) then true else any (begins (lower x)) ws))
  unfolding starts_with
  inserted_answers ws x = (size-inserted ws, search-latest x ws, nodes-inserted (lower x) ws)
