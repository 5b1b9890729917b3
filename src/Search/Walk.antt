-- ===== src/Search/Walk.antt =====
-- `get_all_words`, a walk with a stack of nodes, and `find_containing`, which reads it.
use headwater.Prelude.{
  ◌≡◌, ◌∙◌, ◌↔◌, ◌≤◌, refl, sym, ap, ℕ, zero, suc, ◌+◌, Bool, true, Option, none, some, List, [],
  ◌∷◌, ◌++◌, Text, lower, starts_with, leb, length, is_empty, keep, take, max, ◌-◌, ◌<◌,
  length-append, take-nil, leb→le, arith, Bool-cases, inl, inr, if◌then◌else◌,
}
use mathlib.Core.List.{append-nil, append_assoc}
use headwater.Dict.{Dict}
use headwater.Dict.Sweep.{contains}
use headwater.Search.{TrieNode, Children, Trie, node, no_children, child, own, find_node}
use headwater.Search.Words.{words, words_children}
use headwater.Search.Members.{the_word, contains-append}
use headwater.Search.Inserted.{inserted, latest}
use headwater.Search.Prefixes.{words_from_iff}

-- `substring in text`
unfoldable pub is_in : (substring text : Text) → Bool
is_in s [] = is_empty s
is_in s (c ∷ t) = if starts_with (c ∷ t) s then true else is_in s t

abbrev or_none_left : Option (List Text) → List Text
or_none_left none = []
or_none_left (some ws) = ws

-- The loop of `find_containing`: the limit is looked at after a word has been added.
unfoldable pub scan_containing : (substring : Text) (limit : ℕ) → List Text → List Text → List Text
scan_containing s limit [] results = results
scan_containing s limit (w ∷ ws) results =
    let found = results ++ w ∷ [] in
    let more = scan_containing s limit ws found in
    let rest = scan_containing s limit ws results in
    if is_in s (lower w) then (if leb limit (length found) then found else more) else rest

-- The words that contain the substring
abbrev pub holding : (substring : Text) → List Text → List Text
holding s = keep (λ w. is_in s (lower w))

scan_containing-eq :
    (s : Text) (limit : ℕ) (ws results : List Text)
    → length results < max 1 limit
    → scan_containing s limit ws results
      ≡ results ++ take (max 1 limit - length results) (holding s ws)
unfolding scan_containing
scan_containing-eq s limit [] results h =
    sym (ap (λ zs. results ++ zs) (take-nil (max 1 limit - length results)) ∙ append-nil results)
scan_containing-eq s limit (w ∷ ws) results h = elim (Bool-cases (is_in s (lower w))) [
  | inl e ↦ elim (Bool-cases (leb limit (length (results ++ w ∷ [])))) [
    | inl f ↦
        (let grown = length-append results (w ∷ []) in
          let one : max 1 limit - length results ≡ 1 =
            omega (arith, grown, leb→le limit (length (results ++ w ∷ [])) f, h) in
          rw (e, f, one) refl)
    | inr f ↦
        (let grown = length-append results (w ∷ []) in
          let room : length (results ++ w ∷ []) < max 1 limit = ground (arith, f) in
          let next : max 1 limit - length results ≡ suc (max 1 limit - length (results ++ w ∷ [])) =
            omega (arith, grown, room) in
          rw (e, f, next)
            (scan_containing-eq s limit ws (results ++ w ∷ []) room
              ∙ append_assoc results (w ∷ []) _))
  ]
  | inr e ↦ rw e (scan_containing-eq s limit ws results h)
]

contains_swap :
    (x : Text) (xs ys zs : List Text)
    → contains x (xs ++ (ys ++ zs)) ≡ contains x ((ys ++ xs) ++ zs)
contains_swap x xs ys zs = ground (
  arith,
  contains-append x xs (ys ++ zs),
  contains-append x ys zs,
  contains-append x (ys ++ xs) zs,
  contains-append x ys xs,
)

module _ {V : Type 0} where
  -- `stack.extend(node.children.values())`; the top of the stack, its last item, comes first.
  unfoldable pub push : Children V → List (TrieNode V) → List (TrieNode V)
  push no_children stack = stack
  push (child c n ns) stack = push ns (n ∷ stack)

  abbrev pub children : TrieNode V → Children V
  children (node ns e w m) = ns

  abbrev pub yield_then : TrieNode V → Option (List Text) → Option (List Text)
  yield_then n none = none
  yield_then n (some ws) = some (own the_word n ++ ws)

  -- The loop, with fuel; `none` means that the fuel ran out.
  unfoldable pub walk : (fuel : ℕ) (stack : List (TrieNode V)) → Option (List Text)
  walk fuel [] = some []
  walk zero (n ∷ stack) = none
  walk (suc fuel) (n ∷ stack) = yield_then n (walk fuel (push (children n) stack))

  -- The number of nodes below a node, with itself
  unfoldable mutual
    pub count_nodes : TrieNode V → ℕ
    count_nodes (node ns e w m) = suc (count_children ns)

    pub count_children : Children V → ℕ
    count_children no_children = 0
    count_children (child c n ns) = count_nodes n + count_children ns

  -- The fuel is the number of nodes, each of which is popped once.
  unfoldable pub get_all_words : Trie V → List Text
  get_all_words t = or_none_left (walk (count_nodes t.root) (t.root ∷ []))

  unfoldable pub find_containing : (substring : Text) (limit : ℕ) → Trie V → List Text
  find_containing substring limit t = scan_containing (lower substring) limit (get_all_words t) []

  abbrev words_on : List (TrieNode V) → List Text
  words_on [] = []
  words_on (n ∷ stack) = words the_word n ++ words_on stack

  abbrev nodes_on : List (TrieNode V) → ℕ
  nodes_on [] = 0
  nodes_on (n ∷ stack) = count_nodes n + nodes_on stack

  nodes_on-push :
      (ns : Children V) (stack : List (TrieNode V))
      → nodes_on (push ns stack) ≡ count_children ns + nodes_on stack
  unfolding push count_nodes
  nodes_on-push no_children stack = omega arith
  nodes_on-push (child c n ns) stack = omega (arith, nodes_on-push ns (n ∷ stack))

  contains-push :
      (x : Text) (ns : Children V) (stack : List (TrieNode V))
      → contains x (words_on (push ns stack))
        ≡ contains x (words_children the_word ns ++ words_on stack)
  unfolding push words
  contains-push x no_children stack = refl
  contains-push x (child c n ns) stack =
      contains-push x ns (n ∷ stack)
      ∙ contains_swap x (words_children the_word ns) (words the_word n) (words_on stack)

  -- With fuel for every node on the stack the walk ends, with the words below them.
  walk_ends :
      (fuel : ℕ) (stack : List (TrieNode V))
      → nodes_on stack ≤ fuel
      → (ws : List Text) × (walk fuel stack ≡ some ws)
        × ((x : Text) → contains x ws ≡ contains x (words_on stack))
  unfolding walk count_nodes words
  walk_ends fuel [] h = ([], refl, λ x. refl)
  walk_ends zero (node ns e w m ∷ stack) h = absurd (omega (arith, h))
  walk_ends (suc fuel) (node ns e w m ∷ stack) h =
      let room : nodes_on (push ns stack) ≤ fuel = omega (arith, nodes_on-push ns stack, h) in
      let (ws, e1, e2) = walk_ends fuel (push ns stack) room in
      let mine = own the_word (node ns e w m) in
      (
        mine ++ ws,
        rw e1 refl,
        λ x.
            contains-append x mine ws
            ∙ ap (λ b. if contains x mine then true else b) (e2 x ∙ contains-push x ns stack)
            ∙ sym (contains-append x mine (words_children the_word ns ++ words_on stack))
            ∙ ap (contains x)
                (sym (append_assoc mine (words_children the_word ns) (words_on stack))),
      )

  -- After any insertions the walk over the trie ends, each node is popped once at most, and it gives
  -- exactly the words that were inserted last of those that agree with them in lower case; and
  -- `find_containing` gives the first of these, in the order of the walk, that contain the substring
  -- in lower case, up to the limit, or up to one if the limit is 0.
  pub get_all_words-inserted :
      (ws : List (Text × Dict V)) (substring : Text) (limit : ℕ)
      → (all : List Text) × (walk (count_nodes (inserted ws).root) ((inserted ws).root ∷ [])
          ≡ some all)
        × ((x : Text) → (contains x all ≡ true) ↔ (latest (lower x) ws ≡ some x))
        × (find_containing substring limit (inserted ws)
            ≡ take (max 1 limit) (holding (lower substring) all))
  unfolding find_containing get_all_words find_node starts_with
  get_all_words-inserted ws substring limit =
      let root = (inserted ws).root in
      let (all, e, same) = walk_ends (count_nodes root) (root ∷ []) (omega arith) in
      let room : max 1 limit - 0 ≡ max 1 limit = omega arith in
      (
        all,
        e,
        λ x.
            let w = words_from_iff ws [] x in
            let c : contains x all ≡ contains x (words the_word root) =
              same x ∙ ap (contains x) (append-nil (words the_word root)) in
            (λ h. (w.0 (sym c ∙ h)).0, λ l. c ∙ w.1 (l, refl)),
        ap (λ o. scan_containing (lower substring) limit (or_none_left o) []) e
            ∙ scan_containing-eq (lower substring) limit all [] (omega arith)
            ∙ ap (λ k. take k (holding (lower substring) all)) room,
      )
