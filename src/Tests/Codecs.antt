-- ===== src/Tests/Codecs.antt =====
-- A codec that satisfies what is assumed of one: a tree is written as the steps of a stack machine,
-- two numbers each, and read by running them.
use mathlib.Core.List.{append-nil}
use headwater.Prelude.{
  ap, ◌++◌, ◌≡◌, ◌∙◌, refl, ℕ, ◌+◌, ◌==◌, true, false, Option, none, some, List, [], ◌∷◌, Text,
  if◌then◌else◌,
}
use headwater.CacheManager.Values.{
  Types, Value, text, list, Json, json_null, json_boolean, json_number, json_text, json_array,
  json_object, Elements, no_elements, element, Members, no_members, member, Codec, as_text, good,
  Reading, bad_value, Values,
}
use headwater.CacheManager.Restored.{IsFaithful}

abbrev pub plain : Types
plain = record { Number = ℕ; printed = λ n. (48 + n) ∷ []; Object = λ k. Text }

abbrev Stack : Type 0
Stack = List (Json plain)

abbrev push_char : ℕ → Stack → Stack
push_char c (json_text t ∷ st) = json_text (c ∷ t) ∷ st
push_char c st = st

abbrev push_element : Stack → Stack
push_element (j ∷ (json_array es ∷ st)) = json_array (element j es) ∷ st
push_element st = st

abbrev push_member : Stack → Stack
push_member (j ∷ (json_text k ∷ (json_object ms ∷ st))) = json_object (member k j ms) ∷ st
push_member st = st

abbrev step : (op argument : ℕ) → Stack → Stack
step op a st =
    if op == 0
    then json_null ∷ st
    else if op == 1
    then json_boolean (a == 1) ∷ st
    else if op == 2
    then json_number a ∷ st
    else if op == 3
    then json_text [] ∷ st
    else if op == 4
    then push_char a st
    else if op == 5
    then json_array no_elements ∷ st
    else if op == 6
    then push_element st
    else if op == 7
    then json_object no_members ∷ st
    else push_member st

abbrev run : Text → Stack → Stack
run [] st = st
run (op ∷ []) st = st
run (op ∷ (a ∷ steps)) st = run steps (step op a st)

abbrev emit_text : Text → Text → Text
emit_text [] rest = rest
emit_text (c ∷ t) rest = emit_text t (4 ∷ (c ∷ rest))

abbrev mutual
  emit : Json plain → Text → Text
  emit json_null rest = 0 ∷ (0 ∷ rest)
  emit (json_boolean true) rest = 1 ∷ (1 ∷ rest)
  emit (json_boolean false) rest = 1 ∷ (0 ∷ rest)
  emit (json_number n) rest = 2 ∷ (n ∷ rest)
  emit (json_text t) rest = 3 ∷ (0 ∷ emit_text t rest)
  emit (json_array es) rest = emit_elements es rest
  emit (json_object ms) rest = emit_members ms rest

  emit_elements : Elements plain → Text → Text
  emit_elements no_elements rest = 5 ∷ (0 ∷ rest)
  emit_elements (element j es) rest = emit_elements es (emit j (6 ∷ (0 ∷ rest)))

  emit_members : Members plain → Text → Text
  emit_members no_members rest = 7 ∷ (0 ∷ rest)
  emit_members (member k j ms) rest =
      emit_members ms (3 ∷ (0 ∷ emit_text k (emit j (8 ∷ (0 ∷ rest)))))

abbrev top : Stack → Option (Json plain)
top (j ∷ []) = some j
top _ = none

abbrev read_text : Value plain → Reading Text
read_text (text t) = good t
read_text _ = bad_value

abbrev read_list : Value plain → Reading (Values plain)
read_list (list vs) = good vs
read_list _ = bad_value

abbrev pub codec : Codec plain
codec = record {
  written = λ k x. some (as_text x);
  read = λ k v. read_text v;
  read_set = read_list;
  dumps = λ j. emit j [];
  loads = λ t. top (run t []);
}

run-emit_text :
    (t rest u : Text) (st : Stack)
    → run (emit_text t rest) (json_text u ∷ st) ≡ run rest (json_text (t ++ u) ∷ st)
run-emit_text [] rest u st = refl
run-emit_text (c ∷ t) rest u st = run-emit_text t (4 ∷ (c ∷ rest)) u st

mutual
  run-emit : (j : Json plain) (rest : Text) (st : Stack) → run (emit j rest) st ≡ run rest (j ∷ st)
  run-emit json_null rest st = refl
  run-emit (json_boolean true) rest st = refl
  run-emit (json_boolean false) rest st = refl
  run-emit (json_number n) rest st = refl
  run-emit (json_text t) rest st =
      run-emit_text t rest [] st ∙ ap (λ u. run rest (json_text u ∷ st)) (append-nil t)
  run-emit (json_array es) rest st = run-emit_elements es rest st
  run-emit (json_object ms) rest st = run-emit_members ms rest st

  run-emit_elements :
      (es : Elements plain) (rest : Text) (st : Stack)
      → run (emit_elements es rest) st ≡ run rest (json_array es ∷ st)
  run-emit_elements no_elements rest st = refl
  run-emit_elements (element j es) rest st =
      run-emit_elements es (emit j (6 ∷ (0 ∷ rest))) st
      ∙ run-emit j (6 ∷ (0 ∷ rest)) (json_array es ∷ st)

  run-emit_members :
      (ms : Members plain) (rest : Text) (st : Stack)
      → run (emit_members ms rest) st ≡ run rest (json_object ms ∷ st)
  run-emit_members no_members rest st = refl
  run-emit_members (member k j ms) rest st =
      run-emit_members ms (3 ∷ (0 ∷ emit_text k (emit j (8 ∷ (0 ∷ rest))))) st
      ∙ run-emit_text k (emit j (8 ∷ (0 ∷ rest))) [] (json_object ms ∷ st)
      ∙ ap (λ u. run (emit j (8 ∷ (0 ∷ rest))) (json_text u ∷ (json_object ms ∷ st))) (append-nil k)
      ∙ run-emit j (8 ∷ (0 ∷ rest)) (json_text k ∷ (json_object ms ∷ st))

pub codec-IsFaithful : IsFaithful codec
codec-IsFaithful = record {
  loads-dumps = λ j. ap top (run-emit j [] []);
  read-written = λ k x s e. cc (e);
}
