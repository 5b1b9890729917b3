-- ===== src/Tests/Lists.antt =====
-- Runs of the collection helpers.
use headwater.Prelude.{◌≡◌, refl, ℕ, List, [], ◌∷◌}
use headwater.Collections.{chunks, chunks_from}

abbrev five : List ℕ
five = 1 ∷ 2 ∷ 3 ∷ 4 ∷ 5 ∷ []

chunks-five : chunks five 2 ≡ (1 ∷ 2 ∷ []) ∷ (3 ∷ 4 ∷ []) ∷ (5 ∷ []) ∷ []
unfolding chunks chunks_from
chunks-five = refl
