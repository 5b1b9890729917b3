-- ===== src/Tests/Dicts.antt =====
-- Nested dictionaries.
use headwater.Prelude.{ℕ, ◌≡◌, ◌↔◌, none, some, [], codes, split}
use headwater.Nested.{Nested, leaf, dict, empty, entry, dotted, keys_of, deep_get, deep_set}
use headwater.Nested.Laws.{Part, deep_get-deep_set}

abbrev config : Nested ℕ
config =
    entry (codes "db") (dict (entry (codes "port") (leaf 5432) empty))
      (entry (codes "log") (leaf 1) empty)

deep_get-deep_set_example :
    ((deep_set config (dotted (codes "db.host")) (leaf 7) b'.' ≡ none)
      ↔ (keys_of b'.' (dotted (codes "db.host")) ≡ []))
    × ((d' : Nested ℕ)
        → deep_set config (dotted (codes "db.host")) (leaf 7) b'.' ≡ some d'
        → (deep_get d' (dotted (codes "db.host")) (leaf 0) b'.' ≡ leaf 7)
          × (Part (split b'.' (codes "db.host")) (split b'.' (codes "db.port"))
              → deep_get d' (dotted (codes "db.port")) (leaf 0) b'.'
                ≡ deep_get config (dotted (codes "db.port")) (leaf 0) b'.'))
deep_get-deep_set_example =
    deep_get-deep_set config (dotted (codes "db.host")) (dotted (codes "db.port")) (leaf 7) (leaf 0)
      b'.'
