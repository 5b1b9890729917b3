-- ===== src/Tests/Caches.antt =====
-- The cache backends.
use headwater.Prelude.{
  ℕ, ◌≡◌, refl, none, some, List, [], ◌∷◌, codes, arith, is_some, rstrip, starts_with, text_eq,
}
use headwater.Dict.{lookup}
use headwater.Cache.Memory
use headwater.Cache.Memory.{Memory}
use headwater.Cache.Memory.View.{view, flat}
use headwater.Cache.Memory.Refines.{Method, Call, run, ideal, run-refines}
use headwater.Cache.Tiered.{Tiered}
use headwater.Tests.Fixtures.{holder, connected}

abbrev empty : Memory ℕ
empty = Memory.empty

abbrev calls : List (Call ℕ)
calls =
    record { method = Method.set (codes "a") (some 3) 60; now = 1 }
    ∷ record { method = Method.get (codes "a"); now = 2 }
    ∷ record { method = Method.clear (some (codes "b*")); now = 3 }
    ∷ []

run-refines_example :
    ((Memory.get (codes "a") 5 (run calls empty)).0
      ≡ flat (ideal calls 5 (view empty 5) (codes "a")))
    × ((Memory.exists (codes "a") 5 (run calls empty)).0
        ≡ is_some (ideal calls 5 (view empty 5) (codes "a")))
run-refines_example =
    run-refines calls 5 (codes "a") empty tt (omega arith, (omega arith, (omega arith, tt)))

ideal_holds : ideal calls 5 (view empty 5) (codes "a") ≡ some (some 3)
unfolding ideal view lookup text_eq rstrip starts_with
ideal_holds = refl

abbrev alone : Tiered holder ℕ
alone = record { memory = empty; redis = none }

abbrev tiers : Tiered holder ℕ
tiers = record {
  memory = empty;
  redis = some (record { manager = connected; hits = 0; misses = 0; sets = 0; deletes = 0 });
}
