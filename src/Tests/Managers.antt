-- ===== src/Tests/Managers.antt =====
-- The cache manager.
use headwater.Prelude.{
  ◌≡◌, refl, ℕ, suc, inl, inr, true, false, Option, none, some, [], ◌∷◌, Text, codes, text_eq,
  text_eq_refl, ne_of_text, if◌then◌else◌, arith,
}
use headwater.Dict.{lookup}
use headwater.Exec
use headwater.Exec.{Exec}
use headwater.Redis.{Manager, is_available}
use headwater.Redis.Client.{Server, ok, missing}
use headwater.CacheManager
use headwater.CacheManager.{get_remote, find, get_local, Config, Caches}
use headwater.CacheManager.Values.{
  Value, null, number, list, tuple, dict, typed, datetime, no_values, value_and, no_fields, field,
  text_key, number_key,
}
use headwater.CacheManager.Envelope.{serialize, deserialize}
use headwater.CacheManager.Restored.{IsClear, restored}
use headwater.CacheManager.RoundTrip.{deserialize-serialize}
use headwater.CacheManager.Reads.{IsStoring, get-set_kept}
use headwater.CacheManager.Calls.{cached}
use headwater.CacheManager.Remembered.{cached-twice}
use headwater.CacheManager.Erased.{get-clear, get-cleanup}
use headwater.Tests.Fixtures.{counters}
use headwater.Tests.Codecs.{plain, codec, codec-IsFaithful}

-- A server that keeps texts.
abbrev texts : Server
texts = record counters {
  State = Text → Option Text;
  ping = λ s. (ok tt, s);
  get = λ k s. (ok (s k), s);
  setex = λ k t v s. (ok tt, λ j. if text_eq k j then some v else s j);
  set = λ k v s. (ok tt, s);
  delete = λ ks s. (ok 0, s);
  exists = λ ks s. (ok 0, s);
  incr = λ k s. (ok 0, s);
  expire = λ k t s. (ok true, s);
  ttl = λ k s. (ok missing, s);
  keys = λ p s. (ok [], s);
  scan = λ p s. (ok [], s);
  incr_ttl = λ k s. (ok (0, missing), s);
}

texts-IsStoring : IsStoring texts
texts-IsStoring = record { get-setex = λ k v t s e. rw (text_eq_refl k) refl }

abbrev config : Config
config = record { enabled = true; ttl = 60 }

abbrev up : Manager texts
up = record {
  redis_url = some (codes "r");
  client = true;
  initialized = true;
  connection_error_count = 0;
  server = λ k. none;
}

abbrev down : Manager texts
down = record up { client = false; redis_url = none }

abbrev entry : Value plain
entry = dict (
    field (text_key (codes "at")) (typed datetime (codes "2024"))
      (field (number_key 7) (tuple (value_and (number 3) no_values)) no_fields))

abbrev read_back : Value plain
read_back = dict (
    field (text_key (codes "at")) (typed datetime (codes "2024"))
      (field (text_key (codes "7")) (list (value_and (number 3) no_values)) no_fields))

written : (raw : Text) × (serialize codec entry ≡ some raw)
unfolding serialize
written = (_, refl)

restored-entry : restored entry ≡ read_back
unfolding restored
restored-entry = refl

clear : IsClear codec entry
unfolding IsClear text_eq
clear = ((tt, ((tt, tt), tt, refl), refl), refl)

deserialize-serialize_example : deserialize codec written.0 ≡ some (restored entry)
deserialize-serialize_example =
    deserialize-serialize codec codec-IsFaithful entry written.0 written.1 clear

abbrev empty : Manager texts → Caches texts plain
empty m = record { redis = m; cache_store = [] }

abbrev key : Text
key = codes "k"

abbrev name : Option Text
name = some (codes "ns")

get-set_kept_example :
    ((CacheManager.set codec config key entry (some 60) name 5 (empty up)).0 ≡ Exec.ok true)
    × ((CacheManager.get codec config key name null 60
          (CacheManager.set codec config key entry (some 60) name 5 (empty up)).1).0
        ≡ restored entry)
unfolding is_available
get-set_kept_example =
    get-set_kept codec codec-IsFaithful config key written.0 entry null name 59 5 60 (empty up) refl
      written.1 clear texts-IsStoring (inr (refl, refl)) (omega arith)

-- The store still has an older value.
abbrev older : Caches texts plain
older = record { redis = up; cache_store = (codes "cache:ns:k", (number 1, 900)) ∷ [] }

abbrev function : Exec ℕ ℕ (Value plain)
function n = (Exec.ok entry, suc n)

cached-twice_example :
    let first = cached codec config function key name (some 60) 4 5 (empty down, 0) in
    let second = cached codec config function key name (some 60) 60 5 first.1 in
    (first.0 ≡ Exec.ok entry)
    × (first.1.1 ≡ 1)
    × (second.0 ≡ Exec.ok (restored entry))
    × (second.1.1 ≡ 1)
unfolding is_available get_local lookup restored find get_remote CacheManager.get
cached-twice_example =
    cached-twice codec config function key written.0 name 59 4 5 60 entry (empty down) 0 1
      codec-IsFaithful texts-IsStoring refl refl refl written.1 clear refl (inl refl) (omega arith)

abbrev failing : Exec ℕ ℕ (Value plain)
failing n = (Exec.raise 7, suc n)

abbrev two : Caches texts plain
two = record {
  redis = down;
  cache_store = (codes "cache:a:k", (number 1, 900)) ∷ ((codes "cache:b:k", (number 2, 900)) ∷ []);
}

get-clear_example :
    ((CacheManager.get codec config key
        (some (codes "a"))
        null
        5
        (CacheManager.clear config (some (codes "a")) two).1).0
      ≡ null)
    × ((CacheManager.get codec config key
          (some (codes "b"))
          null
          5
          (CacheManager.clear config (some (codes "a")) two).1).0
        ≡ (CacheManager.get codec config key (some (codes "b")) null 5 two).0)
unfolding is_available lookup text_eq
get-clear_example =
    get-clear codec config refl key (codes "a") (codes "b") null 5 two (refl, tt) (refl, tt)
      (ne_of_text (codes "a") (codes "b") refl) (refl, (refl, tt)) refl

get-cleanup_example :
    (CacheManager.get codec config key (some (codes "a")) null 901 (CacheManager.cleanup 900 two)).0
    ≡ (CacheManager.get codec config key (some (codes "a")) null 901 two).0
unfolding is_available lookup text_eq
get-cleanup_example =
    get-cleanup codec config refl key (some (codes "a")) null 900 901 two (omega arith)
      (refl, (refl, tt)) refl
