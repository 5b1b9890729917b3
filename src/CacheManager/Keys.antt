-- ===== src/CacheManager/Keys.antt =====
-- The keys of app/core/cache_manager.py: `_generate_key`, the default key of `cached` and
-- `generate_cache_key`. `str` of an argument, which any object may define, and the digest are
-- parameters.
use headwater.Prelude.{
  ℕ, Option, none, some, List, [], ◌∷◌, ◌++◌, Text, codes, ltb, length, if◌then◌else◌,
}

-- `if namespace:` is false at the empty text too.
abbrev pub prefix_of : Option Text → Text
prefix_of none = codes "cache:"
prefix_of (some []) = codes "cache:"
prefix_of (some (c ∷ ns)) = codes "cache:" ++ ((c ∷ ns) ++ codes ":")

unfoldable pub generate_key : (key : Text) (namespace : Option Text) → Text
generate_key key namespace = prefix_of namespace ++ key

-- `sep.join(parts)` for one character
unfoldable pub join : ℕ → List Text → Text
join sep [] = []
join sep (t ∷ []) = t
join sep (t ∷ (u ∷ ts)) = t ++ (sep ∷ join sep (u ∷ ts))

-- A text of more than 250 characters is replaced by its digest.
unfoldable pub shortened : (hexdigest : Text → Text) → Text → Text
shortened hexdigest t = if ltb 250 (length t) then hexdigest t else t

-- `f"{k}={v}"` for each keyword argument
abbrev keyword : Text × Text → Text
keyword (k, v) = k ++ (b'=' ∷ v)

abbrev keywords : List (Text × Text) → List Text
keywords [] = []
keywords (a ∷ args) = keyword a ∷ keywords args

-- The arguments as `str` prints them, the keyword arguments in the order of `sorted`.
unfoldable pub default_key :
    (hexdigest : Text → Text) (name : Text) (args : List Text) (kwargs : List (Text × Text)) → Text
unfolding join shortened
default_key hexdigest name args kwargs =
    shortened hexdigest (join b':' (name ∷ (args ++ keywords kwargs)))

-- A keyword's value: `None`, a list, or anything else, as `str` prints them.
pub data Argument : Type 0 where
  absent : Argument
  items : List Text → Argument
  single : Text → Argument

abbrev argument_parts : List (Text × Argument) → List Text
argument_parts [] = []
argument_parts ((k, absent) ∷ args) = argument_parts args
argument_parts ((k, items ts) ∷ args) = keyword (k, join b',' ts) ∷ argument_parts args
argument_parts ((k, single t) ∷ args) = keyword (k, t) ∷ argument_parts args

unfoldable pub generate_cache_key :
    (hexdigest : Text → Text) (base_key : Text) (kwargs : List (Text × Argument)) → Text
unfolding join shortened
generate_cache_key hexdigest base_key kwargs =
    shortened hexdigest (join b':' (base_key ∷ argument_parts kwargs))
