-- ===== src/Proxy/Cursor.antt =====
-- The round-robin cursor: `_proxy_iter` and `_proxy_iter_source`, and the calls that advance it.
use headwater.Prelude.{
  Bool, true, false, Option, none, some, List, [], ◌∷◌, Text, text_eq, if◌then◌else◌,
}
use headwater.Proxy.{Settings, load_proxy_config}

-- `itertools.cycle`: what it repeats, and what is left of the round.
pub record Cycle : Type 0 where
  pub items : List Text
  pub upcoming : List Text

pub record Cursor : Type 0 where
  pub iter : Option Cycle
  pub source : List Text

abbrev pub no_cursor : Cursor
no_cursor = record { iter = none; source = [] }

abbrev pub texts_eq : List Text → List Text → Bool
texts_eq [] [] = true
texts_eq [] (t ∷ ts) = false
texts_eq (s ∷ ss) [] = false
texts_eq (s ∷ ss) (t ∷ ts) = if text_eq s t then texts_eq ss ts else false

-- `itertools.cycle(urls)`
abbrev pub cycle : List Text → Cycle
cycle urls = record { items = urls; upcoming = urls }

-- `next`, which raises, here `none`, if there is nothing to repeat
abbrev take_from : (items round : List Text) → Option Text × Cycle
take_from items [] = (none, record { items = items; upcoming = [] })
take_from items (u ∷ us) = (some u, record { items = items; upcoming = us })

abbrev pub next : Cycle → Option Text × Cycle
next c = elim c.upcoming [ [] ↦ take_from c.items c.items | u ∷ us ↦ take_from c.items (u ∷ us) ]

-- The iterator that is advanced: a new one if there is none or the list has changed
abbrev pub current : (urls : List Text) → Option Cycle → (source : List Text) → Cycle
current urls none source = cycle urls
current urls (some c) source = if texts_eq source urls then c else cycle urls

unfoldable pub next_proxy : (urls : List Text) → Cursor → Option Text × Cursor
next_proxy [] c = (none, record { iter = none; source = [] })
next_proxy (u ∷ us) c =
    let (url, it) = next (current (u ∷ us) c.iter c.source) in
    (url, record { iter = some it; source = u ∷ us })

abbrev pub when_enabled : Bool → List Text → Cursor → Option Text × Cursor
when_enabled false urls c = (none, c)
when_enabled true [] c = (none, c)
when_enabled true (u ∷ us) c = next_proxy (u ∷ us) c

unfoldable pub get_proxy : Option Settings → Cursor → Option Text × Cursor
get_proxy s = let (enabled, urls) = load_proxy_config s in when_enabled enabled urls

unfoldable pub rotate_proxy : Option Settings → Cursor → Option Text × Cursor
rotate_proxy s = let (enabled, urls) = load_proxy_config s in when_enabled enabled urls
