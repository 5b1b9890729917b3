-- ===== src/CacheManager/Restored.antt =====
-- What a cached value is read back as, and when: the value as its reader gets it, and the values
-- that are read back.
use headwater.Prelude.{codes, true, false, ◌≡◌, Option, none, some, Text}
use headwater.CacheManager.Values.{
  Key, text_key, number_key, boolean_key, null_key, other_key, Kind, Types, Value, null, boolean,
  number, text, list, tuple, set, dict, structured, typed, enum, unsupported, Values, no_values,
  value_and, Fields, no_fields, field, Json, Scalar, good, Codec,
}
use headwater.CacheManager.Envelope.{key_text, found_field, value_of, envelope_of}

-- What the documents of `json` and of the types say: a parsed text is the tree that was printed,
-- and a type's constructor reads what its printer wrote (`timedelta` below 270 years).
pub record IsFaithful {T : Types} (C : Codec T) : Type 0 where
  pub loads-dumps : (j : Json T) → C.loads (C.dumps j) ≡ some j
  pub read-written :
      (k : Kind) (x : T.Object k) (s : Scalar T)
      → C.written k x ≡ some s
      → C.read k (value_of s) ≡ good x

module _ {T : Types} where
  -- A key as its reader gets it: its name
  abbrev pub restored_key : Key T → Key T
  restored_key (text_key t) = text_key t
  restored_key (number_key n) = text_key (T.printed n)
  restored_key (boolean_key true) = text_key (codes "true")
  restored_key (boolean_key false) = text_key (codes "false")
  restored_key null_key = text_key (codes "null")
  restored_key other_key = other_key

  pub restored_key-text : (k : Key T) (t : Text) → key_text k ≡ some t → restored_key k ≡ text_key t
  restored_key-text (text_key t) u e = cc (e)
  restored_key-text (number_key n) u e = cc (e)
  restored_key-text (boolean_key true) u e = cc (e)
  restored_key-text (boolean_key false) u e = cc (e)
  restored_key-text null_key u e = cc (e)
  restored_key-text other_key u e = absurd (cc (e))

  -- A value as its reader gets it: a tuple is a list, a model or a dataclass its fields, and a
  -- member of an enumeration its value.
  unfoldable mutual
    pub restored : Value T → Value T
    restored null = null
    restored (boolean b) = boolean b
    restored (number n) = number n
    restored (text t) = text t
    restored (list vs) = list (restored_all vs)
    restored (tuple vs) = list (restored_all vs)
    restored (set vs) = set (restored_all vs)
    restored (dict fs) = dict (restored_fields fs)
    restored (structured fs) = dict (restored_fields fs)
    restored (typed k x) = typed k x
    restored (enum v) = restored v
    restored unsupported = unsupported

    pub restored_all : Values T → Values T
    restored_all no_values = no_values
    restored_all (value_and v vs) = value_and (restored v) (restored_all vs)

    pub restored_fields : Fields T → Fields T
    restored_fields no_fields = no_fields
    restored_fields (field k v fs) = field (restored_key k) (restored v) (restored_fields fs)

  -- No key of the dictionary has this name.
  abbrev pub IsNew : Option Text → Fields T → Type 0
  IsNew none fs = Unit
  IsNew (some t) fs = found_field t fs ≡ none

module _ {T : Types} (C : Codec T) where
  -- No dictionary inside has the two keys of an envelope and no others, or two keys of the same
  -- name, and the elements of each set can stand in a set again, as they are read back.
  unfoldable mutual
    unfolding restored envelope_of found_field

    pub IsClear : Value T → Type 0
    IsClear (list vs) = AreClear vs
    IsClear (tuple vs) = AreClear vs
    IsClear (set vs) = AreClear vs × (C.read_set (list (restored_all vs)) ≡ good (restored_all vs))
    IsClear (dict fs) = HaveClear fs × (envelope_of (restored_fields fs) ≡ none)
    IsClear (structured fs) = HaveClear fs × (envelope_of (restored_fields fs) ≡ none)
    IsClear (enum v) = IsClear v
    IsClear _ = Unit

    pub AreClear : Values T → Type 0
    AreClear no_values = Unit
    AreClear (value_and v vs) = IsClear v × AreClear vs

    pub HaveClear : Fields T → Type 0
    HaveClear no_fields = Unit
    HaveClear (field k v fs) = IsClear v × HaveClear fs × IsNew (key_text k) (restored_fields fs)
