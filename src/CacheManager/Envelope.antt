-- ===== src/CacheManager/Envelope.antt =====
-- The codec of app/core/cache_manager.py: `_encode_uncacheable`, the hook of `json.dumps`, and
-- `_decode_envelope`, that of `json.loads`, with `_serialize` and `_deserialize` around them.
use headwater.Prelude.{
  true, false, false, Bool, ◌&&◌, Option, none, some, Text, codes, text_eq, if◌then◌else◌,
}
use headwater.Exec.{Result, ok, raise}
use headwater.Exec.Checks.{◌>>=◌}
use headwater.CacheManager.Values.{
  Codec, Elements, Fields, Json, Key, Kind, Members, Reading, Scalar, Types, Value, Values,
  as_number, as_text, bad_value, boolean, boolean_key, bytes, date, datetime, decimal, dict,
  element, enum, field, good, json_array, json_boolean, json_null, json_number, json_object,
  json_text, list, member, no_elements, no_fields, no_members, no_values, null, null_key, number,
  number_key, other_error, other_key, set, structured, text, text_key, time, timedelta, tuple,
  typed, unsupported, uuid, value_and,
}

-- What leaves `json.loads`: the `TypeError` of an unhashable tag, or another decoder's exception.
pub data Fault : Type 0 where
  type_error decoder_error : Fault

abbrev type_tag : Text
type_tag = codes "__sf_cache_type__"

abbrev value_key : Text
value_key = codes "__sf_cache_value__"

abbrev pub kind_name : Kind → Text
kind_name datetime = codes "datetime"
kind_name date = codes "date"
kind_name time = codes "time"
kind_name timedelta = codes "timedelta"
kind_name decimal = codes "decimal"
kind_name uuid = codes "uuid"
kind_name bytes = codes "bytes"

abbrev pub set_name : Text
set_name = codes "set"

-- The keys of `_ENVELOPE_DECODERS`.
pub data Decoder : Type 0 where
  of_kind : Kind → Decoder
  of_set : Decoder

unfoldable pub decoder_named : Text → Option Decoder
decoder_named t =
    if text_eq t (kind_name datetime)
    then some (of_kind datetime)
    else if text_eq t (kind_name date)
    then some (of_kind date)
    else if text_eq t (kind_name time)
    then some (of_kind time)
    else if text_eq t (kind_name timedelta)
    then some (of_kind timedelta)
    else if text_eq t (kind_name decimal)
    then some (of_kind decimal)
    else if text_eq t (kind_name uuid)
    then some (of_kind uuid)
    else if text_eq t set_name
    then some of_set
    else if text_eq t (kind_name bytes)
    then some (of_kind bytes)
    else none

module _ {T : Types} where
  abbrev pub json_scalar : Scalar T → Json T
  json_scalar (as_text t) = json_text t
  json_scalar (as_number n) = json_number n

  abbrev pub value_of : Scalar T → Value T
  value_of (as_text t) = text t
  value_of (as_number n) = number n

  -- `{_TYPE_TAG: name, _VALUE_KEY: value}`
  abbrev pub envelope : Text → Json T → Json T
  envelope name j = json_object (member type_tag (json_text name) (member value_key j no_members))

  -- The name that `json.dumps` gives a key; `none` is its `TypeError`.
  abbrev pub key_text : Key T → Option Text
  key_text (text_key t) = some t
  key_text (number_key n) = some (T.printed n)
  key_text (boolean_key true) = some (codes "true")
  key_text (boolean_key false) = some (codes "false")
  key_text null_key = some (codes "null")
  key_text other_key = none

  abbrev pub key_is : Key T → Text → Bool
  key_is (text_key k) t = text_eq k t
  key_is (number_key n) t = false
  key_is (boolean_key b) t = false
  key_is null_key t = false
  key_is other_key t = false

  unfoldable pub found_field : Text → Fields T → Option (Value T)
  found_field t no_fields = none
  found_field t (field k v fs) = let rest = found_field t fs in if key_is k t then some v else rest

  unfoldable pub without_field : Text → Fields T → Fields T
  without_field t no_fields = no_fields
  without_field t (field k v fs) =
      let rest = without_field t fs in if key_is k t then rest else field k v rest

  -- A pair before the pairs of a dictionary: of two with the same name the later value is kept.
  unfoldable pub add_field : Text → Value T → Fields T → Fields T
  unfolding found_field without_field
  add_field t v fs = elim (found_field t fs) [
    | none ↦ field (text_key t) v fs
    | some w ↦ field (text_key t) w (without_field t fs)
  ]

  -- The tag and the value of a dictionary that has these two keys only.
  unfoldable pub envelope_of : Fields T → Option (Value T × Value T)
  envelope_of (field j v (field k w no_fields)) =
      if key_is j type_tag && key_is k value_key
      then some (v, w)
      else if key_is j value_key && key_is k type_tag
      then some (w, v)
      else none
  envelope_of no_fields = none
  envelope_of (field j v no_fields) = none
  envelope_of (field j v (field k w (field l x fs))) = none

module _ {A B : Type 0} where
  abbrev pub mapped : (A → B) → Option A → Option B
  mapped f none = none
  mapped f (some a) = some (f a)

  abbrev pub chained : Option A → (A → Option B) → Option B
  chained none f = none
  chained (some a) f = f a

module _ {T : Types} (C : Codec T) where
  -- `json.dumps(value, default=_encode_uncacheable)` as a tree; `none` is an exception, each of
  -- which `_serialize` turns into `CacheSerializationError`.
  unfoldable mutual
    pub encode : Value T → Option (Json T)
    encode null = some json_null
    encode (boolean b) = some (json_boolean b)
    encode (number n) = some (json_number n)
    encode (text t) = some (json_text t)
    encode (list vs) = mapped json_array (encode_all vs)
    encode (tuple vs) = mapped json_array (encode_all vs)
    encode (dict fs) = mapped json_object (encode_fields fs)
    encode (structured fs) = mapped json_object (encode_fields fs)
    encode (typed k x) = mapped (λ s. envelope (kind_name k) (json_scalar s)) (C.written k x)
    encode (set vs) = mapped (λ es. envelope set_name (json_array es)) (encode_all vs)
    encode (enum v) = encode v
    encode unsupported = none

    pub encode_all : Values T → Option (Elements T)
    encode_all no_values = some no_elements
    encode_all (value_and v vs) =
        let rest = encode_all vs in chained (encode v) (λ j. mapped (element j) rest)

    pub encode_fields : Fields T → Option (Members T)
    encode_fields no_fields = some no_members
    encode_fields (field k v fs) =
        let rest = encode_fields fs in
        let value = encode v in
        chained (key_text k) (λ name. chained value (λ j. mapped (member name j) rest))

  -- The call of a decoder, whose `TypeError` and `ValueError` leave the dictionary as it is.
  abbrev rebuilt : {A : Type 0} → (A → Value T) → Fields T → Reading A → Result Fault (Value T)
  rebuilt f obj (good x) = ok (f x)
  rebuilt f obj bad_value = ok (dict obj)
  rebuilt f obj other_error = raise decoder_error

  abbrev decode_with : Fields T → Value T → Option Decoder → Result Fault (Value T)
  decode_with obj v none = ok (dict obj)
  decode_with obj v (some (of_kind k)) = rebuilt (typed k) obj (C.read k v)
  decode_with obj v (some of_set) = rebuilt set obj (C.read_set v)

  -- `_ENVELOPE_DECODERS.get(tag)`, which raises where the tag cannot be hashed.
  unfoldable pub decode_tagged : Fields T → (tag : Value T) → Value T → Result Fault (Value T)
  unfolding decoder_named
  decode_tagged obj (text t) v = decode_with obj v (decoder_named t)
  decode_tagged obj (list vs) v = raise type_error
  decode_tagged obj (set vs) v = raise type_error
  decode_tagged obj (dict fs) v = raise type_error
  decode_tagged obj _ v = ok (dict obj)

  abbrev decode_pair : Fields T → Option (Value T × Value T) → Result Fault (Value T)
  decode_pair obj none = ok (dict obj)
  decode_pair obj (some (tag, v)) = decode_tagged obj tag v

  unfoldable pub decode_envelope : Fields T → Result Fault (Value T)
  unfolding envelope_of
  decode_envelope obj = decode_pair obj (envelope_of obj)

  -- `json.loads(text, object_hook=_decode_envelope)` from the parsed text on: the hook sees each
  -- object after those inside it.
  unfoldable mutual
    unfolding decode_envelope add_field

    pub decode : Json T → Result Fault (Value T)
    decode json_null = ok null
    decode (json_boolean b) = ok (boolean b)
    decode (json_number n) = ok (number n)
    decode (json_text t) = ok (text t)
    decode (json_array es) = decode_all es >>= λ vs. ok (list vs)
    decode (json_object ms) = decode_members ms >>= decode_envelope

    pub decode_all : Elements T → Result Fault (Values T)
    decode_all no_elements = ok no_values
    decode_all (element j es) =
        let rest = decode_all es in decode j >>= λ v. rest >>= λ vs. ok (value_and v vs)

    pub decode_members : Members T → Result Fault (Fields T)
    decode_members no_members = ok no_fields
    decode_members (member k j ms) =
        let rest = decode_members ms in decode j >>= λ v. rest >>= λ fs. ok (add_field k v fs)

  -- `none` is `CacheSerializationError`.
  unfoldable pub serialize : Value T → Option Text
  unfolding encode
  serialize value = mapped C.dumps (encode value)

  abbrev caught : Text → Result Fault (Value T) → Option (Value T)
  caught raw (ok v) = some v
  caught raw (raise type_error) = some (text raw)
  caught raw (raise decoder_error) = none

  -- A text that is no JSON is returned as it is, and so is one with an unhashable tag; another
  -- exception of a decoder is raised, `none`.
  unfoldable pub deserialize : Text → Option (Value T)
  unfolding decode
  deserialize raw = elim (C.loads raw) [ none ↦ some (text raw) | some j ↦ caught raw (decode j) ]
