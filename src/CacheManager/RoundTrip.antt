-- ===== src/CacheManager/RoundTrip.antt =====
-- A cached value is read back as `restored` says.
use mathlib.Core.Path.{subst}
use headwater.Prelude.{sym, ◌≡◌, refl, Option, none, some, Text, text_eq}
use headwater.Exec.{ok}
use headwater.CacheManager.Values.{
  text_key, element, json_object, Kind, datetime, date, time, timedelta, decimal, uuid, bytes,
  Types, Value, null, boolean, number, text, list, tuple, set, dict, structured, typed, enum,
  unsupported, Values, no_values, value_and, Fields, no_fields, field, Json, Elements, Members,
  Scalar, as_text, as_number, good, Codec, json_array, member,
}
use headwater.CacheManager.Envelope.{
  key_text, found_field, add_field, kind_name, set_name, of_kind, decoder_named, json_scalar,
  value_of, envelope, envelope_of, mapped, chained, encode, encode_all, encode_fields,
  decode_tagged, decode_envelope, decode, decode_all, decode_members, serialize, deserialize,
}
use headwater.CacheManager.Restored.{
  IsFaithful, restored, restored_all, restored_fields, restored_key, restored_key-text, IsClear,
  AreClear, HaveClear, IsNew,
}

module _ {T : Types} (C : Codec T) where
  mapped-some :
      {A B : Type 0} (f : A → B) (o : Option A) (b : B)
      → mapped f o ≡ some b
      → (a : A) × (o ≡ some a) × (f a ≡ b)
  mapped-some f none b e = absurd (cc (e))
  mapped-some f (some a) b e = (a, refl, cc (e))

  chained-some :
      {A B : Type 0} (o : Option A) (f : A → Option B) (b : B)
      → chained o f ≡ some b
      → (a : A) × (o ≡ some a) × (f a ≡ some b)
  chained-some none f b e = absurd (cc (e))
  chained-some (some a) f b e = (a, refl, e)

  decoder_named-kind_name : (k : Kind) → decoder_named (kind_name k) ≡ some (of_kind k)
  unfolding decoder_named text_eq
  decoder_named-kind_name datetime = refl
  decoder_named-kind_name date = refl
  decoder_named-kind_name time = refl
  decoder_named-kind_name timedelta = refl
  decoder_named-kind_name decimal = refl
  decoder_named-kind_name uuid = refl
  decoder_named-kind_name bytes = refl

  decode-json_scalar : (s : Scalar T) → decode C (json_scalar s) ≡ ok (value_of s)
  unfolding decode
  decode-json_scalar (as_text t) = refl
  decode-json_scalar (as_number n) = refl

  decode-kind :
      (k : Kind) (x : T.Object k) (s : Scalar T)
      → C.read k (value_of s) ≡ good x
      → decode C (envelope (kind_name k) (json_scalar s)) ≡ ok (typed k x)
  unfolding decode decode_envelope envelope_of decode_tagged text_eq
  decode-kind k x s e = rw (decode-json_scalar s, decoder_named-kind_name k, e) refl

  decode-set :
      (es : Elements T) (vs : Values T)
      → decode_all C es ≡ ok vs
      → C.read_set (list vs) ≡ good vs
      → decode C (envelope set_name (json_array es)) ≡ ok (set vs)
  unfolding decode decode_envelope envelope_of decode_tagged decoder_named text_eq
  decode-set es vs e r = rw (e, r) refl

  decode_envelope-none :
      (fs : Fields T) → envelope_of fs ≡ none → decode_envelope C fs ≡ ok (dict fs)
  unfolding decode_envelope
  decode_envelope-none fs e = rw e refl

  decode-object :
      (fs : Fields T) (ms : Members T)
      → decode_members C ms ≡ ok fs
      → envelope_of fs ≡ none
      → decode C (json_object ms) ≡ ok (dict fs)
  unfolding decode
  decode-object fs ms e c = rw e (decode_envelope-none fs c)

  decode-array :
      (vs : Values T) (es : Elements T)
      → decode_all C es ≡ ok vs
      → decode C (json_array es) ≡ ok (list vs)
  unfolding decode
  decode-array vs es e = rw e refl

  decode_all-element :
      (j : Json T) (v : Value T) (es : Elements T) (vs : Values T)
      → decode C j ≡ ok v
      → decode_all C es ≡ ok vs
      → decode_all C (element j es) ≡ ok (value_and v vs)
  unfolding decode
  decode_all-element j v es vs e f = rw (e, f) refl

  decode_members-member :
      (k : Text) (j : Json T) (v : Value T) (ms : Members T) (fs : Fields T)
      → decode C j ≡ ok v
      → decode_members C ms ≡ ok fs
      → found_field k fs ≡ none
      → decode_members C (member k j ms) ≡ ok (field (text_key k) v fs)
  unfolding decode add_field
  decode_members-member k j v ms fs e f n = rw (e, f, n, add_field) refl

  decode-list :
      (vs ws : Values T) (j : Json T)
      → mapped json_array (encode_all C vs) ≡ some j
      → ((es : Elements T) → encode_all C vs ≡ some es → decode_all C es ≡ ok ws)
      → decode C j ≡ ok (list ws)
  decode-list vs ws j e h =
      let (es, f, g) = mapped-some json_array (encode_all C vs) j e in
      subst (λ k. decode C k ≡ ok (list ws)) g (decode-array ws es (h es f))

  decode-dict :
      (fs gs : Fields T) (j : Json T)
      → mapped json_object (encode_fields C fs) ≡ some j
      → envelope_of gs ≡ none
      → ((ms : Members T) → encode_fields C fs ≡ some ms → decode_members C ms ≡ ok gs)
      → decode C j ≡ ok (dict gs)
  decode-dict fs gs j e c h =
      let (ms, f, g) = mapped-some json_object (encode_fields C fs) j e in
      subst (λ k. decode C k ≡ ok (dict gs)) g (decode-object gs ms (h ms f) c)

  decode-leaf :
      (i j : Json T) (v : Value T) → some i ≡ some j → decode C i ≡ ok v → decode C j ≡ ok v
  decode-leaf i j v e d = cc (e, d)

  module _ (faithful : IsFaithful C) where
    mutual
      unfolding encode decode restored IsClear

      -- The tree that a value is encoded as decodes to the value as its reader gets it.
      pub decode-encode :
          (v : Value T) (j : Json T)
          → encode C v ≡ some j
          → IsClear C v
          → decode C j ≡ ok (restored v)
      decode-encode null j e c = decode-leaf _ j _ e refl
      decode-encode (boolean b) j e c = decode-leaf _ j _ e refl
      decode-encode (number n) j e c = decode-leaf _ j _ e refl
      decode-encode (text t) j e c = decode-leaf _ j _ e refl
      decode-encode (list vs) j e c =
          decode-list vs (restored_all vs) j e (λ es f. decode_all-encode_all vs es f c)
      decode-encode (tuple vs) j e c =
          decode-list vs (restored_all vs) j e (λ es f. decode_all-encode_all vs es f c)
      decode-encode (set vs) j e c =
          let (es, f, g) = mapped-some _ (encode_all C vs) j e in
          subst (λ k. decode C k ≡ ok (set (restored_all vs))) g
            (decode-set es (restored_all vs) (decode_all-encode_all vs es f c.0) c.1)
      decode-encode (dict fs) j e c =
          decode-dict fs (restored_fields fs) j e c.1
            (λ ms f. decode_members-encode_fields fs ms f c.0)
      decode-encode (structured fs) j e c =
          decode-dict fs (restored_fields fs) j e c.1
            (λ ms f. decode_members-encode_fields fs ms f c.0)
      decode-encode (typed k x) j e c =
          let (s, f, g) = mapped-some _ (C.written k x) j e in
          subst (λ i. decode C i ≡ ok (typed k x)) g
            (decode-kind k x s (faithful.read-written k x s f))
      decode-encode (enum v) j e c = decode-encode v j e c
      decode-encode unsupported j e c = absurd (cc (e))

      decode_all-encode_all :
          (vs : Values T) (es : Elements T)
          → encode_all C vs ≡ some es
          → AreClear C vs
          → decode_all C es ≡ ok (restored_all vs)
      decode_all-encode_all no_values es e c = cc (e)
      decode_all-encode_all (value_and v vs) es e c =
          let (j, f, g) = chained-some (encode C v) _ es e in
          let (rest, f', g') = mapped-some (element j) (encode_all C vs) es g in
          subst (λ k. decode_all C k ≡ ok (value_and (restored v) (restored_all vs))) g'
            (decode_all-element j (restored v) rest (restored_all vs) (decode-encode v j f c.0)
              (decode_all-encode_all vs rest f' c.1))

      decode_members-encode_fields :
          (fs : Fields T) (ms : Members T)
          → encode_fields C fs ≡ some ms
          → HaveClear C fs
          → decode_members C ms ≡ ok (restored_fields fs)
      decode_members-encode_fields no_fields ms e c = cc (e)
      decode_members-encode_fields (field k v fs) ms e c =
          let (name, named, h) = chained-some (key_text k) _ ms e in
          let (j, f, g) = chained-some (encode C v) _ ms h in
          let (rest, f', g') = mapped-some (member name j) (encode_fields C fs) ms g in
          let new : found_field name (restored_fields fs) ≡ none =
            subst (λ o. IsNew o (restored_fields fs)) named c.2 in
          subst
            (λ i.
              decode_members C i ≡ ok (field (restored_key k) (restored v) (restored_fields fs)))
            g'
            (subst
              (λ i.
                decode_members C (member name j rest)
                ≡ ok (field i (restored v) (restored_fields fs)))
              (sym (restored_key-text k name named))
              (decode_members-member name j (restored v) rest (restored_fields fs)
                (decode-encode v j f c.0) (decode_members-encode_fields fs rest f' c.1) new))

    serialize-some :
        (v : Value T) (raw : Text)
        → serialize C v ≡ some raw
        → (j : Json T) × (encode C v ≡ some j) × (C.dumps j ≡ raw)
    unfolding serialize
    serialize-some v raw e = mapped-some C.dumps (encode C v) raw e

    -- A text that `_serialize` made of a value is read back as that value, with tuples as lists,
    -- models as dictionaries, enumeration members as their values, and the keys of dictionaries as
    -- the texts that JSON makes of them, where the codec's parts are faithful, no dictionary in it
    -- has just the two keys of an envelope or two keys of the same text, and the elements of each
    -- set can stand in a set as they are read back.
    pub deserialize-serialize :
        (v : Value T) (raw : Text)
        → serialize C v ≡ some raw
        → IsClear C v
        → deserialize C raw ≡ some (restored v)
    unfolding deserialize
    deserialize-serialize v raw e c =
        let (j, f, g) = serialize-some v raw e in
        let parsed : C.loads raw ≡ some j =
          subst (λ t. C.loads t ≡ some j) g (faithful.loads-dumps j) in
        rw (parsed, decode-encode v j f c, deserialize) refl
