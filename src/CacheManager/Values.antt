-- ===== src/CacheManager/Values.antt =====
-- The values of app/core/cache_manager.py, their trees as JSON, and what the codec calls. Python
-- values are trees: a dictionary lists its keys and values, a set lists its elements in the order of
-- their `repr`, and a pydantic model or a dataclass is the dictionary that it is dumped to. Printing
-- and parsing, of JSON and of the standard library's types, are parameters.
use headwater.Prelude.{Bool, Option, Text}

-- The types that JSON has no form for and that are written as one text or number.
pub data Kind : Type 0 where
  datetime date time timedelta decimal uuid bytes : Kind

-- Numbers, with what `json.dumps` prints of one, and the values of each of those types.
pub record Types : Type 1 where
  pub Number : Type 0
  pub printed : Number → Text
  pub Object : Kind → Type 0

-- The key of a dictionary; one of any other type is refused by `json.dumps`.
pub data Key (T : Types) : Type 0 where
  text_key : Text → Key T
  number_key : T.Number → Key T
  boolean_key : Bool → Key T
  null_key other_key : Key T

-- `unsupported` stands for a value of any other type.
mutual
  pub data Value (T : Types) : Type 0 where
    null : Value T
    boolean : Bool → Value T
    number : T.Number → Value T
    text : Text → Value T
    list tuple set : Values T → Value T
    dict structured : Fields T → Value T
    typed : (kind : Kind) → T.Object kind → Value T
    enum : Value T → Value T
    unsupported : Value T

  pub data Values (T : Types) : Type 0 where
    no_values : Values T
    value_and : Value T → Values T → Values T

  pub data Fields (T : Types) : Type 0 where
    no_fields : Fields T
    field : (key : Key T) → Value T → Fields T → Fields T

mutual
  pub data Json (T : Types) : Type 0 where
    json_null : Json T
    json_boolean : Bool → Json T
    json_number : T.Number → Json T
    json_text : Text → Json T
    json_array : Elements T → Json T
    json_object : Members T → Json T

  pub data Elements (T : Types) : Type 0 where
    no_elements : Elements T
    element : Json T → Elements T → Elements T

  pub data Members (T : Types) : Type 0 where
    no_members : Members T
    member : (key : Text) → Json T → Members T → Members T

-- What `isoformat`, `total_seconds`, `str` and `decode` return.
pub data Scalar (T : Types) : Type 0 where
  as_text : Text → Scalar T
  as_number : T.Number → Scalar T

-- A decoder's result, its `TypeError` or `ValueError`, or another exception.
pub data Reading {ℓ} (A : Type ℓ) : Type ℓ where
  good : A → Reading A
  bad_value other_error : Reading A

-- `written` is `none` where it raises `ValueError`, and `loads` where it raises `JSONDecodeError`;
-- `read_set v` is `set(v)`.
pub record Codec (T : Types) : Type 0 where
  pub written : (kind : Kind) → T.Object kind → Option (Scalar T)
  pub read : (kind : Kind) → Value T → Reading (T.Object kind)
  pub read_set : Value T → Reading (Values T)
  pub dumps : Json T → Text
  pub loads : Text → Option (Json T)
