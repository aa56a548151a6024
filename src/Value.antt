-- ===== src/Value.antt =====
-- The values of a result set as the drivers return them, and `_normalize` and `_eq` of
-- agent/tools/compare.py. Floats, decimals, moments of time and the other objects of a driver are a
-- parameter, with the operations of Python that the comparison calls on them.
pub mod Order
use mysql_redshift_agent.Prelude.{
  ℕ, Bool, true, false, Option, none, some, List, [], ◌∷◌, map, if◌then◌else◌,
}
use mysql_redshift_agent.Text.{Text, codes, strip, text_eq, text_le}

-- `negsuc n` is -(n + 1).
pub data ℤ : Type 0 where
  pos : ℕ → ℤ
  negsuc : ℕ → ℤ

pub data Number (Float : Type 0) : Type 0 where
  int : ℤ → Number Float
  float : Float → Number Float

-- `float_of_int` is `float(n)`, which overflows; `is_close` is `math.isclose` at the two tolerances of
-- 1e-9; `decode` is `bytes.decode("utf-8", errors="replace")`; `str_error` is the text of the exception
-- that `str` of an object raises, if it does.
pub record Runtime : Type 1 where
  pub Float : Type 0
  pub Decimal : Type 0
  pub Moment : Type 0
  pub Object : Type 0
  pub float_of_int : ℤ → Option Float
  pub float_of_decimal : Decimal → Float
  pub is_close : Float → Float → Bool
  pub number_eq : Number Float → Number Float → Bool
  pub isoformat : Moment → Text
  pub decode : List ℕ → Text
  pub str_of_int : ℤ → Text
  pub str_of_float : Float → Text
  pub str_of_object : Object → Text
  pub str_error : Object → Option Text
  pub object_eq : Object → Object → Bool

module _ (r : Runtime) where
  -- A field of a row. `bytes` is bytes or bytearray, `moment` is a datetime or a date.
  pub data Value : Type 0 where
    null : Value
    bool : Bool → Value
    int : ℤ → Value
    float : r.Float → Value
    decimal : r.Decimal → Value
    str : Text → Value
    bytes : List ℕ → Value
    moment : r.Moment → Value
    object : r.Object → Value

  -- What `_normalize` returns.
  pub data Normal : Type 0 where
    null : Normal
    bool : Bool → Normal
    int : ℤ → Normal
    float : r.Float → Normal
    str : Text → Normal
    object : r.Object → Normal

  unfoldable pub normalize : Value → Normal
  normalize Value.null = Normal.null
  normalize (Value.bytes b) = Normal.str (strip (r.decode b))
  normalize (Value.str s) = Normal.str (strip s)
  normalize (Value.moment m) = Normal.str (r.isoformat m)
  normalize (Value.decimal d) = Normal.float (r.float_of_decimal d)
  normalize (Value.bool b) = Normal.bool b
  normalize (Value.int n) = Normal.int n
  normalize (Value.float x) = Normal.float x
  normalize (Value.object o) = Normal.object o

  -- `isinstance(v, (int, float))`; a bool is an int.
  unfoldable pub as_number : Normal → Option (Number r.Float)
  as_number (Normal.bool b) = some (Number.int (if b then ℤ.pos 1 else ℤ.pos 0))
  as_number (Normal.int n) = some (Number.int n)
  as_number (Normal.float x) = some (Number.float x)
  as_number _ = none

  unfoldable pub to_float : Number r.Float → Option r.Float
  to_float (Number.int n) = r.float_of_int n
  to_float (Number.float x) = some x

  -- `math.isclose(float(a), float(b), …)`, or `a == b` if a conversion raises
  unfoldable pub close : Number r.Float → Number r.Float → Bool
  close a b = elim (to_float a) [
    | none ↦ r.number_eq a b
    | some x ↦ elim (to_float b) [ none ↦ r.number_eq a b | some y ↦ r.is_close x y ]
  ]

  -- `a == b` where at most one side is a number
  unfoldable pub same : Normal → Normal → Bool
  same (Normal.str s) (Normal.str t) = text_eq s t
  same (Normal.object a) (Normal.object b) = r.object_eq a b
  same _ _ = false

  unfoldable pub normal_eq : Normal → Normal → Bool
  normal_eq Normal.null Normal.null = true
  normal_eq Normal.null _ = false
  normal_eq _ Normal.null = false
  normal_eq a b = elim (as_number a) [
    | none ↦ same a b
    | some x ↦ elim (as_number b) [ none ↦ same a b | some y ↦ close x y ]
  ]

  -- `_eq`
  unfoldable pub value_eq : Value → Value → Bool
  value_eq a b = normal_eq (normalize a) (normalize b)

  -- `str` of a normalized value
  unfoldable pub str_of : Normal → Text
  str_of Normal.null = codes "None"
  str_of (Normal.bool b) = if b then codes "True" else codes "False"
  str_of (Normal.int n) = r.str_of_int n
  str_of (Normal.float x) = r.str_of_float x
  str_of (Normal.str s) = s
  str_of (Normal.object o) = r.str_of_object o

  abbrev pub Row : Type 0
  Row = List Value

-- The order of tuples of texts.
unfoldable pub texts_le : List Text → List Text → Bool
texts_le [] t = true
texts_le (a ∷ s) [] = false
texts_le (a ∷ s) (b ∷ t) = if text_eq a b then texts_le s t else text_le a b
