-- ===== src/Json.antt =====
-- The values of the program's language that cross its interfaces: what `JSON.parse` gives, and
-- `undefined` and other types, which code that walks over a value has to answer for.
use Prim.Native.Nat.{ℕ}
use mathlib.Core.Bool.{Bool}
use mathlib.Core.List.{List, [], ◌∷◌}
use Prim.Native.Char.{code}
use Prim.Native.String.{String}

-- A string as its UTF-16 code units.
abbrev pub Text : Type 0
Text = List ℕ

-- The code units of a literal; the program's literals are ASCII.
abbrev pub codes : String → Text
codes String.[] = []
codes (String.◌∷◌ c s) = code c ∷ codes s

-- A number is finite, and then known by a tag, or it is not a number or infinite.
pub data JsNumber : Type 0 where
  finite : ℕ → JsNumber
  nan infinity negative_infinity : JsNumber

mutual
  pub data Value : Type 0 where
    null undefined : Value
    bool : Bool → Value
    num : JsNumber → Value
    str : Text → Value
    arr : Items → Value
    obj : Fields → Value
    -- a function, a symbol or a big integer
    other : Value

  pub data Items : Type 0 where
    nil : Items
    cons : Value → Items → Items

  -- The own enumerable properties in `Object.entries` order.
  pub data Fields : Type 0 where
    end : Fields
    field : Text → Value → Fields → Fields
