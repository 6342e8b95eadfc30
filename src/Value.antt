-- ===== src/Value.antt =====
-- JavaScript values of type `unknown`, as far as JSON can carry them. `undefined` is an absent
-- `Option`.
use workflow_mcp.Common.{ℕ, String, Bool}

-- A number is a natural number, a negative integer -(n + 1), or any other number by its text.
pub data Number : Type 0 where
  natural : ℕ → Number
  negative : ℕ → Number
  fraction : String → Number

-- The elements of an array and the properties of an object, in order.
mutual
  pub data Value : Type 0 where
    object : Properties → Value
    array : Elements → Value
    text : String → Value
    number : Number → Value
    boolean : Bool → Value
    null : Value

  pub data Properties : Type 0 where
    no_properties : Properties
    property : String → Value → Properties → Properties

  pub data Elements : Type 0 where
    no_elements : Elements
    element : Value → Elements → Elements
