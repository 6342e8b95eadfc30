-- ===== src/Js/Json.antt =====
-- JSON.stringify without indentation, on a value that JSON can carry.
use Prim.Native.Char.{Char, code}
use Prim.Native.String
use Prim.Native.String.{char_at}
use Prim.Native.Nat.{compare, Ordering}
use workflow_mcp.Common.{
  ℕ, zero, suc, ◌+◌, ◌-◌, ◌*◌, ◌/◌, ◌%◌, String, Bool, true, false, Option, none, some, ltb, leb,
  ◌==◌, if◌then◌else◌,
}
use workflow_mcp.Value.{
  Number, natural, negative, fraction, Value, Properties, Elements, object, array, text, number,
  boolean, null, no_properties, property, no_elements, element,
}

infixr 65 ◌⧺◌
abbrev pub ◌⧺◌ : String → String → String
s ⧺ t = String.◌++◌ s t

-- One hexadecimal or decimal digit.
unfoldable digit : ℕ → Char
digit n = char_at "0123456789abcdef" n

-- The decimal digits of a number before `rest`; a number has no more digits than it counts.
unfoldable digits : ℕ → ℕ → String → String
unfolding digit
digits zero n rest = String.◌∷◌ (digit n) rest
digits (suc fuel) n rest = elim (compare n 10) [
  | Ordering.lt ↦ String.◌∷◌ (digit n) rest
  | _ ↦ digits fuel (n / 10) (String.◌∷◌ (digit (n % 10)) rest)
]

unfoldable pub decimal : ℕ → String
unfolding digits
decimal n = digits n n ""

-- The text of an integer; one of at least 10^21 prints with an exponent, and is a `fraction`.
unfoldable number_json : Number → String
unfolding decimal
number_json (natural n) = decimal n
number_json (negative n) = "-" ⧺ decimal (suc n)
number_json (fraction t) = t

unfoldable escape : Char → String
unfolding digit
escape c =
    if code c == 34
    then "\\\""
    else if code c == 92
    then "\\\\"
    else if code c == 8
    then "\\b"
    else if code c == 9
    then "\\t"
    else if code c == 10
    then "\\n"
    else if code c == 12
    then "\\f"
    else if code c == 13
    then "\\r"
    else if ltb (code c) 32
    then "\\u00" ⧺ String.◌∷◌ (digit (code c / 16)) (String.◌∷◌ (digit (code c % 16)) "")
    else String.◌∷◌ c ""

unfoldable escapes : String → String
unfolding escape
escapes String.[] = ""
escapes (String.◌∷◌ c s) = escape c ⧺ escapes s

unfoldable quote : String → String
unfolding escapes
quote s = "\"" ⧺ (escapes s ⧺ "\"")

abbrev comma : Bool → String
comma true = ""
comma false = ","

unfoldable mutual
  unfolding number_json quote

  pub json : Value → String
  json (object ps) = "{" ⧺ (json_properties true ps ⧺ "}")
  json (array es) = "[" ⧺ (json_elements true es ⧺ "]")
  json (text s) = quote s
  json (number n) = number_json n
  json (boolean true) = "true"
  json (boolean false) = "false"
  json null = "null"

  json_properties : Bool → Properties → String
  json_properties first no_properties = ""
  json_properties first (property k v ps) =
      comma first ⧺ (quote k ⧺ (":" ⧺ (json v ⧺ json_properties false ps)))

  json_elements : Bool → Elements → String
  json_elements first no_elements = ""
  json_elements first (element v es) = comma first ⧺ (json v ⧺ json_elements false es)

-- The number that a text of digits denotes.
unfoldable read_digits : ℕ → String → Option ℕ
read_digits n String.[] = some n
read_digits n (String.◌∷◌ c s) =
    let rest = read_digits (10 * n + (code c - 48)) s in
    if ltb (code c) 48 then none else if ltb 57 (code c) then none else rest

abbrev below_last : Option ℕ → Option ℕ
below_last none = none
below_last (some n) = if ltb n 4294967295 then some n else none

-- The name of an array index: the digits, without leading zeros, of a number below 2^32 - 1.
unfoldable pub array_index : String → Option ℕ
unfolding read_digits
array_index String.[] = none
array_index (String.◌∷◌ c String.[]) = read_digits 0 (String.◌∷◌ c "")
array_index (String.◌∷◌ c (String.◌∷◌ d s)) =
    if code c == 48 then none else below_last (read_digits 0 (String.◌∷◌ c (String.◌∷◌ d s)))

abbrev index_before : Option ℕ → Option ℕ → Bool
index_before none other = false
index_before (some n) none = true
index_before (some n) (some m) = leb n m

-- A property that was set comes among the others where an enumeration of the object gives it: names
-- that are array indices first, in their order, then the others as they were set.
unfoldable pub enumerate_one : String → Value → Properties → Properties
unfolding array_index
enumerate_one k v no_properties = property k v no_properties
enumerate_one k v (property j w ps) =
    let later = enumerate_one k v ps in
    if index_before (array_index k) (array_index j)
    then property k v (property j w ps)
    else property j w later
