-- ===== src/Journal/Keys.antt =====
-- `executionOptions`, `createJournalKey`, `createImportedPromptKey` and the test of their forms. The
-- hexadecimal SHA-256 digest of a text's UTF-8 is the parameter `sha256`.
pub mod Options
use Prim.Native.Char.{code}
use Prim.Native.String
use workflow_mcp.Common.{
  ℕ, zero, suc, String, Bool, true, false, ◌&&◌, ◌||◌, List, [], ◌∷◌, Option, none, some, leb, ◌==◌,
  str_eq, Result, ok, ◌>>=◌, ◌≡◌, refl,
}
use workflow_mcp.Js.{JsValue, JsProperties, object, no_properties, property, own_property}
use workflow_mcp.Js.Json.{◌⧺◌}
use workflow_mcp.Journal.{JournalError, JournalCall}
use workflow_mcp.Journal.Canonical.{canonicalize_journal_value}

abbrev pub execution_option_keys : List String
execution_option_keys = "schema" ∷ "model" ∷ "effort" ∷ "isolation" ∷ "agentType" ∷ []

abbrev pub select : Option JsValue → String → JsProperties → JsProperties
select none key selected = selected
select (some value) key selected = property key value selected

abbrev pub select_all : List String → JsProperties → JsProperties
select_all [] options = no_properties
select_all (key ∷ keys) options = select (own_property key options) key (select_all keys options)

unfoldable pub execution_options : Option JsProperties → JsProperties
execution_options none = no_properties
execution_options (some options) = select_all execution_option_keys options

-- The options of a call in the form that its key commits to.
unfoldable pub canonical_options : Option JsProperties → Result JournalError String
unfolding execution_options
canonical_options options = canonicalize_journal_value (object (execution_options options))

module _ (sha256 : String → String) where
  unfoldable pub journal_key : String → String → String → String
  journal_key previous_key prompt canonical =
      "v2:" ⧺ sha256 (previous_key ⧺ ("\0" ⧺ (prompt ⧺ ("\0" ⧺ canonical))))

  unfoldable pub create_journal_key :
      String → String → Option JsProperties → Result JournalError String
  unfolding journal_key
  create_journal_key previous_key prompt options =
      canonical_options options >>= λ canonical. ok (journal_key previous_key prompt canonical)

  unfoldable pub create_imported_prompt_key : String → String
  create_imported_prompt_key prompt = "ip1:" ⧺ sha256 prompt

-- The test of a pattern `/^prefix[a-f0-9]{n}$/` behind the prefix.
unfoldable pub hex_digits : ℕ → String → Bool
hex_digits zero String.[] = true
hex_digits zero (String.◌∷◌ c s) = false
hex_digits (suc n) String.[] = false
hex_digits (suc n) (String.◌∷◌ c s) =
    ((leb 97 (code c) && leb (code c) 102) || (leb 48 (code c) && leb (code c) 57))
    && hex_digits n s

-- `/^v2:[a-f0-9]{64}$/.test(key)`
unfoldable pub is_journal_key : String → Bool
unfolding hex_digits
is_journal_key (String.◌∷◌ a (String.◌∷◌ b (String.◌∷◌ c digits))) =
    (code a == 118) && ((code b == 50) && ((code c == 58) && hex_digits 64 digits))
is_journal_key other = false

-- `/^ip1:[a-f0-9]{64}$/.test(promptKey)`
unfoldable pub is_prompt_key : String → Bool
unfolding hex_digits
is_prompt_key (String.◌∷◌ a (String.◌∷◌ b (String.◌∷◌ c (String.◌∷◌ d digits)))) =
    (code a == 105)
    && ((code b == 112) && ((code c == 49) && ((code d == 58) && hex_digits 64 digits)))
is_prompt_key other = false
