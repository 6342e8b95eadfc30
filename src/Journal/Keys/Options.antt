-- ===== src/Journal/Keys/Options.antt =====
-- What of the options of a call its key depends on.
use workflow_mcp.Common.{String, List, [], ◌∷◌, Option, none, some, ◌≡◌, ap, All, ok, ◌>>=◌}
use workflow_mcp.Js.{JsValue, JsProperties, own_property}
use workflow_mcp.Journal.Canonical.Reordering.{
  Reordered, in_object, ReorderedProperties, empty, keep, canonicalize_journal_value-Reordered,
}
use workflow_mcp.Journal.Keys.{
  execution_option_keys, select, select_all, execution_options, canonical_options, journal_key,
  create_journal_key,
}

-- An option is given by neither, or by both, up to the order of properties.
pub data SameOption : Option JsValue → Option JsValue → Type 0 where
  neither : SameOption none none
  given : (v w : JsValue) → Reordered v w → SameOption (some v) (some w)

select-Reordered :
    (key : String) (o p : Option JsValue) (ps qs : JsProperties)
    → SameOption o p
    → ReorderedProperties ps qs
    → ReorderedProperties (select o key ps) (select p key qs)
select-Reordered key o p ps qs neither r = r
select-Reordered key o p ps qs (given v w same) r = keep key v w ps qs same r

select_all-Reordered :
    (keys : List String) (ps qs : JsProperties)
    → All (λ key. SameOption (own_property key ps) (own_property key qs)) keys
    → ReorderedProperties (select_all keys ps) (select_all keys qs)
select_all-Reordered [] ps qs h = empty
select_all-Reordered (key ∷ keys) ps qs h =
    select-Reordered key (own_property key ps) (own_property key qs) (select_all keys ps)
      (select_all keys qs) h.0 (select_all-Reordered keys ps qs h.1)

-- The key of a call depends on the previous key, the prompt and five of its options alone, and on these
-- up to the order of properties at any depth: other options, and the order in which any are written,
-- do not change it.
pub create_journal_key-options :
    (sha256 : String → String) (previous_key prompt : String) (ps qs : JsProperties)
    → All (λ key. SameOption (own_property key ps) (own_property key qs)) execution_option_keys
    → create_journal_key sha256 previous_key prompt (some ps)
      ≡ create_journal_key sha256 previous_key prompt (some qs)
unfolding create_journal_key canonical_options execution_options
create_journal_key-options sha256 previous_key prompt ps qs h =
    ap (λ m. m >>= λ canonical. ok (journal_key sha256 previous_key prompt canonical))
      (canonicalize_journal_value-Reordered _ _
        (in_object _ _ (select_all-Reordered execution_option_keys ps qs h)))
