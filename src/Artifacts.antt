-- ===== src/Artifacts.antt =====
-- src/fileWorkflowStore.ts: the pages in which the UTF-8 bytes of a result are read. A file is the list
-- of its bytes, and a text that was decoded stands as its bytes in UTF-8. The pattern of a cursor is not
-- modelled: a cursor is what the pattern matches, a checksum and an offset, or nothing.
pub mod Utf8
pub mod Decoding
pub mod Pages
pub mod Reading
mod Samples
use workflow_mcp.Common.{
  ℕ, zero, suc, ◌+◌, ◌-◌, ◌≤◌, min, String, Bool, true, false, not, ◌&&◌, ◌||◌, List, [], ◌∷◌,
  Option, none, some, ltb, leb, ◌==◌, str_eq, if◌then◌else◌, length, take, drop, Result, ok, err,
  ◌>>=◌, ◌>>◌, throw_if,
}
use workflow_mcp.Js.Units.{units}

abbrev between : ℕ → ℕ → ℕ → Bool
between lower upper byte = leb lower byte && leb byte upper

-- The state of a UTF-8 decoder: between two code points, or with `seen` bytes read after the first of
-- one, where `needed` more follow the next, which lies between two bounds.
pub data Utf8State : Type 0 where
  boundary : Utf8State
  expect : (seen needed lower upper : ℕ) → Utf8State

unfoldable pub next_byte : Utf8State → ℕ → Option Utf8State
next_byte boundary byte =
    if leb byte 127
    then some boundary
    else if between 194 223 byte
    then some (expect 0 0 128 191)
    else if byte == 224
    then some (expect 0 1 160 191)
    else if byte == 237
    then some (expect 0 1 128 159)
    else if between 225 239 byte
    then some (expect 0 1 128 191)
    else if byte == 240
    then some (expect 0 2 144 191)
    else if byte == 244
    then some (expect 0 2 128 143)
    else if between 241 243 byte
    then some (expect 0 2 128 191)
    else none
next_byte (expect seen zero lower upper) byte =
    if between lower upper byte then some boundary else none
next_byte (expect seen (suc needed) lower upper) byte =
    if between lower upper byte then some (expect (suc seen) needed 128 191) else none

unfoldable pub scan : Utf8State → List ℕ → Option Utf8State
scan s [] = some s
scan s (byte ∷ bytes) = elim (next_byte s byte) [ none ↦ none | some t ↦ scan t bytes ]

abbrev pub is_complete : Option Utf8State → Bool
is_complete (some boundary) = true
is_complete other = false

-- Whether `new TextDecoder('utf-8', { fatal: true })` decodes the bytes.
unfoldable pub is_utf8 : List ℕ → Bool
is_utf8 bytes = is_complete (scan boundary bytes)

-- `(byte & 0xc0) === 0x80`
abbrev pub is_utf8_continuation_byte : ℕ → Bool
is_utf8_continuation_byte byte = between 128 191 byte

pub data StoreError : Type 0 where
  result_not_found invalid_cursor corrupt_store bad_max_bytes : StoreError

pub record Decoded : Type 0 where
  pub bytes : ℕ
  pub content : List ℕ

-- The rounds of the loop from `trim` on, with the number of those after it.
unfoldable pub decode_trimmed : List ℕ → ℕ → ℕ → Result StoreError Decoded
decode_trimmed bytes zero trim =
    let count = length bytes - trim in
    if is_utf8 (take count bytes)
    then ok (record { bytes = count; content = take count bytes })
    else err corrupt_store
decode_trimmed bytes (suc rounds) trim =
    let later = decode_trimmed bytes rounds (suc trim) in
    let count = length bytes - trim in
    if is_utf8 (take count bytes)
    then ok (record { bytes = count; content = take count bytes })
    else later

abbrev pub decode_complete_utf8_prefix : List ℕ → Result StoreError Decoded
decode_complete_utf8_prefix bytes = decode_trimmed bytes (min 3 (length bytes)) 0

pub record ResultCursor : Type 0 where
  pub checksum : String
  pub offset : ℕ

pub record StoredWorkflowResultMetadata : Type 0 where
  pub artifact_id : String
  pub size_bytes : ℕ
  pub checksum : String

-- The identities and the metadata that a page repeats are left out.
pub record ResultPage : Type 0 where
  pub from_byte : ℕ
  pub to_byte : ℕ
  pub content : List ℕ
  pub has_more : Bool
  pub next_cursor : Option ResultCursor

abbrev pub result_cursor : StoredWorkflowResultMetadata → ℕ → ResultCursor
result_cursor metadata n = record { checksum = metadata.checksum; offset = n }

-- The text of a cursor: its length, and the checksum and the offset that the pattern finds in it.
pub record CursorText : Type 0 where
  pub length : ℕ
  pub found : Option ResultCursor

-- `artifactId.length` or `cursor.length` out of its range.
abbrev pub bad_length : ℕ → Bool
bad_length n = n == 0 || ltb 200 n

abbrev pub bad_cursor : Option CursorText → Bool
bad_cursor none = false
bad_cursor (some text) = bad_length text.length

abbrev pub check_offset : StoredWorkflowResultMetadata → Option ResultCursor → Result StoreError ℕ
check_offset metadata none = err invalid_cursor
check_offset metadata (some cursor) =
    if not (str_eq cursor.checksum metadata.checksum) || ltb metadata.size_bytes cursor.offset
    then err invalid_cursor
    else ok cursor.offset

unfoldable pub parse_result_cursor :
    Option CursorText → StoredWorkflowResultMetadata → Result StoreError ℕ
parse_result_cursor none metadata = ok 0
parse_result_cursor (some text) metadata = check_offset metadata text.found

abbrev pub result_page : StoredWorkflowResultMetadata → ℕ → ℕ → List ℕ → Bool → ResultPage
result_page metadata from to content more = record {
  from_byte = from;
  to_byte = to;
  content = content;
  has_more = more;
  next_cursor = if more then some (result_cursor metadata to) else none;
}

abbrev pub starts_inside : List ℕ → Bool
starts_inside [] = false
starts_inside (byte ∷ bytes) = is_utf8_continuation_byte byte

-- The page of the bytes that were selected.
unfoldable pub page_from_selection :
    StoredWorkflowResultMetadata → List ℕ → ℕ → Result StoreError ResultPage
page_from_selection metadata selected from =
    throw_if (starts_inside selected) invalid_cursor
    >> (decode_complete_utf8_prefix selected >>= λ decoded.
        let to = from + decoded.bytes in
        throw_if (leb to from) corrupt_store
        >> ok (result_page metadata from to decoded.content (ltb to metadata.size_bytes)))

-- The page of an agent's result, whose bytes are at hand.
unfoldable pub agent_result_page :
    StoredWorkflowResultMetadata → List ℕ → ℕ → ℕ → Result StoreError ResultPage
agent_result_page metadata bytes from max_bytes =
    if leb metadata.size_bytes from
    then ok (result_page metadata from from [] false)
    else page_from_selection metadata
        (take (min (from + max_bytes) metadata.size_bytes - from) (drop from bytes)) from

pub record ResultReadInput : Type 0 where
  pub artifact_id : String
  pub cursor : Option CursorText
  pub max_bytes : ℕ

-- What is read of an open file from an offset on; the last argument is how many of the requested bytes
-- a read gives.
abbrev pub read_open_file :
    StoredWorkflowResultMetadata → List ℕ → ℕ → ℕ → (ℕ → ℕ) → Result StoreError ResultPage
read_open_file metadata file max_bytes from bytes_read =
    let requested = min max_bytes (metadata.size_bytes - from) in
    if from == metadata.size_bytes
    then ok (result_page metadata from from [] false)
    else throw_if (bytes_read requested == 0) corrupt_store
      >> page_from_selection metadata (take (bytes_read requested) (drop from file)) from

-- `handle.stat`, and the read.
abbrev pub read_file :
    StoredWorkflowResultMetadata → Option (List ℕ) → ℕ → (ℕ → ℕ) → ℕ → Result StoreError ResultPage
read_file metadata none max_bytes bytes_read from = err result_not_found
read_file metadata (some file) max_bytes bytes_read from =
    throw_if (not (length file == metadata.size_bytes) || ltb 536870912 (length file)) corrupt_store
    >> read_open_file metadata file max_bytes from bytes_read

-- `readResult` of a run that has a manifest and metadata. The file may be missing; another failure of
-- opening it is not modelled.
unfoldable pub read_result :
    StoredWorkflowResultMetadata
    → Option (List ℕ)
    → ResultReadInput
    → (ℕ → ℕ)
    → Result StoreError ResultPage
unfolding units
read_result metadata file input bytes_read =
    throw_if (bad_length (length (units input.artifact_id))) result_not_found
    >> (throw_if (bad_cursor input.cursor) invalid_cursor
        >> (throw_if (ltb input.max_bytes 4 || ltb 65536 input.max_bytes) bad_max_bytes
            >> (throw_if (not (str_eq input.artifact_id metadata.artifact_id)) result_not_found
                >> (parse_result_cursor input.cursor metadata
                    >>= read_file metadata file input.max_bytes bytes_read))))
