-- ===== src/Artifacts/Reading.antt =====
-- A client that reads a result page by page, with the cursor of each page.
use workflow_mcp.Common.{
  ℕ, zero, suc, ◌+◌, ◌-◌, ◌≤◌, ◌<◌, min, true, false, not, ◌||◌, List, [], ◌++◌, Option, none, some,
  ◌≡◌, ◌⊎◌, refl, sym, ◌∙◌, ap, arith, inl, inr, leb, ltb, ◌==◌, length, take, drop,
  take-append-drop, length-drop, drop-drop, take-all, Bool-cases, eq_refl, Result, ok, err, ◌>>=◌,
}
use workflow_mcp.Js.Units.{units}
use workflow_mcp.Artifacts.{
  is_utf8, StoreError, invalid_cursor, ResultCursor, CursorText, ResultPage,
  StoredWorkflowResultMetadata, result_cursor, result_page, bad_length, agent_result_page,
  read_open_file, read_result, parse_result_cursor,
}
use workflow_mcp.Artifacts.Pages.{page_from_selection_lem}

-- The page of an agent's bytes at hand is the page that is read of a file of the same bytes.
pub agent_result_page-read_open_file :
    (metadata : StoredWorkflowResultMetadata) (bytes : List ℕ) (from max_bytes : ℕ)
    → from ≤ metadata.size_bytes
    → 0 < max_bytes
    → agent_result_page metadata bytes from max_bytes
      ≡ read_open_file metadata bytes max_bytes from (λ n. n)
unfolding agent_result_page
agent_result_page-read_open_file metadata bytes from max_bytes inside some_bytes =
    elim (Bool-cases (from == metadata.size_bytes)) [
      | inl at ↦ let past : leb metadata.size_bytes from ≡ true = ground arith in rw (at, past) refl
      | inr before ↦
          let less : leb metadata.size_bytes from ≡ false = ground arith in
          let asked : (min max_bytes (metadata.size_bytes - from) == 0) ≡ false = ground arith in
          let same : min (from + max_bytes) metadata.size_bytes - from
              ≡ min max_bytes (metadata.size_bytes - from) =
            omega arith in
          rw (before, less, asked, same) refl
    ]

-- A reader of a file with its metadata; `cursor_length` is how long the text of a cursor is.
pub record Reader : Type 0 where
  pub metadata : StoredWorkflowResultMetadata
  pub file : List ℕ
  pub max_bytes : ℕ
  pub cursor_length : ResultCursor → ℕ

-- The file is a text of the size that its metadata names, and the arguments are in their ranges.
abbrev pub IsReader : Reader → Type 0
IsReader r =
    (is_utf8 r.file ≡ true)
    × (r.metadata.size_bytes ≡ length r.file)
    × (length r.file ≤ 536870912)
    × (4 ≤ r.max_bytes)
    × (r.max_bytes ≤ 65536)
    × (bad_length (length (units r.metadata.artifact_id)) ≡ false)
    × ((cursor : ResultCursor) → bad_length (r.cursor_length cursor) ≡ false)

abbrev pub text_of : Reader → ResultCursor → CursorText
text_of r cursor = record { length = r.cursor_length cursor; found = some cursor }

abbrev pub page_at : Reader → Option CursorText → Result StoreError ResultPage
page_at r cursor =
    read_result r.metadata (some r.file)
      (record { artifact_id = r.metadata.artifact_id; cursor = cursor; max_bytes = r.max_bytes })
      (λ n. n)

-- The contents of the pages from a cursor on. The fuel counts the pages after the first.
unfoldable pub read_pages : Reader → ℕ → Option CursorText → Result StoreError (List ℕ)
read_pages r zero cursor = page_at r cursor >>= λ page. elim page.next_cursor [
  | none ↦ ok page.content
  | some next ↦ err invalid_cursor
]
read_pages r (suc fuel) cursor = page_at r cursor >>= λ page. elim page.next_cursor [
  | none ↦ ok page.content
  | some next ↦
      let rest = read_pages r fuel (some (text_of r next)) in
      rest >>= λ content. ok (page.content ++ content)
]

-- A cursor that is absent, or of the result's own checksum.
data Points (r : Reader) : Option CursorText → ℕ → Type 0 where
  start : Points r none 0
  cursor_at :
      (n : ℕ)
      → n ≤ r.metadata.size_bytes
      → Points r (some (text_of r (result_cursor r.metadata n))) n

parse_result_cursor-Points :
    (r : Reader) (n : ℕ)
    → n ≤ r.metadata.size_bytes
    → parse_result_cursor (some (text_of r (result_cursor r.metadata n))) r.metadata ≡ ok n
unfolding parse_result_cursor
parse_result_cursor-Points r n few =
    let inside : ltb r.metadata.size_bytes n ≡ false = ground arith in
    rw (eq_refl r.metadata.checksum, inside) refl

page_at-Points :
    (r : Reader) (cursor : Option CursorText) (n : ℕ)
    → IsReader r
    → Points r cursor n
    → page_at r cursor ≡ read_open_file r.metadata r.file r.max_bytes n (λ n. n)
unfolding read_result parse_result_cursor
page_at-Points r _ _ fine start =
    let (valid, size, small, low, high, id, texts) = fine in
    let t1 : (ltb r.max_bytes 4 || ltb 65536 r.max_bytes) ≡ false = ground arith in
    let t2 : not (length r.file == r.metadata.size_bytes) || ltb 536870912 (length r.file) ≡ false =
      ground arith in
    rw (id, t1, eq_refl r.metadata.artifact_id, t2) refl
page_at-Points r _ _ fine (cursor_at n few) =
    let (valid, size, small, low, high, id, texts) = fine in
    let t1 : (ltb r.max_bytes 4 || ltb 65536 r.max_bytes) ≡ false = ground arith in
    let t2 : not (length r.file == r.metadata.size_bytes) || ltb 536870912 (length r.file) ≡ false =
      ground arith in
    rw
      (
        id,
        texts (result_cursor r.metadata n),
        t1,
        eq_refl r.metadata.artifact_id,
        parse_result_cursor-Points r n few,
        t2,
      )
      refl

-- The page at an offset between two code points ends at one, and further on unless the file is at its
-- end.
read_open_file-page :
    (r : Reader) (n : ℕ)
    → IsReader r
    → n ≤ r.metadata.size_bytes
    → is_utf8 (drop n r.file) ≡ true
    → (to : ℕ) × (read_open_file r.metadata r.file r.max_bytes n (λ m. m)
        ≡ ok (
            result_page r.metadata n to
              (take (to - n) (drop n r.file))
              (ltb to r.metadata.size_bytes)))
      × (n ≤ to)
      × (to ≤ r.metadata.size_bytes)
      × ((n < to) ⊎ (n ≡ r.metadata.size_bytes))
      × (is_utf8 (drop to r.file) ≡ true)
unfolding take
read_open_file-page r n fine few valid =
    let (whole, size, small, low, high, id, texts) = fine in
    let left = length-drop n r.file in
    elim (Bool-cases (n == r.metadata.size_bytes)) [
      | inl at ↦
          let end : ltb n r.metadata.size_bytes ≡ false = ground arith in
          let empty : take (n - n) (drop n r.file) ≡ [] =
            ap (λ k. take k (drop n r.file)) {x = n - n} {y = 0} (omega arith) in
          (n, rw (at, end, empty) refl, omega arith, few, inr (ground arith), valid)
      | inr before ↦
          let inside : n < length r.file = ground arith in
          let asked : (min r.max_bytes (r.metadata.size_bytes - n) == 0) ≡ false = ground arith in
          let (to, page, further, short, rest) =
            page_from_selection_lem r.metadata r.file n
              (min r.max_bytes (r.metadata.size_bytes - n)) valid inside (omega arith)
              (omega arith) in
          (to, rw (before, asked, page) refl, omega arith, omega arith, inl further, rest)
    ]

-- The page of a part, and what is read after it, are the rest of the file.
take-rest :
    (n to : ℕ) (file : List ℕ) → n ≤ to → take (to - n) (drop n file) ++ drop to file ≡ drop n file
take-rest n to file few =
    ap (λ ys. take (to - n) (drop n file) ++ ys) (sym (drop-drop (to - n) n to file (omega arith)))
    ∙ take-append-drop (to - n) (drop n file)

take-last :
    (n to : ℕ) (file : List ℕ) → length file ≤ to → take (to - n) (drop n file) ≡ drop n file
take-last n to file all =
    let left = length-drop n file in take-all (to - n) (drop n file) (omega arith)

read_pages-rest :
    (r : Reader) (fuel n : ℕ) (cursor : Option CursorText)
    → IsReader r
    → Points r cursor n
    → n ≤ r.metadata.size_bytes
    → is_utf8 (drop n r.file) ≡ true
    → r.metadata.size_bytes - n ≤ fuel
    → read_pages r fuel cursor ≡ ok (drop n r.file)
unfolding read_pages
read_pages-rest r zero n cursor fine points few valid enough =
    let (to, page, on, inside, further, rest) = read_open_file-page r n fine few valid in
    let size = fine.1 in
    let last : ltb to r.metadata.size_bytes ≡ false = ground arith in
    rw (page_at-Points r cursor n fine points, page, last)
      (ap ok (take-last n to r.file (omega arith)))
read_pages-rest r (suc fuel) n cursor fine points few valid enough =
    let (to, page, on, inside, further, rest) = read_open_file-page r n fine few valid in
    let size = fine.1 in
    elim (Bool-cases (ltb to r.metadata.size_bytes)) [
      | inl more ↦
          let below : to < r.metadata.size_bytes = ground arith in
          let fewer : r.metadata.size_bytes - to ≤ fuel = elim further [
            | inl less ↦ omega arith
            | inr done ↦ omega arith
          ] in
          let next =
            read_pages-rest r fuel to (some (text_of r (result_cursor r.metadata to))) fine
              (cursor_at to inside) inside rest fewer in
          rw (page_at-Points r cursor n fine points, page, more, next)
            (ap ok (take-rest n to r.file on))
      | inr last ↦
          let end : r.metadata.size_bytes ≤ to = ground arith in
          rw (page_at-Points r cursor n fine points, page, last)
            (ap ok (take-last n to r.file (omega arith)))
    ]

-- A client that reads a text of at most 512 MiB in pages of 4 to 65,536 bytes, each with the cursor of
-- the page before, where the lengths of the identity and of the cursors are in their bounds and every
-- read gives the bytes it asks for, gets no error and comes to an end after at most one page more than
-- there are bytes; the contents of the pages, one after the other, are the file.
pub read_pages-file : (r : Reader) → IsReader r → read_pages r (length r.file) none ≡ ok r.file
unfolding drop
read_pages-file r fine =
    let size = fine.1 in
    read_pages-rest r (length r.file) 0 none fine start (omega arith) fine.0 (omega arith)
