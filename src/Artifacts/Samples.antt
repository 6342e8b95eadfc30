-- ===== src/Artifacts/Samples.antt =====
-- A short text of one, two and four bytes for a code point.
use workflow_mcp.Common.{ℕ, true, false, List, [], ◌∷◌, none, ◌≡◌, refl, arith, ok, err}
use workflow_mcp.Js.Units.{units, char_units}
use workflow_mcp.Common.{take, drop}
use workflow_mcp.Artifacts.{
  next_byte, scan, is_utf8, invalid_cursor, StoredWorkflowResultMetadata, result_page,
  decode_trimmed, page_from_selection, agent_result_page, read_open_file,
}
use workflow_mcp.Artifacts.Reading.{
  Reader, IsReader, read_pages, read_pages-file, agent_result_page-read_open_file,
}

-- "aé\u{1F600}b"
abbrev file : List ℕ
file = 97 ∷ 195 ∷ 169 ∷ 240 ∷ 159 ∷ 152 ∷ 128 ∷ 98 ∷ []

abbrev metadata : StoredWorkflowResultMetadata
metadata = record { artifact_id = "result"; size_bytes = 8; checksum = "sum" }

-- Four bytes would end inside the last code point, which is left to the next page.
first_page :
    agent_result_page metadata file 0 4 ≡ ok (result_page metadata 0 3 (97 ∷ 195 ∷ 169 ∷ []) true)
unfolding agent_result_page page_from_selection decode_trimmed is_utf8 scan next_byte take drop
first_page = refl

inside : agent_result_page metadata file 4 4 ≡ err invalid_cursor
unfolding agent_result_page page_from_selection decode_trimmed is_utf8 scan next_byte take drop
inside = refl

surrogate : is_utf8 (237 ∷ 160 ∷ 128 ∷ []) ≡ false
unfolding is_utf8 scan next_byte
surrogate = refl

abbrev reader : Reader
reader = record { metadata = metadata; file = file; max_bytes = 4; cursor_length = λ cursor. 80 }

reader-IsReader : IsReader reader
unfolding is_utf8 scan next_byte units char_units
reader-IsReader = (refl, refl, omega arith, omega arith, omega arith, refl, λ cursor. refl)

read_pages-file_example : read_pages reader 8 none ≡ ok file
read_pages-file_example = read_pages-file reader reader-IsReader

agent_result_page-read_open_file_example :
    agent_result_page metadata file 3 4 ≡ read_open_file metadata file 4 3 (λ n. n)
agent_result_page-read_open_file_example =
    agent_result_page-read_open_file metadata file 3 4 (omega arith) (omega arith)
