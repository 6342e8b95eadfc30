-- ===== src/Artifacts/Pages.antt =====
-- The pages of a result, one after the other.
use workflow_mcp.Common.{
  ℕ, ◌+◌, ◌-◌, ◌≤◌, ◌<◌, min, true, false, List, some, ◌≡◌, refl, sym, ◌∙◌, ap, subst, arith, inl,
  inr, leb, ltb, length, take, drop, take-append-drop, length-take, length-drop, drop-drop,
  take-take, take-all, Bool-cases, ok,
}
use workflow_mcp.Artifacts.{
  boundary, scan, is_utf8, StoredWorkflowResultMetadata, result_page, page_from_selection,
  starts_inside,
}
use workflow_mcp.Artifacts.Decoding.{decode_trimmed_lem}
use workflow_mcp.Artifacts.Utf8.{
  is_complete-boundary, scan-append, cut_prefix, is_utf8-starts_inside, starts_inside-take,
}

is_utf8-scan : (bytes : List ℕ) → is_utf8 bytes ≡ true → scan boundary bytes ≡ some boundary
unfolding is_utf8
is_utf8-scan bytes valid = is_complete-boundary (scan boundary bytes) valid

scan-is_utf8 : (bytes : List ℕ) → scan boundary bytes ≡ some boundary → is_utf8 bytes ≡ true
unfolding is_utf8
scan-is_utf8 bytes read = rw read refl

-- What is left of a valid text after a valid part of it is valid.
is_utf8-drop :
    (n : ℕ) (bytes : List ℕ)
    → is_utf8 bytes ≡ true
    → is_utf8 (take n bytes) ≡ true
    → is_utf8 (drop n bytes) ≡ true
is_utf8-drop n bytes valid part = scan-is_utf8 (drop n bytes) (
    sym (
      scan-append boundary (take n bytes) (drop n bytes) boundary
        (is_utf8-scan (take n bytes) part))
    ∙ ap (scan boundary) (take-append-drop n bytes)
    ∙ is_utf8-scan bytes valid)

-- A selection of four bytes, or of all that are left, has a valid part that is not empty.
selection_cut :
    (rest : List ℕ) (k : ℕ)
    → is_utf8 rest ≡ true
    → k ≤ length rest
    → min 4 (length rest) ≤ k
    → 0 < length rest
    → (g : ℕ) × (g ≤ 3)
      × (g < length (take k rest))
      × (is_utf8 (take (length (take k rest) - g) (take k rest)) ≡ true)
selection_cut rest k valid few enough some_left =
    let count = length-take k rest in
    elim (Bool-cases (leb 4 k)) [
      | inl four ↦
          let whole = ap (scan boundary) (take-append-drop k rest) ∙ is_utf8-scan rest valid in
          let (g, small, fits, cut) = cut_prefix (take k rest) (drop k rest) whole in
          let wide : 4 ≤ k = ground arith in (g, small, omega arith, scan-is_utf8 _ cut)
      | inr all_left ↦
          let every : length rest ≤ k = ground arith in
          let same = take-all k rest every in
          (
            0,
            omega arith,
            omega arith,
            ap is_utf8 (take-all (length (take k rest) - 0) (take k rest) (omega arith) ∙ same)
                ∙ valid,
          )
    ]

-- The page of such a selection: it begins where it was asked to, ends further on between two code
-- points, and has the bytes in between.
pub page_from_selection_lem :
    (metadata : StoredWorkflowResultMetadata) (file : List ℕ) (from k : ℕ)
    → is_utf8 (drop from file) ≡ true
    → from < length file
    → k ≤ length (drop from file)
    → min 4 (length (drop from file)) ≤ k
    → (to : ℕ) × (page_from_selection metadata (take k (drop from file)) from
        ≡ ok (
            result_page metadata from to
              (take (to - from) (drop from file))
              (ltb to metadata.size_bytes)))
      × (from < to)
      × (to ≤ from + k)
      × (is_utf8 (drop to file) ≡ true)
unfolding page_from_selection
page_from_selection_lem metadata file from k valid inside few enough =
    let rest = drop from file in
    let selected = take k rest in
    let left = length-drop from file in
    let count = length-take k rest in
    let (g, small, less, cut) = selection_cut rest k valid few enough (omega arith) in
    let (d, found, same, fine, long, short) =
      decode_trimmed_lem selected (min 3 (length selected)) 0 g (omega arith) (omega arith) cut in
    let content : d.content ≡ take d.bytes rest = same ∙ take-take d.bytes k rest (omega arith) in
    let lead : starts_inside selected ≡ false =
      starts_inside-take k rest (is_utf8-starts_inside rest valid) in
    let advance : leb (from + d.bytes) from ≡ false = ground arith in
    let part = subst (λ c. is_utf8 c ≡ true) content fine in
    let exact : d.content ≡ take (from + d.bytes - from) rest =
      content ∙ ap (λ n. take n rest) {x = d.bytes} {y = from + d.bytes - from} (omega arith) in
    (
      from + d.bytes,
      rw (lead, found, advance, exact) refl,
      omega arith,
      omega arith,
      ap is_utf8 (sym (drop-drop d.bytes from (from + d.bytes) file refl))
          ∙ is_utf8-drop d.bytes rest valid part,
    )
