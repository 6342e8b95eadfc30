-- ===== src/Artifacts/Decoding.antt =====
-- What `decodeCompleteUtf8Prefix` finds.
use workflow_mcp.Common.{
  ℕ, zero, suc, ◌+◌, ◌-◌, ◌≤◌, true, false, List, ◌≡◌, refl, sym, ◌∙◌, subst, arith, inl, inr, leb,
  length, take, Bool-cases, ok,
}
use mathlib.Core.Bool.{true≢false}
use workflow_mcp.Artifacts.{is_utf8, Decoded, decode_trimmed}

past_trim :
    (bytes : List ℕ) (trim g : ℕ)
    → trim ≤ g
    → is_utf8 (take (length bytes - g) bytes) ≡ true
    → is_utf8 (take (length bytes - trim) bytes) ≡ false
    → suc trim ≤ g
past_trim bytes trim g low valid bad = elim (Bool-cases (leb (suc trim) g)) [
  | inl above ↦ ground arith
  | inr below ↦
      let same : g ≡ trim = ground arith in
      let now = subst (λ n. is_utf8 (take (length bytes - n) bytes) ≡ true) same valid in
      absurd (true≢false (sym now ∙ bad))
]

-- What the loop finds, where a cut of at most `rounds` more bytes than `trim` is valid: the longest one.
pub decode_trimmed_lem :
    (bytes : List ℕ) (rounds trim g : ℕ)
    → trim ≤ g
    → g ≤ trim + rounds
    → is_utf8 (take (length bytes - g) bytes) ≡ true
    → (d : Decoded) × (decode_trimmed bytes rounds trim ≡ ok d)
      × (d.content ≡ take d.bytes bytes)
      × (is_utf8 d.content ≡ true)
      × (length bytes - g ≤ d.bytes)
      × (d.bytes ≤ length bytes - trim)
unfolding decode_trimmed
decode_trimmed_lem bytes zero trim g low high valid =
    let now : is_utf8 (take (length bytes - trim) bytes) ≡ true =
      subst (λ n. is_utf8 (take (length bytes - n) bytes) ≡ true) (omega arith) valid in
    (
      record { bytes = length bytes - trim; content = take (length bytes - trim) bytes },
      rw now refl,
      refl,
      now,
      omega arith,
      omega arith,
    )
decode_trimmed_lem bytes (suc rounds) trim g low high valid =
    elim (Bool-cases (is_utf8 (take (length bytes - trim) bytes))) [
      | inl now ↦ (
        record { bytes = length bytes - trim; content = take (length bytes - trim) bytes },
        rw now refl,
        refl,
        now,
        omega arith,
        omega arith,
      )
      | inr later ↦
          let past : suc trim ≤ g = past_trim bytes trim g low valid later in
          let (d, found, same, fine, long, short) =
            decode_trimmed_lem bytes rounds (suc trim) g past (omega arith) valid in
          (d, rw later found, same, fine, long, omega arith)
    ]
