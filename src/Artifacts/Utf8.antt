-- ===== src/Artifacts/Utf8.antt =====
-- Where a text in UTF-8 can be cut: any part of one that starts between two code points is, without at
-- most three bytes at its end, a text again.
use workflow_mcp.Common.{
  ℕ, zero, suc, ◌+◌, ◌-◌, ◌≤◌, Bool, true, false, List, [], ◌∷◌, ◌++◌, Option, none, some, ◌≡◌, ◌⊎◌,
  refl, ◌∙◌, ap, subst, arith, inl, inr, leb, ◌==◌, ◌&&◌, length, take, if◌then◌else◌, Bool-cases,
  Option-cases,
}
use mathlib.Core.Option.{some-injective}
use workflow_mcp.Artifacts.{
  Utf8State, boundary, expect, next_byte, scan, is_complete, is_utf8, is_utf8_continuation_byte,
  starts_inside,
}

-- How many bytes were read since the last boundary.
abbrev pub seen_bytes : Utf8State → ℕ
seen_bytes boundary = 0
seen_bytes (expect seen needed lower upper) = suc seen

-- Three bytes at most.
abbrev IsShort : Utf8State → Type 0
IsShort boundary = Unit {0}
IsShort (expect seen needed lower upper) = seen + needed ≤ 2

-- What a byte leads to from a state.
Moves : Utf8State → Utf8State → Type 0
Moves s t = IsShort t × ((t ≡ boundary) ⊎ (seen_bytes t ≡ suc (seen_bytes s)))

if-some :
    (s u : Utf8State) (b : Bool) (rest : Option Utf8State)
    → Moves s u
    → ((t : Utf8State) → rest ≡ some t → Moves s t)
    → (t : Utf8State) → (if b then some u else rest) ≡ some t
    → Moves s t
if-some s u true rest p f t h = subst (λ w. Moves s w) (some-injective u t h) p
if-some s u false rest p f t h = f t h

none-Moves : (s t : Utf8State) → none ≡ some t → Moves s t
none-Moves s t h = cc

opens : (needed lower upper : ℕ) → needed ≤ 2 → Moves boundary (expect 0 needed lower upper)
unfolding Moves
opens needed lower upper few = (omega arith, inr refl)

-- A byte ends a code point, or is one more of it.
next_byte-Moves : (s t : Utf8State) (b : ℕ) → IsShort s → next_byte s b ≡ some t → Moves s t
unfolding next_byte Moves
next_byte-Moves boundary t b short =
    if-some boundary boundary _ _ (tt, inl refl)
      (if-some boundary (expect 0 0 128 191) _ _ (opens 0 128 191 (omega arith)) (
        if-some boundary (expect 0 1 160 191) _ _ (opens 1 160 191 (omega arith)) (
          if-some boundary (expect 0 1 128 159) _ _ (opens 1 128 159 (omega arith)) (
            if-some boundary (expect 0 1 128 191) _ _ (opens 1 128 191 (omega arith)) (
              if-some boundary (expect 0 2 144 191) _ _ (opens 2 144 191 (omega arith)) (
                if-some boundary (expect 0 2 128 143) _ _ (opens 2 128 143 (omega arith)) (
                  if-some boundary (expect 0 2 128 191) _ _ (opens 2 128 191 (omega arith))
                    (none-Moves boundary))))))))
      t
next_byte-Moves (expect seen zero lower upper) t b short =
    if-some (expect seen zero lower upper) boundary _ _ (tt, inl refl)
      (none-Moves (expect seen zero lower upper)) t
next_byte-Moves (expect seen (suc n) lower upper) t b short =
    if-some (expect seen (suc n) lower upper) (expect (suc seen) n 128 191) _ _
      (omega arith, inr refl) (none-Moves (expect seen (suc n) lower upper)) t

scan-cons :
    (s t : Utf8State) (x : ℕ) (xs : List ℕ)
    → scan s (x ∷ xs) ≡ some t
    → (u : Utf8State) × (next_byte s x ≡ some u) × (scan u xs ≡ some t)
unfolding scan
scan-cons s t x xs h = elim (Option-cases (next_byte s x)) [
  | inl bad ↦ let gone = rw (scan, bad) at h in cc
  | inr (u, good) ↦ (u, good, rw (scan, good) at h)
]

scan-step :
    (s u : Utf8State) (x : ℕ) (xs : List ℕ) → next_byte s x ≡ some u → scan s (x ∷ xs) ≡ scan u xs
unfolding scan
scan-step s u x xs good = rw (scan, good) refl

pub scan-append :
    (s : Utf8State) (xs ys : List ℕ) (t : Utf8State)
    → scan s xs ≡ some t
    → scan s (xs ++ ys) ≡ scan t ys
unfolding scan
scan-append s [] ys t h = ap (λ u. scan u ys) (some-injective s t h)
scan-append s (x ∷ xs) ys t h =
    let (u, good, rest) = scan-cons s t x xs h in
    scan-step s u x (xs ++ ys) good ∙ scan-append u xs ys t rest

-- Some state is reached in the middle of bytes that are read to their end.
pub scan-prefix :
    (s : Utf8State) (xs ys : List ℕ) (t : Utf8State)
    → scan s (xs ++ ys) ≡ some t
    → (u : Utf8State) × (scan s xs ≡ some u)
unfolding scan
scan-prefix s [] ys t h = (s, refl)
scan-prefix s (x ∷ xs) ys t h =
    let (u, good, rest) = scan-cons s t x (xs ++ ys) h in
    let (v, read) = scan-prefix u xs ys t rest in (v, scan-step s u x xs good ∙ read)

take-scan :
    (s u : Utf8State) (x : ℕ) (xs : List ℕ) (n k : ℕ)
    → next_byte s x ≡ some u
    → n ≡ suc k
    → scan s (take n (x ∷ xs)) ≡ scan u (take k xs)
unfolding take
take-scan s u x xs n k good same =
    ap (λ j. scan s (take j (x ∷ xs))) same ∙ scan-step s u x (take k xs) good

-- The state reached is at most three bytes after a boundary, and either no boundary was passed, or the
-- bytes without those after the last one end at a boundary.
last_boundary :
    (s t : Utf8State) (xs : List ℕ)
    → IsShort s
    → scan s xs ≡ some t
    → IsShort t
      × ((seen_bytes t ≡ seen_bytes s + length xs)
          ⊎ ((seen_bytes t ≤ length xs)
              × (scan s (take (length xs - seen_bytes t) xs) ≡ some boundary)))
unfolding scan take Moves
last_boundary s t [] short h =
    let same = some-injective s t h in
    let count = ap seen_bytes same in (subst IsShort same short, inl (omega arith))
last_boundary s t (x ∷ xs) short h =
    let (u, good, rest) = scan-cons s t x xs h in
    let (close, moved) = next_byte-Moves s u x short good in
    let (end, passed) = last_boundary u t xs close rest in
    (
      end,
      elim passed [
        | inl count ↦ elim moved [
          | inl at ↦
              let none_seen = ap seen_bytes at in
              inr (omega arith, take-scan s u x xs _ 0 good (omega arith) ∙ ap some at)
          | inr more ↦ inl (omega arith)
        ]
        | inr (few, cut) ↦
            inr (
              omega arith,
              take-scan s u x xs _ (length xs - seen_bytes t) good (omega arith) ∙ cut,
            )
      ],
    )

pub is_complete-boundary : (end : Option Utf8State) → is_complete end ≡ true → end ≡ some boundary
is_complete-boundary (some boundary) h = refl
is_complete-boundary (some (expect seen needed lower upper)) h = cc
is_complete-boundary none h = cc

seen_bytes-le : (s : Utf8State) → IsShort s → seen_bytes s ≤ 3
seen_bytes-le boundary short = omega arith
seen_bytes-le (expect seen needed lower upper) short = omega arith

-- What can be read on to an end is valid without at most three of its bytes.
pub cut_prefix :
    (xs ys : List ℕ)
    → scan boundary (xs ++ ys) ≡ some boundary
    → (g : ℕ) × (g ≤ 3)
      × (g ≤ length xs)
      × (scan boundary (take (length xs - g) xs) ≡ some boundary)
unfolding scan take
cut_prefix xs ys h =
    let (t, read) = scan-prefix boundary xs ys boundary h in
    let (short, passed) = last_boundary boundary t xs tt read in
    elim passed [
      | inl count ↦ (
        seen_bytes t,
        seen_bytes-le t short,
        omega arith,
        ap (λ n. scan boundary (take n xs)) {x = length xs - seen_bytes t} {y = 0} (omega arith),
      )
      | inr (few, cut) ↦ (seen_bytes t, seen_bytes-le t short, few, cut)
    ]

lead_byte : (b : ℕ) → is_utf8_continuation_byte b ≡ true → next_byte boundary b ≡ none
unfolding next_byte
lead_byte b inside =
    let low : 128 ≤ b = ground arith in
    let high : b ≤ 191 = ground arith in
    let t1 : leb b 127 ≡ false = ground arith in
    let t2 : (leb 194 b && leb b 223) ≡ false = ground arith in
    let t3 : (b == 224) ≡ false = ground arith in
    let t4 : (b == 237) ≡ false = ground arith in
    let t5 : (leb 225 b && leb b 239) ≡ false = ground arith in
    let t6 : (b == 240) ≡ false = ground arith in
    let t7 : (b == 244) ≡ false = ground arith in
    let t8 : (leb 241 b && leb b 243) ≡ false = ground arith in
    rw (t1, t2, t3, t4, t5, t6, t7, t8) refl

-- No byte inside a code point begins one.
pub is_utf8-starts_inside : (bytes : List ℕ) → is_utf8 bytes ≡ true → starts_inside bytes ≡ false
unfolding is_utf8
is_utf8-starts_inside [] valid = refl
is_utf8-starts_inside (b ∷ bytes) valid =
    let (u, good, rest) = scan-cons boundary boundary b bytes (is_complete-boundary _ valid) in
    elim (Bool-cases (is_utf8_continuation_byte b)) [
      | inl inside ↦ let bad = lead_byte b inside in cc
      | inr lead ↦ lead
    ]

pub starts_inside-take :
    (k : ℕ) (bytes : List ℕ) → starts_inside bytes ≡ false → starts_inside (take k bytes) ≡ false
unfolding take
starts_inside-take zero bytes h = refl
starts_inside-take (suc k) [] h = refl
starts_inside-take (suc k) (b ∷ bytes) h = h
