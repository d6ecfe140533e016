-- ===== src/Lexer/Converted.antt =====
-- lexer/lexer.cpp: `ConvertStringEscapes` on the literals that the lexer accepts. `StringItems` is
-- read over the literal's body alone.
use joosc.Common.{
  ℕ, zero, suc, ◌+◌, ◌-◌, ◌*◌, ◌≤◌, ◌<◌, ◌≡◌, refl, ap, ◌⊎◌, inl, inr, true, false, List, [], ◌∷◌,
  length, leb, ltb, ◌==◌, Bool-cases, arith, Outcome, ok, ltb→lt, lt→ltb, if◌then◌else◌,
}
use native.Mathlib.Nat.{le_refl}
use joosc.Base.{File}
use joosc.Lexer.Chars.{is_octal, is_string_escapable}
use joosc.Lexer.Escapes.{
  char_at, convert_octal, simple_escape, convert_char_escape, convert_loop, convert_string_escapes,
}
use joosc.Lexer.Lexeme.{ByteAt, StopsAt, fits_octal, Octal, Escape, StringItem, StringItems}
use joosc.Lexer.Literals.{octal_loop, after_backslash, advance_escaped_char}
use joosc.Lexer.Loops.{move, advance-ok, peek-ok, not-at_end, cursor-cases, get_elem?_lt}
use joosc.Lexer.State.{LexState}

char_at-ok : (s : List ℕ) (i : ℕ) {c : ℕ} → ByteAt c s i → char_at s i ≡ ok c
unfolding char_at
char_at-ok s i h = rw (h, char_at)

not-past : (s : List ℕ) (i : ℕ) → i < length s → leb (length s) i ≡ false
not-past s i h = ground arith

past : (s : List ℕ) (i : ℕ) → length s ≤ i → leb (length s) i ≡ true
past s i h = ground arith

fits_octal-parts :
    (n c : ℕ) → fits_octal n c ≡ true → (is_octal c ≡ true) × (ltb 255 (n * 8 + (c - b'0')) ≡ false)
fits_octal-parts n c h = ground arith

-- The code's value of octal digits: the digits' own, or, where a further octal digit follows that
-- would take them past 255, the value with that digit.
abbrev OctalValue : File → ℕ → ℕ → ℕ → Type 0
OctalValue s e m v =
    (v ≡ m) ⊎ (c : ℕ) × ByteAt c s e × (is_octal c ≡ true) × (v ≡ m * 8 + (c - b'0')) × (255 < v)

abbrev Converts : Outcome (ℕ × ℕ) → File → ℕ → ℕ → Type 0
Converts o s e m = (v : ℕ) × (o ≡ ok (v, e)) × OctalValue s e m v

convert_octal-stop :
    (s : File) (rounds b n : ℕ)
    → StopsAt (fits_octal n) s b
    → Converts (convert_octal rounds s b n) s b n
unfolding convert_octal
convert_octal-stop s zero b n stops = (n, refl, inl refl)
convert_octal-stop s (suc rounds) b n stops = elim (cursor-cases s b) [
  | inl over ↦ (n, rw (past s b over), inl refl)
  | inr (c, byte, lt) ↦ elim (Bool-cases (is_octal c)) [
    | inr other ↦ (n, rw (not-past s b lt, char_at-ok s b byte, other), inl refl)
    | inl octal ↦
        let big : ltb 255 (n * 8 + (c - b'0')) ≡ true = ground (arith, stops c byte) in
        (
          n * 8 + (c - b'0'),
          rw (not-past s b lt, char_at-ok s b byte, octal, big),
          inr (c, byte, octal, refl, ltb→lt 255 (n * 8 + (c - b'0')) big),
        )
  ]
]

convert_octal-Converts :
    (s : File) {rounds b n e m : ℕ}
    → Octal s rounds b n e m
    → Converts (convert_octal rounds s b n) s e m
unfolding convert_octal
convert_octal-Converts s (Octal.full {n}) = (n, refl, inl refl)
convert_octal-Converts s (Octal.stop {rounds} {b} {n} stops) = convert_octal-stop s rounds b n stops
convert_octal-Converts s (Octal.digit {rounds} {b} {n} {c} byte fits digits) =
    let (octal, small) = fits_octal-parts n c fits in
    let (v, eq, value) = convert_octal-Converts s digits in
    (v, rw (not-past s b (get_elem?_lt s b byte), char_at-ok s b byte, octal, small) eq, value)

-- The characters behind a backslash that stand for themselves or for a control character.
abbrev escapes : List (ℕ × ℕ)
escapes =
    (b'b', 8)
    ∷ (b't', 9)
    ∷ (b'n', 10)
    ∷ (b'f', 12)
    ∷ (b'r', 13)
    ∷ (b'"', 34)
    ∷ (b'\'', 39)
    ∷ (b'\\', 92)
    ∷ []

abbrev escaped : List (ℕ × ℕ) → ℕ → ℕ
escaped [] c = c
escaped ((k, v) ∷ table) c = if c == k then v else escaped table c

simple_escape-escaped :
    (c : ℕ)
    → is_string_escapable c ≡ true
    → is_octal c ≡ false
    → simple_escape c ≡ ok (escaped escapes c)
unfolding simple_escape is_string_escapable
simple_escape-escaped c h k = ground arith

Octal-first :
    (s : File) {rounds b n e m : ℕ}
    → Octal s rounds b n e m
    → b + 1 ≤ e
    → (c : ℕ) × ByteAt c s b × (is_octal c ≡ true)
Octal-first s Octal.full lt = absurd (omega arith)
Octal-first s (Octal.stop stops) lt = absurd (omega arith)
Octal-first s (Octal.digit {n} {c} byte fits digits) lt = (c, byte, (fits_octal-parts n c fits).0)

-- What one item of a literal stands for.
abbrev pub ItemValue : {s : File} {b e : ℕ} → StringItem s b e → ℕ → Type 0
ItemValue (StringItem.plain {c} _ _ _ _) v = v ≡ c
ItemValue (StringItem.escape (Escape.single {c} _ _ _ _)) v = v ≡ escaped escapes c
ItemValue {s} {e} (StringItem.escape (Escape.octal {m} _ _ _ _)) v = OctalValue s e m v

-- The characters that a literal's items stand for, in order.
abbrev pub Values : {s : File} {b e : ℕ} → StringItems s b e → List ℕ → Type 0
Values StringItems.end out = out ≡ []
Values (StringItems.item x xs) [] = ⊥
Values (StringItems.item x xs) (v ∷ out) = ItemValue x v × Values xs out

convert_char_escape-ItemValue :
    {s : File} {b e : ℕ} (x : StringItem s b e)
    → (v : ℕ) × (convert_char_escape s b ≡ ok (v, e)) × ItemValue x v
unfolding convert_char_escape
convert_char_escape-ItemValue {s} {b} (StringItem.plain {c} byte _ _ not_slash) =
    let other : (c == b'\\') ≡ false = ground arith in (c, rw (char_at-ok s b byte, other), refl)
convert_char_escape-ItemValue {s} {b}
      (StringItem.escape (Escape.single {c} slash byte good other)) =
    (
      escaped escapes c,
      rw (
        char_at-ok s b slash,
        char_at-ok s (b + 1) byte,
        other,
        simple_escape-escaped c good other,
      ),
      refl,
    )
convert_char_escape-ItemValue {s} {b} (StringItem.escape (Escape.octal slash two four digits)) =
    let (v, eq, value) = convert_octal-Converts s digits in
    let (c, byte, octal) = Octal-first s digits (omega arith) in
    (v, rw (char_at-ok s b slash, char_at-ok s (b + 1) byte, octal) eq, value)

StringItem-lt : {s : File} {b e : ℕ} → StringItem s b e → b < e
StringItem-lt (StringItem.plain _ _ _ _) = omega arith
StringItem-lt (StringItem.escape (Escape.single _ _ _ _)) = omega arith
StringItem-lt (StringItem.escape (Escape.octal _ two _ _)) = omega arith

StringItems-le : {s : File} {b e : ℕ} → StringItems s b e → b ≤ e
StringItems-le {b} StringItems.end = le_refl b
StringItems-le (StringItems.item x xs) = omega (arith, StringItem-lt x, StringItems-le xs)

convert_loop-Values :
    {s : File} {b e : ℕ} (items : StringItems s b e) (fuel : ℕ)
    → e ≡ length s
    → e < fuel + b
    → (out : List ℕ) × (convert_loop fuel s b ≡ ok out) × Values items out
unfolding convert_loop
convert_loop-Values items zero all enough = absurd (omega (arith, StringItems-le items))
convert_loop-Values {s} {b} StringItems.end (suc fuel) all enough =
    ([], rw (past s b (omega arith)), refl)
convert_loop-Values {s} {b} (StringItems.item x xs) (suc fuel) all enough =
    let (v, eq, value) = convert_char_escape-ItemValue x in
    let (out, eq', values) = convert_loop-Values xs fuel all (omega (arith, StringItem-lt x)) in
    (
      v ∷ out,
      rw (not-past s b (omega (arith, StringItem-lt x, StringItems-le xs)), eq, eq'),
      (value, values),
    )

-- The body of a string literal that the lexer accepts converts, to one character for each item.
pub convert_string_escapes-Values :
    (s : File) (items : StringItems s 0 (length s))
    → (out : List ℕ) × (convert_string_escapes s ≡ ok out) × Values items out
unfolding convert_string_escapes
convert_string_escapes-Values s items =
    convert_loop-Values items (suc (length s)) refl (omega arith)

octal_le : (c : ℕ) → is_octal c ≡ true → c - b'0' ≤ 7
unfolding is_octal
octal_le c h = ground arith

fits_octal-le : (n c : ℕ) → is_octal c ≡ true → n * 8 + (c - b'0') ≤ 255 → fits_octal n c ≡ true
fits_octal-le n c h k = ground arith

fits_octal-over : (n c : ℕ) → 255 < n * 8 + (c - b'0') → fits_octal n c ≡ false
fits_octal-over n c k = ground arith

is_octal-escapable : (c : ℕ) → is_octal c ≡ true → is_string_escapable c ≡ true
unfolding is_string_escapable
is_octal-escapable c h = ground arith

-- At an escape of three octal digits of more than 255, the lexer's function stops behind the second
-- digit. The code's character is the value of all three, and the conversion too goes on behind the second.
pub convert_char_escape_overflow :
    (s : LexState) (b c d f : ℕ)
    → ByteAt b'\\' s.file b
    → ByteAt c s.file (b + 1)
    → ByteAt d s.file (b + 2)
    → ByteAt f s.file (b + 3)
    → is_octal c ≡ true
    → is_octal d ≡ true
    → is_octal f ≡ true
    → 255 < ((c - b'0') * 8 + (d - b'0')) * 8 + (f - b'0')
    → (advance_escaped_char (move s b) ≡ ok (move s (b + 3), true))
      × (convert_char_escape s.file b ≡ ok (((c - b'0') * 8 + (d - b'0')) * 8 + (f - b'0'), b + 3))
unfolding convert_char_escape convert_octal advance_escaped_char after_backslash octal_loop
convert_char_escape_overflow s b c d f slash hc hd hf oc od of big =
    let two : b + 1 + 1 ≡ b + 2 = omega arith in
    let three : b + 1 + 1 + 1 ≡ b + 3 = omega arith in
    let hd' : ByteAt d s.file (b + 1 + 1) = rw two hd in
    let hf' : ByteAt f s.file (b + 1 + 1 + 1) = rw three hf in
    let lt = get_elem?_lt s.file (b + 3) hf in
    let fits_c : fits_octal 0 c ≡ true = fits_octal-le 0 c oc (omega (arith, octal_le c oc)) in
    let fits_d : fits_octal (0 * 8 + (c - b'0')) d ≡ true =
      fits_octal-le (0 * 8 + (c - b'0')) d od (omega (arith, octal_le c oc, octal_le d od)) in
    let small_c = (fits_octal-parts 0 c fits_c).1 in
    let small_d = (fits_octal-parts (0 * 8 + (c - b'0')) d fits_d).1 in
    let over =
      lt→ltb 255 (((0 * 8 + (c - b'0')) * 8 + (d - b'0')) * 8 + (f - b'0')) (omega arith) in
    (
      rw
          (
            advance-ok 1 s b (omega arith),
            not-at_end s (b + 1) (omega arith),
            peek-ok s (b + 1) hc,
            is_octal-escapable c oc,
            oc,
            small_c,
            advance-ok 1 s (b + 1) (omega arith),
            not-at_end s (b + 1 + 1) (omega arith),
            peek-ok s (b + 1 + 1) hd',
            od,
            small_d,
            advance-ok 1 s (b + 1 + 1) (omega arith),
            not-at_end s (b + 1 + 1 + 1) (omega arith),
            peek-ok s (b + 1 + 1 + 1) hf',
            of,
            over,
          )
          (ap (λ (e : ℕ). ok (move s e, true)) three),
      rw
          (
            char_at-ok s.file b slash,
            char_at-ok s.file (b + 1) hc,
            oc,
            not-past s.file (b + 1) (omega arith),
            small_c,
            not-past s.file (b + 1 + 1) (omega arith),
            char_at-ok s.file (b + 1 + 1) hd',
            od,
            small_d,
            not-past s.file (b + 1 + 1 + 1) (omega arith),
            char_at-ok s.file (b + 1 + 1 + 1) hf',
            of,
            over,
          )
          (ground arith),
    )
