-- ===== src/Lexer/Escapes.antt =====
-- lexer/lexer.cpp: `ConvertCharEscape` and `ConvertStringEscapes`. A `jstring` is its list of 16-bit
-- characters. `s[s.length()]` is the string's terminating zero; an index past it throws here.
use joosc.Common.{
  ℕ, zero, suc, ◌+◌, ◌-◌, ◌*◌, not, none, some, List, [], ◌∷◌, ltb, leb, ◌==◌, if◌then◌else◌,
  length, get_elem?, Outcome, ok, thrown, Exn, ◌>>=◌,
}
use joosc.Lexer.Chars.{is_octal}

-- `s[i]` of a `std::string`.
unfoldable pub char_at : List ℕ → ℕ → Outcome ℕ
char_at s i = elim (get_elem? s i) [
  | some c ↦ ok c
  | none ↦ if i == length s then ok 0 else thrown Exn.out_of_range
]

-- The `for` loop: rounds left, `i` and `currentOctalEscape`; its results are the value and `*next`.
unfoldable pub convert_octal : ℕ → List ℕ → ℕ → ℕ → Outcome (ℕ × ℕ)
convert_octal zero s i current = ok (current, i)
convert_octal (suc rounds) s i current = if leb (length s) i then ok (current, i) else do
  c ← char_at s i
  let current' = current * 8 + (c - b'0')
  if not (is_octal c)
      then ok (current, i)
      else if ltb 255 current'
      then ok (current', i)
      else convert_octal rounds s (i + 1) current'

-- The `switch` on the escaped character.
unfoldable pub simple_escape : ℕ → Outcome ℕ
simple_escape c =
    if c == b'b'
    then ok 8
    else if c == b't'
    then ok 9
    else if c == b'n'
    then ok 10
    else if c == b'f'
    then ok 12
    else if c == b'r'
    then ok 13
    else if c == b'"'
    then ok b'"'
    else if c == b'\''
    then ok b'\''
    else if c == b'\\'
    then ok b'\\'
    else thrown Exn.unreachable

-- The character at `start`, and the index behind it.
unfoldable pub convert_char_escape : List ℕ → ℕ → Outcome (ℕ × ℕ)
convert_char_escape s start = do
  c ← char_at s start
  if not (c == b'\\') then ok (c, start + 1) else do
    d ← char_at s (start + 1)
    if is_octal d
        then convert_octal 3 s (start + 1) 0
        else simple_escape d >>= λ v. ok (v, start + 2)

-- The `while` loop, on fuel; its result is what it appends to `out`.
unfoldable pub convert_loop : ℕ → List ℕ → ℕ → Outcome (List ℕ)
convert_loop zero s i = thrown Exn.out_of_fuel
convert_loop (suc fuel) s i =
    if leb (length s) i
    then ok []
    else do (c, next) ← convert_char_escape s i; out ← convert_loop fuel s next; ok (c ∷ out)

unfoldable pub convert_string_escapes : List ℕ → Outcome (List ℕ)
unfolding convert_loop
convert_string_escapes s = convert_loop (suc (length s)) s 0
