-- ===== src/Lexer/Comments.antt =====
-- lexer/lexer.cpp: the state functions `LineComment` and `BlockComment`, from the two bytes that open
-- a comment.
use joosc.Common.{
  ℕ, zero, suc, ◌+◌, ◌≤◌, ◌<◌, ◌≡◌, refl, subst, inl, inr, Bool, true, false, ◌&&◌, length, ◌==◌,
  Bool-cases, arith, ◌>>=◌, ==_iff,
}
use mathlib.Core.Bool.{and-eq-true_iff}
use native.Mathlib.Decide.{dec_lt}
use native.Mathlib.Nat.{le_refl}
use joosc.Base.{File}
use joosc.Lexer.Lexeme.{AllIn, ByteAt, NoClose, not_newline, Fault, Lexeme}
use joosc.Lexer.Loops.{
  move, not-at_end, at_end, advance-ok, peek-ok, get_elem?_lt, cursor-cases, AllIn-empty,
  AllIn-concat,
}
use joosc.Lexer.Scan.{Done, Done-finish, Done-fail, from_begin}
use joosc.Lexer.State.{LexState}
use joosc.Lexer.Step.{bytes_left, finish, line_loop, line_comment_fn, block_loop, block_comment_fn}
use joosc.Lexer.TokenType.{TokenType}

-- Two bytes begin a comment.
abbrev pub Opens : ℕ → LexState → Type 0
Opens c s = ByteAt b'/' s.file s.begin × ByteAt c s.file (s.begin + 1)

line_loop-Done :
    (s : LexState) (fuel e : ℕ)
    → Opens b'/' s
    → s.begin + 2 ≤ e
    → e ≤ length s.file
    → length s.file < fuel + e
    → AllIn not_newline s.file (s.begin + 2) e
    → Done s (line_loop fuel (move s e) >>= finish TokenType.line_comment)
unfolding line_loop
line_loop-Done s zero e o b h k all = absurd (omega arith)
line_loop-Done s (suc fuel) e o b h k all = elim (cursor-cases s.file e) [
  | inl past ↦ rw (at_end s e past) (
      Done-finish s TokenType.line_comment e (omega arith) h
        (Lexeme.last_line_comment o.0 o.1 all (omega arith)))
  | inr (c, byte, lt) ↦ elim (Bool-cases (c == b'\n')) [
    | inl newline ↦
        let same : c ≡ b'\n' = (==_iff c b'\n').0 newline in
        rw (not-at_end s e lt, peek-ok s e byte, advance-ok 1 s e lt, newline)
          (Done-finish s TokenType.line_comment (e + 1) (omega arith) (omega arith)
            (Lexeme.line_comment o.0 o.1 all (subst (λ x. ByteAt x s.file e) same byte)))
    | inr more ↦
        rw (not-at_end s e lt, peek-ok s e byte, advance-ok 1 s e lt, more)
          (line_loop-Done s fuel (e + 1) o (omega arith) (omega arith) (omega arith)
            (AllIn-concat not_newline s.file (s.begin + 2) e all (c, byte, rw more)))
  ]
]

pub line_comment_fn-Done : (s : LexState) → Opens b'/' s → Done s (line_comment_fn (from_begin s))
unfolding line_comment_fn
line_comment_fn-Done s o =
    let lt : s.begin + 1 < length s.file = get_elem?_lt s.file (s.begin + 1) o.1 in
    rw (advance-ok 2 s s.begin (omega arith)) (
      line_loop-Done s (bytes_left (move s (s.begin + 2))) (s.begin + 2) o (le_refl (s.begin + 2))
        (omega arith) (omega arith) (AllIn-empty not_newline s.file (s.begin + 2)))

-- `prevStar` says whether the byte before `e`, inside the comment, is a star.
abbrev PrevStar : File → ℕ → ℕ → Bool → Type 0
PrevStar file b e prev =
    (prev ≡ true → (m : ℕ) × (e ≡ m + 1) × (b ≤ m) × ByteAt b'*' file m)
    × ((m : ℕ) → e ≡ m + 1 → b ≤ m → ByteAt b'*' file m → prev ≡ true)

byte_unique : (file : File) (i c d : ℕ) → ByteAt c file i → ByteAt d file i → c ≡ d
byte_unique file i c d h k = cc

PrevStar-step :
    (file : File) (b e c : ℕ) → b ≤ e → ByteAt c file e → PrevStar file b (e + 1) (c == b'*')
PrevStar-step file b e c le byte = (
  (λ star. (e, refl, le, subst (λ x. ByteAt x file e) ((==_iff c b'*').0 star) byte)),
  λ m same _ star.
      let here : e ≡ m = omega arith in
      (==_iff c b'*').1 (byte_unique file e c b'*' byte (rw here star)),
)

NoClose-step :
    (file : File) (b e c : ℕ) (prev : Bool)
    → NoClose file b e
    → PrevStar file b e prev
    → ByteAt c file e
    → (prev && c == b'/') ≡ false
    → NoClose file b (e + 1)
NoClose-step file b e c prev none_yet star byte stays i l h p q = elim (dec_lt (i + 1) e) [
  | yes lt ↦ none_yet i l (omega arith) p q
  | no ge ↦
      let last : e ≡ i + 1 = omega arith in
      let is_star : prev ≡ true = star.1 i last l p in
      let slash : c ≡ b'/' = byte_unique file e c b'/' byte (rw last q) in
      let closes : (c == b'/') ≡ true = (==_iff c b'/').1 slash in
      let both : (prev && c == b'/') ≡ true =
        (and-eq-true_iff prev (c == b'/')).1 (is_star, closes) in
      cc
]

block_loop-Done :
    (s : LexState) (fuel e : ℕ) (prev : Bool)
    → Opens b'*' s
    → s.begin + 2 ≤ e
    → e ≤ length s.file
    → length s.file < fuel + e
    → NoClose s.file (s.begin + 2) e
    → PrevStar s.file (s.begin + 2) e prev
    → Done s (block_loop fuel prev (move s e))
unfolding block_loop
block_loop-Done s zero e prev o b h k none_yet star = absurd (omega arith)
block_loop-Done s (suc fuel) e prev o b h k none_yet star = elim (cursor-cases s.file e) [
  | inl past ↦
      rw (at_end s e past)
        (Done-fail s _ e h (Fault.unclosed_comment o.0 o.1 (λ i l le. none_yet i l (omega arith))))
  | inr (c, byte, lt) ↦ elim (Bool-cases (prev && c == b'/')) [
    | inl close ↦
        let (is_star, slash) = (and-eq-true_iff prev (c == b'/')).0 close in
        let (m, last, le, star_byte) = star.0 is_star in
        rw (not-at_end s e lt, peek-ok s e byte, advance-ok 1 s e lt, close)
          (Done-finish s TokenType.block_comment (e + 1) (omega arith) (omega arith) (
            Lexeme.block_comment o.0 o.1 le star_byte (rw (← last, ← (==_iff c b'/').0 slash) byte)
              (rw (← last) none_yet) (omega arith)))
    | inr more ↦
        rw (not-at_end s e lt, peek-ok s e byte, advance-ok 1 s e lt, more)
          (block_loop-Done s fuel (e + 1) (c == b'*') o (omega arith) (omega arith) (omega arith)
            (NoClose-step s.file (s.begin + 2) e c prev none_yet star byte more)
            (PrevStar-step s.file (s.begin + 2) e c b byte))
  ]
]

pub block_comment_fn-Done : (s : LexState) → Opens b'*' s → Done s (block_comment_fn (from_begin s))
unfolding block_comment_fn
block_comment_fn-Done s o =
    let lt : s.begin + 1 < length s.file = get_elem?_lt s.file (s.begin + 1) o.1 in
    rw (advance-ok 2 s s.begin (omega arith)) (
      block_loop-Done s (bytes_left (move s (s.begin + 2))) (s.begin + 2) false o
        (le_refl (s.begin + 2)) (omega arith) (omega arith) (λ i l h _ _. omega arith)
        ((λ q. cc), (λ m q l _. absurd (omega arith))))
