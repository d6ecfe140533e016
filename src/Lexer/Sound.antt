-- ===== src/Lexer/Sound.antt =====
-- lexer/lexer.cpp: `Run` and `LexJoosFile` against the lexemes of a file.
use joosc.Common.{
  ◌≢◌, ℕ, zero, suc, ◌+◌, ◌-◌, ◌*◌, ◌≤◌, ◌<◌, ◌≡◌, refl, sym, subst, ◌∙◌, ◌⊎◌, inl, inr, false,
  some, none, List, [], ◌∷◌, length, get_elem?, Bool-cases, Option-cases, ltb, arith, Outcome, ok,
  concat, ◌>>=◌, ltb→lt, Option,
}
use native.Mathlib.Nat.{zero-add}
use joosc.Base.{File, pos_range}
use joosc.Lexer.Comments.{line_comment_fn-Done, block_comment_fn-Done}
use joosc.Lexer.Lexeme.{Chain, Fault, Lexeme}
use joosc.Lexer.Loops.{get_elem?_lt}
use joosc.Lexer.Quoted.{char_fn-Done, string_fn-Done}
use joosc.Lexer.Run.{
  call_state_fn, same_fn, check_progress, round, run, find_non_ansi, initial, run_fuel,
  lex_joos_file,
}
use joosc.Lexer.Scan.{
  Done, emitted, failed, from_begin, emit_at, fail_at, whitespace_fn-Done, integer_fn-Done,
  identifier_fn-Done,
}
use joosc.Lexer.Starting.{Ready, Started, stopped, chosen, done, choose, start_fn-Started}
use joosc.Lexer.State.{
  Token, LexState, LexError, StateFn, start, integer, whitespace, block_comment, line_comment,
  identifier, char, string,
}
use joosc.Lexer.TokenType.{TokenType}

-- The tokens cover the file, or they reach up to the place `b` where what the one error reports stands.
pub data Lexed (file : File) (fileid : ℕ) (tokens : List Token) : List LexError → Type 0 where
  complete : Chain file fileid 0 tokens (length file) → Lexed file fileid tokens []
  broken :
      (b : ℕ) (err : LexError)
      → b < length file
      → Chain file fileid 0 tokens b
      → Fault file fileid b err
      → Lexed file fileid tokens (err ∷ [])

-- The fault's first byte is in the file.
Fault_lt : {file : File} {fileid b : ℕ} {err : LexError} → Fault file fileid b err → b < length file
Fault_lt {file} {b} (Fault.leading_zero first _) = get_elem?_lt file b first
Fault_lt {file} {b} (Fault.unclosed_comment first _ _) = get_elem?_lt file b first
Fault_lt {file} {b} (Fault.unclosed_string first _ _) = get_elem?_lt file b first
Fault_lt {file} {b} (Fault.escape_in_string first _ _) = get_elem?_lt file b first
Fault_lt {file} {b} (Fault.escape_in_char first _) = get_elem?_lt file b first
Fault_lt {file} {b} (Fault.no_char first _) = get_elem?_lt file b first
Fault_lt {file} {b} (Fault.unclosed_char first _ _) = get_elem?_lt file b first
Fault_lt {file} {b} (Fault.unexpected first _) = get_elem?_lt file b first.1

pub Chain-concat :
    (file : File) (fileid b m e : ℕ) (ts : List Token) (tok : TokenType)
    → Chain file fileid b ts m
    → m < e
    → Lexeme file m tok e
    → Chain file fileid b
        (concat ts (record { type = tok; pos = record { fileid = fileid; begin = m; end = e } }))
        e
Chain-concat file fileid b m e [] tok same lt lexeme =
    (refl, sym same, rw same lt, rw same lexeme, refl)
Chain-concat file fileid b m e (t ∷ ts) tok (id, same, lt', first, rest) lt lexeme =
    (id, same, lt', first, Chain-concat file fileid t.pos.end m e ts tok rest lt lexeme)

-- Between two rounds.
record Clean (s : LexState) : Type 0 where
  no_errors : s.errors ≡ []
  chain : Chain s.file s.fileid 0 s.tokens s.begin
  in_file : s.begin ≤ length s.file

chosen-Clean : (s : LexState) (fn : Option StateFn) → Clean s → Clean (choose s fn)
chosen-Clean s fn clean = record {
  no_errors = clean.no_errors;
  chain = clean.chain;
  in_file = clean.in_file;
}

abbrev measure : StateFn → LexState → ℕ
measure start s = 2 * (length s.file - s.begin) + 1
measure _ s = 2 * (length s.file - s.begin)

abbrev Ends : ℕ → LexState → Outcome LexState → Type 0
Ends fuel s o =
    (s' : LexState) × ((o >>= run fuel) ≡ ok s') × Lexed s.file s.fileid s'.tokens s'.errors

abbrev Runs : ℕ → Type 0
Runs fuel =
    (s : LexState) (fn : StateFn)
    → Clean s
    → Ready fn s
    → measure fn s < fuel
    → Ends fuel s (ok (choose s (some fn)))

same_fn-none : (fn : StateFn) → same_fn fn none ≡ false
unfolding same_fn
same_fn-none start = refl
same_fn-none _ = refl

same_fn-start : (fn : StateFn) → fn ≢ start → same_fn start (some fn) ≡ false
unfolding same_fn
same_fn-start start h = absurd (h refl)
same_fn-start _ h = refl

-- The check behind a round lets every such outcome pass.
check-Done :
    (fn : StateFn) (s : LexState) {o : Outcome LexState}
    → Done s o
    → (o >>= check_progress fn (from_begin s)) ≡ o
unfolding check_progress
check-Done fn s (emitted tok e lt le lexeme) = ground arith
check-Done fn s (failed err e le fault) = rw (same_fn-none fn)

halt : LexState → LexState
halt s = record s { state_fn = none }

run-halt : (fuel : ℕ) (s : LexState) → 0 < fuel → run fuel (halt s) ≡ ok (halt s)
unfolding run halt
run-halt zero s h = absurd (omega arith)
run-halt (suc fuel) s h = refl

run-Done :
    (fuel : ℕ)
    → Runs fuel
    → (s : LexState) → Clean s
    → 0 < fuel
    → 2 * (length s.file - s.begin) ≤ fuel
    → {o : Outcome LexState} → Done s o
    → Ends fuel s o
run-Done fuel again s clean positive enough (emitted tok e lt' le lexeme) =
    again (emit_at s tok e) start
      (record {
        no_errors = clean.no_errors;
        chain = Chain-concat s.file s.fileid 0 s.begin e s.tokens tok clean.chain lt' lexeme;
        in_file = le;
      })
      tt (omega arith)
run-Done fuel again s clean positive enough (failed err e le fault) = (
  fail_at s err e,
  unfold halt in run-halt fuel (fail_at s err e) (omega arith),
  rw clean.no_errors (broken s.begin err (Fault_lt fault) clean.chain fault),
)

chosen_measure :
    (fn : StateFn) (s : LexState) {n : ℕ}
    → fn ≢ start
    → 2 * (length s.file - s.begin) < n
    → measure fn s < n
chosen_measure start s h k = absurd (h refl)
chosen_measure _ s h k = k

run-Started :
    (fuel : ℕ)
    → Runs fuel
    → (s : LexState) → Clean s
    → 2 * (length s.file - s.begin) < fuel
    → {o : Outcome LexState} → Started s o
    → Ends fuel s (o >>= check_progress start (from_begin s))
unfolding check_progress
run-Started fuel again s clean enough (stopped end) = rw (same_fn-none start) (
  choose s none,
  unfold halt in run-halt fuel (choose s none) (omega arith),
  rw clean.no_errors (complete (subst (Chain s.file s.fileid 0 s.tokens) end clean.chain)),
)
run-Started fuel again s clean enough (chosen fn other ready) =
    rw (same_fn-start fn other) (again s fn clean ready (chosen_measure fn s other enough))
run-Started fuel again s clean enough (done {o} d) =
    rw (check-Done start s d) (run-Done fuel again s clean (omega arith) (omega arith) d)

run-step :
    (fuel : ℕ) (s : LexState) (fn : StateFn)
    → Ends fuel s (call_state_fn fn (choose s (some fn)) >>= check_progress fn (choose s (some fn)))
    → Ends (suc fuel) s (ok (choose s (some fn)))
unfolding run round
run-step fuel s fn h = h

run-Done_step :
    (fuel : ℕ)
    → Runs fuel
    → (s : LexState) (fn : StateFn) → Clean s
    → s.begin < length s.file
    → 2 * (length s.file - s.begin) ≤ fuel
    → Done (choose s (some fn)) (call_state_fn fn (choose s (some fn)))
    → Ends (suc fuel) s (ok (choose s (some fn)))
run-Done_step fuel again s fn clean lt enough d = run-step fuel s fn (
    rw (check-Done fn (choose s (some fn)) d) (
      run-Done fuel again (choose s (some fn)) (chosen-Clean s (some fn) clean) (omega arith) enough
        d))

-- `Run` on enough fuel ends with every byte behind the cursor covered.
run-Runs : (fuel : ℕ) → Runs fuel
unfolding call_state_fn
run-Runs zero s fn clean ready enough = absurd (omega arith)
run-Runs (suc fuel) s start clean ready enough = run-step fuel s start (
    run-Started fuel (run-Runs fuel) (choose s (some start)) (chosen-Clean s (some start) clean)
      (omega arith) (start_fn-Started (choose s (some start)) clean.in_file refl))
run-Runs (suc fuel) s integer clean ready enough =
    run-Done_step fuel (run-Runs fuel) s integer clean (get_elem?_lt s.file s.begin ready.1)
      (omega arith) (integer_fn-Done (choose s (some integer)) ready)
run-Runs (suc fuel) s whitespace clean ready enough =
    run-Done_step fuel (run-Runs fuel) s whitespace clean (get_elem?_lt s.file s.begin ready.1)
      (omega arith) (whitespace_fn-Done (choose s (some whitespace)) ready)
run-Runs (suc fuel) s identifier clean ready enough =
    run-Done_step fuel (run-Runs fuel) s identifier clean (get_elem?_lt s.file s.begin ready.1)
      (omega arith) (identifier_fn-Done (choose s (some identifier)) ready)
run-Runs (suc fuel) s line_comment clean ready enough =
    run-Done_step fuel (run-Runs fuel) s line_comment clean (get_elem?_lt s.file s.begin ready.0)
      (omega arith) (line_comment_fn-Done (choose s (some line_comment)) ready)
run-Runs (suc fuel) s block_comment clean ready enough =
    run-Done_step fuel (run-Runs fuel) s block_comment clean (get_elem?_lt s.file s.begin ready.0)
      (omega arith) (block_comment_fn-Done (choose s (some block_comment)) ready)
run-Runs (suc fuel) s char clean ready enough =
    run-Done_step fuel (run-Runs fuel) s char clean (get_elem?_lt s.file s.begin ready)
      (omega arith) (char_fn-Done (choose s (some char)) ready)
run-Runs (suc fuel) s string clean ready enough =
    run-Done_step fuel (run-Runs fuel) s string clean (get_elem?_lt s.file s.begin ready)
      (omega arith) (string_fn-Done (choose s (some string)) ready)

abbrev pub IsAscii : File → Type 0
IsAscii file = (i c : ℕ) → get_elem? file i ≡ some c → c ≤ 127

find_non_ansi-none : (j : ℕ) (file : File) → find_non_ansi j file ≡ none → IsAscii file
unfolding find_non_ansi
find_non_ansi-none j [] h i d at_i = cc
find_non_ansi-none j (c ∷ file) h zero d at_i = ground arith
find_non_ansi-none j (c ∷ file) h (suc i) d at_i = elim (Bool-cases (ltb 127 c)) [
  | inl big ↦ let clash : some j ≡ none = rw big at h in cc
  | inr small ↦ find_non_ansi-none (j + 1) file (rw small at h) i d at_i
]

find_non_ansi-some :
    (j : ℕ) (file : File) {i : ℕ}
    → find_non_ansi j file ≡ some i
    → (k c : ℕ) × (i ≡ j + k) × (get_elem? file k ≡ some c) × (127 < c)
unfolding find_non_ansi
find_non_ansi-some j [] h = cc
find_non_ansi-some j (c ∷ file) h = elim (Bool-cases (ltb 127 c)) [
  | inl big ↦ (0, c, ground arith, refl, ltb→lt 127 c big)
  | inr small ↦
      let (k, d, same, found, big) = find_non_ansi-some (j + 1) file (rw small at h) in
      (suc k, d, omega arith, found, big)
]

-- What `LexJoosFile` gives back for one file.
abbrev pub FileLexed : File → ℕ → List Token → List LexError → Type 0
FileLexed file fileid tokens errors =
    IsAscii file × Lexed file fileid tokens errors
    ⊎ (i c : ℕ) × (get_elem? file i ≡ some c)
      × (127 < c)
      × (tokens ≡ [])
      × (errors ≡ LexError.non_ansi_char_error (pos_range fileid i) ∷ [])

-- Lexing any file ends without a throw. A file of ASCII bytes is cut into tokens that stand side by
-- side from its first byte on, each a lexeme of its type, a symbol being the longest that stands there,
-- up to its end, with no error, or up to the first byte of what its one error reports, such as a comment
-- with no end, with the place that belongs to that error. Any other file gives no token, and an error at
-- a byte above 127.
pub lex_joos_file-FileLexed :
    (file : File) (fileid : ℕ)
    → (tokens : List Token) × (errors : List LexError) × (lex_joos_file file fileid
        ≡ ok (tokens, errors))
      × FileLexed file fileid tokens errors
unfolding lex_joos_file
lex_joos_file-FileLexed file fileid = elim (Option-cases (find_non_ansi 0 file)) [
  | inl ascii ↦
      let (s', eq, lexed) =
        run-Runs (run_fuel file) (initial file fileid) start
          (record { no_errors = refl; chain = refl; in_file = omega arith }) tt (omega arith) in
      (
        s'.tokens,
        s'.errors,
        rw (ascii, lex_joos_file) (rw eq),
        inl (find_non_ansi-none 0 file ascii, lexed),
      )
  | inr (i, bad) ↦
      let (k, c, same, found, big) = find_non_ansi-some 0 file bad in
      (
        [],
        LexError.non_ansi_char_error (pos_range fileid i) ∷ [],
        rw (bad, lex_joos_file),
        inr (
          i,
          c,
          subst (λ (n : ℕ). get_elem? file n ≡ some c) (sym (same ∙ zero-add k)) found,
          big,
          refl,
          refl,
        ),
      )
]
