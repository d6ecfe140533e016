-- ===== src/Base/Lines.antt =====
-- base/file.cpp, `IndexToLineCol`: the line and the column of a byte, without the table of line starts.
use joosc.Base.{File, line_starts, find_line_starts, upper_bound, line_before, index_to_line_col}
use joosc.Common.{
  ℕ, zero, suc, ◌+◌, ◌≤◌, ◌<◌, ◌≡◌, refl, ap, ◌∙◌, subst, Bool-cases, inl, inr, false, List, [],
  ◌∷◌, length, get_elem?, take, ◌==◌, ltb, lt→ltb, if◌then◌else◌, some, ok, arith,
}

-- How many lines end in a text, and how many bytes stand behind the last end, after `k` before the text.
abbrev pub newlines : List ℕ → ℕ
newlines [] = 0
newlines (c ∷ text) = let rest = newlines text in if c == 10 then suc rest else rest

abbrev pub column : ℕ → List ℕ → ℕ
column k [] = k
column k (c ∷ text) = if c == 10 then column 0 text else column (suc k) text

first-line_starts : (i : ℕ) (buf : File) (n : ℕ) → n ≤ i → upper_bound (line_starts i buf) n ≡ 0
unfolding upper_bound line_starts
first-line_starts i [] n h = refl
first-line_starts i (c ∷ buf) n h =
    ground (arith, first-line_starts (suc i) buf n (omega (arith, h)))

upper_bound-line_starts :
    (i : ℕ) (buf : File) (d : ℕ)
    → d ≤ length buf
    → upper_bound (line_starts i buf) (i + d) ≡ newlines (take d buf)
unfolding upper_bound line_starts
upper_bound-line_starts i buf zero h = first-line_starts i buf (i + 0) (omega arith)
upper_bound-line_starts i [] (suc d) h = absurd (omega (arith, h))
upper_bound-line_starts i (c ∷ buf) (suc d) h =
    ground (arith, upper_bound-line_starts (suc i) buf d (omega (arith, h)))

start_of_line :
    (i p k : ℕ) (buf : File) (d : ℕ)
    → d ≤ length buf
    → p + k ≡ i
    → (q : ℕ) × (get_elem? (p ∷ line_starts i buf) (newlines (take d buf)) ≡ some q)
      × (q + column k (take d buf) ≡ i + d)
unfolding line_starts
start_of_line i p k buf zero h e = (p, refl, omega (arith, e))
start_of_line i p k [] (suc d) h e = absurd (omega (arith, h))
start_of_line i p k (c ∷ buf) (suc d) h e = elim (Bool-cases (c == 10)) [
  | inl newline ↦
      let (q, at, sum) = start_of_line (suc i) (i + 1) 0 buf d (omega (arith, h)) (omega arith) in
      (q, rw newline at, rw newline (omega (arith, sum)))
  | inr other ↦
      let (q, at, sum) =
        start_of_line (suc i) p (suc k) buf d (omega (arith, h)) (omega (arith, e)) in
      (q, rw other at, rw other (omega (arith, sum)))
]

line_before-eq-ok :
    (starts : List ℕ) (line q col index : ℕ)
    → get_elem? starts line ≡ some q
    → q + col ≡ index
    → line_before starts index (suc line) ≡ ok (line, col)
unfolding line_before
line_before-eq-ok starts line q col index at sum =
    rw (line_before, at) (ap (λ c. ok (line, c)) (omega (arith, sum)))

-- For a byte of the file, `IndexToLineCol` throws nothing and gives the number of newlines before the byte
-- and the number of bytes between the last of them, or the beginning of the file, and the byte.
pub index_to_line_col-newlines :
    (file : File) (index : ℕ)
    → index < length file
    → index_to_line_col file index ≡ ok (newlines (take index file), column 0 (take index file))
unfolding index_to_line_col find_line_starts upper_bound
index_to_line_col-newlines file index h =
    let (q, at, sum) = start_of_line 0 0 0 file index (omega (arith, h)) refl in
    let in_range = lt→ltb index (length file) h in
    let same_index : 0 + index ≡ index = omega arith in
    let bound : upper_bound (line_starts 0 file) index ≡ newlines (take index file) =
      subst (λ n. upper_bound (line_starts 0 file) n ≡ newlines (take index file)) same_index
        (upper_bound-line_starts 0 file index (omega (arith, h))) in
    let not_first : ltb index 0 ≡ false = ground arith in
    let found =
      line_before-eq-ok (find_line_starts file) _ q (column 0 (take index file)) index at
        (omega (arith, sum)) in
    rw (in_range, not_first)
      (ap (λ n. line_before (find_line_starts file) index (suc n)) bound ∙ found)
