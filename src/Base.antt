-- ===== src/Base.antt =====
-- base/file.h, base/file.cpp: positions and ranges of a source file, and the lines of a file. A `File` is
-- the list of its bytes.
pub mod Lines
mod Tests
use joosc.Common.{
  ℕ, zero, suc, ◌+◌, ◌-◌, List, [], ◌∷◌, length, get_elem?, ◌==◌, ltb, if◌then◌else◌, none, some,
  Outcome, ok, thrown, Exn,
}

pub record PosRange : Type 0 where
  pub fileid : ℕ
  pub begin : ℕ
  pub end : ℕ

-- A `Pos` converts to the range of one byte.
abbrev pub pos_range : ℕ → ℕ → PosRange
pos_range fileid index = record { fileid = fileid; begin = index; end = index + 1 }

abbrev pub File : Type 0
File = List ℕ

-- `File::At`, which asserts that the index is in range.
unfoldable pub at : File → ℕ → Outcome ℕ
at file i = elim (get_elem? file i) [ some c ↦ ok c | none ↦ thrown Exn.out_of_range ]

-- The loop of `FindLineStarts`, from the index `i` on.
unfoldable pub line_starts : ℕ → File → List ℕ
line_starts i [] = []
line_starts i (c ∷ buf) =
    let rest = line_starts (suc i) buf in if c == 10 then (i + 1) ∷ rest else rest

unfoldable pub find_line_starts : File → List ℕ
unfolding line_starts
find_line_starts buf = 0 ∷ line_starts 0 buf

-- `std::upper_bound`, of ascending numbers: how many come before the first that is greater.
unfoldable pub upper_bound : List ℕ → ℕ → ℕ
upper_bound [] n = 0
upper_bound (x ∷ xs) n = let rest = upper_bound xs n in if ltb n x then 0 else suc rest

-- `--iter` before the first start is undefined.
unfoldable pub line_before : List ℕ → ℕ → ℕ → Outcome (ℕ × ℕ)
line_before starts index zero = thrown Exn.undefined
line_before starts index (suc line) = elim (get_elem? starts line) [
  | some start ↦ ok (line, index - start)
  | none ↦ thrown Exn.undefined
]

unfoldable pub index_to_line_col : File → ℕ → Outcome (ℕ × ℕ)
unfolding find_line_starts upper_bound line_before
index_to_line_col file index =
    if ltb index (length file)
    then line_before (find_line_starts file) index (upper_bound (find_line_starts file) index)
    else thrown Exn.out_of_range
