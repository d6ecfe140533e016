-- ===== src/Backend/Asm.antt =====
-- backend/common/asm_writer.h: lines of assembly. A line is its format and the arguments of the format;
-- `base::Fprintf`, which puts them in the places of the `%v`, is input and output.
use joosc.Common.{ℕ, Bool, true, false, List, String}
use joosc.Common.Integers.{ℤ}

-- A number, a text, which may be computed, and what `Sprintf` makes of a format with a number or with two.
pub data Arg : Type 0 where
  num : ℕ → Arg
  int : ℤ → Arg
  text : String → Arg
  bytes : List ℕ → Arg
  formatted : String → ℕ → Arg
  formatted_two : String → ℕ → ℕ → Arg

pub record Line : Type 0 where
  pub indented : Bool
  pub fmt : String
  pub args : List Arg

-- The line that `Col0` writes, and that `Col1` writes, which is indented.
abbrev pub col0 : String → List Arg → Line
col0 fmt args = record { indented = false; fmt = fmt; args = args }

abbrev pub col1 : String → List Arg → Line
col1 fmt args = record { indented = true; fmt = fmt; args = args }
