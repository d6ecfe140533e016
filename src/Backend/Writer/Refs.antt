-- ===== src/Backend/Writer/Refs.antt =====
-- Which exception sites and stack frames a line of backend/i386/writer.cpp speaks of, and which site's
-- code it begins.
use text.Mathlib.Text.{◌==◌ as str_eq}
use joosc.Backend.Asm.{Arg, Line}
use joosc.Backend.Writer.{FuncWriter, ExceptionSite}
use joosc.Common.{ℕ, ◌<◌, ◌||◌, List, [], ◌∷◌, ◌++◌, length, if◌then◌else◌, All, map}

pub data Ref : Type 0 where
  exception frame defined : ℕ → Ref

abbrev pub first_number : List Arg → List ℕ
first_number (Arg.num n ∷ args) = n ∷ []
first_number _ = []

abbrev pub first_exception : List Arg → List Ref
first_exception (Arg.num n ∷ args) = Ref.exception n ∷ []
first_exception _ = []

abbrev pub first_frame : List Arg → List Ref
first_frame (Arg.num n ∷ args) = Ref.frame n ∷ []
first_frame _ = []

-- The exception that a line jumps to.
unfoldable pub jumps_to : Line → List Ref
jumps_to line =
    if str_eq line.fmt "jz .e%v" || (str_eq line.fmt "jl .e%v" || str_eq line.fmt "jge .e%v")
    then first_exception line.args
    else []

-- The stack frame that a line names.
unfoldable pub names_frame : Line → List Ref
names_frame line =
    if str_eq line.fmt "push stackframe_%v" || str_eq line.fmt "mov ebx, stackframe_%v"
    then first_frame line.args
    else []

-- The exception whose code a line begins.
unfoldable pub defines : Line → List ℕ
defines line = if str_eq line.fmt ".e%v:" then first_number line.args else []

unfoldable pub labels : List Line → List ℕ
unfolding defines
labels [] = []
labels (line ∷ lines) = defines line ++ labels lines

unfoldable pub refs : List Line → List Ref
unfolding jumps_to names_frame defines
refs [] = []
refs (line ∷ lines) =
    jumps_to line ++ (names_frame line ++ (map Ref.defined (defines line) ++ refs lines))

-- What is spoken of is there, and before the epilogue no line begins an exception's code.
abbrev pub Bound : FuncWriter → Ref → Type 0
Bound w (Ref.exception n) = n < length w.exceptions
Bound w (Ref.frame n) = n < length w.stack_frames
Bound w (Ref.defined n) = ⊥

-- The frame that an exception site names.
abbrev pub site_frame : ExceptionSite → Ref
site_frame e = Ref.frame e.stack_frame_id

abbrev pub Known : FuncWriter → Type 0
Known w = All (Bound w) (refs w.out) × All (Bound w) (map site_frame w.exceptions)
