-- ===== src/Backend/Writer.antt =====
-- backend/i386/writer.h, backend/i386/writer.cpp, `FuncWriter`: the code of a method. Offsets into the
-- stack are integers without a bound, since a method has far fewer than 2 ^ 60 memories. The output
-- is the list of its lines.
pub mod Memory
pub mod Arithmetic
pub mod Calls
pub mod Func
pub mod Refs
mod Steps
pub mod Labels
pub mod Slots
pub mod Tables
use joosc.Ast.Ids.{TypeId, simple, static_type_info_id, array_length_field_id}
use joosc.Ast.Modifiers.{TypeKind}
use joosc.Backend.Asm.{Arg, Line, col0, col1}
use joosc.Backend.Offsets.Table.{OffsetTable}
use joosc.Base.{File, index_to_line_col}
use joosc.Common.{
  ℕ, zero, suc, ◌+◌, Bool, true, false, ◌||◌, Option, none, some, List, [], ◌∷◌, ◌++◌, String,
  length, concat, ◌==◌, if◌then◌else◌, Outcome, ok, thrown, Exn,
}
use joosc.Common.Integers.{ℤ, pos, negsuc, ◌+ℤ◌, ◌-ℤ◌}
use joosc.Common.Maps.{at_key, insert_new}
use joosc.Common.States.{Stateful, ◌>>=◌, ◌>>◌, pure, check_that, modify, gets, lift}
use joosc.Ir.Builder.{same_size}
use joosc.Ir.Size.{SizeClass}
use joosc.Ir.Stream.{Stream}

pub data ExceptionType : Type 0 where
  arithmetic npe oobe nase cce ase : ExceptionType

-- The enumerator's value.
unfoldable pub exception_index : ExceptionType → ℕ
exception_index ExceptionType.arithmetic = 0
exception_index ExceptionType.npe = 1
exception_index ExceptionType.oobe = 2
exception_index ExceptionType.nase = 3
exception_index ExceptionType.cce = 4
exception_index ExceptionType.ase = 5

pub record StackFrame : Type 0 where
  pub fid : ℕ
  pub tid : ℕ
  pub mid : ℕ
  pub line : ℕ

pub record StackEntry : Type 0 where
  pub size : SizeClass
  pub offset : ℤ
  pub id : ℕ

pub record ExceptionSite : Type 0 where
  pub type : ExceptionType
  pub stack_frame_id : ℕ

-- The ids of the runtime's types and methods that a method's code calls.
pub record RuntimeLinkIds : Type 0 where
  pub object_tid : TypeId
  pub type_info_tid : TypeId
  pub type_info_instanceof : ℕ

-- The offset table, the file, the class that the table of classes has for a field, and the frame of the
-- method.
pub record Context : Type 0 where
  pub offsets : OffsetTable
  pub file : File
  pub field_class : TypeId → ℕ → Outcome TypeId
  pub rt_ids : RuntimeLinkIds
  pub frame : StackFrame

-- The back of `stack` is the head of the list.
pub record FuncWriter : Type 0 where
  pub stack_map : List (ℕ × StackEntry)
  pub cur_offset : ℤ
  pub stack : List StackEntry
  pub exceptions : List ExceptionSite
  pub local_label_counter : ℕ
  pub stack_frames : List StackFrame
  pub out : List Line

abbrev pub Write : Type 0 → Type 0
Write A = Stateful FuncWriter A

-- Lines that follow each other.
unfoldable pub write : List Line → Write (Unit {0})
write lines = modify (λ w. record w { out = w.out ++ lines })

unfoldable pub expect : Bool → Write (Unit {0})
expect b = check_that (λ w. b)

-- `EXPECT_NARGS` fails.
unfoldable pub wrong_nargs : Write (Unit {0})
wrong_nargs = lift (thrown Exn.check_failed)

unfoldable pub sized : {A : Type 0} → SizeClass → A → A → A → A
sized SizeClass.bool b1 b2 b4 = b1
sized SizeClass.byte b1 b2 b4 = b1
sized SizeClass.short b1 b2 b4 = b2
sized SizeClass.char b1 b2 b4 = b2
sized SizeClass.int b1 b2 b4 = b4
sized SizeClass.ptr b1 b2 b4 = b4

-- `(SizeClass)n`; no enumerator has another value.
unfoldable pub to_size_class : ℕ → Outcome SizeClass
to_size_class n =
    if n == 0
    then ok SizeClass.bool
    else if n == 1
    then ok SizeClass.byte
    else if n == 2
    then ok SizeClass.short
    else if n == 3
    then ok SizeClass.char
    else if n == 4
    then ok SizeClass.int
    else if n == 5
    then ok SizeClass.ptr
    else thrown Exn.undefined

unfoldable pub stack_offset : ℤ → Arg
stack_offset (pos n) = Arg.formatted "[ebp-%v]" (n + 4)
stack_offset (negsuc n) = Arg.formatted "[ebp+%v]" (suc n)

-- `Sized` of three registers.
unfoldable pub register : SizeClass → String → String → String → Arg
unfolding sized
register size b1 b2 b4 = Arg.text (sized size b1 b2 b4)

unfoldable pub find_entry : ℕ → Write StackEntry
unfolding at_key
find_entry mem = do stack_map ← gets (λ w. w.stack_map); lift (at_key ◌==◌ mem stack_map)

unfoldable pub cur_stack : Write ℤ
cur_stack = gets (λ w. w.cur_offset)

unfoldable pub new_local_label : Write ℕ
new_local_label = do
  label ← gets (λ w. w.local_label_counter)
  modify (λ w. record w { local_label_counter = suc w.local_label_counter })
  pure label

-- Lines are counted from 1 on.
abbrev pub one_based : Outcome (ℕ × ℕ) → Outcome ℕ
one_based (ok (line, col)) = ok (line + 1)
one_based (thrown e) = thrown e

module _ (c : Context) where
  unfoldable pub resolve_field_owner : TypeId → ℕ → Outcome TypeId
  resolve_field_owner tid fid =
      if fid == static_type_info_id || fid == array_length_field_id
      then ok tid
      else c.field_class tid fid

  unfoldable pub offset_to_line : ℕ → Outcome ℕ
  unfolding index_to_line_col
  offset_to_line offset = one_based (index_to_line_col c.file offset)

  unfoldable pub make_stack_frame : ℕ → Write ℕ
  unfolding offset_to_line
  make_stack_frame file_offset = do
    line ← lift (offset_to_line file_offset)
    frame_idx ← gets (λ w. length w.stack_frames)
    modify (λ w. record w { stack_frames = concat w.stack_frames (record c.frame { line = line }) })
    pure frame_idx

  unfoldable pub make_exception : ExceptionType → ℕ → Write ℕ
  unfolding make_stack_frame
  make_exception type file_offset = do
    exception_id ← gets (λ w. length w.exceptions)
    stack_frame ← make_stack_frame file_offset
    modify (λ w. record w {
      exceptions = concat w.exceptions (record { type = type; stack_frame_id = stack_frame });
    })
    pure exception_id

unfoldable pub entry_line : Bool → List Line
entry_line true = col0 "_entry:" [] ∷ []
entry_line false = []

unfoldable pub write_prologue : Stream → Write (Unit {0})
unfolding write entry_line
write_prologue stream = do
  write (col0 "; Starting method." [] ∷ [])
  write (entry_line stream.is_entry_point)
  write (
      col0 "%v:\n" (Arg.formatted_two "_t%v_m%v" stream.tid stream.mid ∷ [])
      ∷ col1 "; Function prologue." []
      ∷ col1 "push ebp" []
      ∷ col1 "mov ebp, esp\n" []
      ∷ [])

-- The loop of `WriteEpilogue` over the exceptions from the `i`th on.
unfoldable pub exception_lines : ℕ → List ExceptionSite → List Line
unfolding exception_index
exception_lines i [] = []
exception_lines i (e ∷ exceptions) =
    col0 ".e%v:" (Arg.num i ∷ [])
    ∷ col1 "mov eax, %v" (Arg.num (exception_index e.type) ∷ [])
    ∷ col1 "mov ebx, stackframe_%v" (Arg.num e.stack_frame_id ∷ [])
    ∷ col1 "jmp _joos_throw" []
    ∷ exception_lines (suc i) exceptions

unfoldable pub write_epilogue : Write (Unit {0})
unfolding write exception_lines
write_epilogue = do
  write (col0 ".epilogue:" [] ∷ col1 "pop ebp" [] ∷ col1 "ret\n" [] ∷ [])
  exceptions ← gets (λ w. w.exceptions)
  write (exception_lines 0 exceptions)
  write (col0 "\n" [] ∷ [])

-- The loop of `SetupParams`: the next memory and its offset.
unfoldable pub setup_each : List SizeClass → ℕ → ℤ → Write (Unit {0})
unfolding insert_new ◌-ℤ◌
setup_each [] i param_offset = pure tt
setup_each (size ∷ params) i param_offset = do
  stack_map ← gets (λ w. w.stack_map)
  stack_map' ←
      lift (insert_new ◌==◌ i (record { size = size; offset = param_offset; id = i }) stack_map)
  modify (λ w. record w { stack_map = stack_map' })
  setup_each params (suc i) (param_offset -ℤ 4)

unfoldable pub setup_params : Stream → Write (Unit {0})
unfolding setup_each
setup_params stream = setup_each stream.params 1 (negsuc 11)
