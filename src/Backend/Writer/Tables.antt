-- ===== src/Backend/Writer/Tables.antt =====
-- backend/i386/writer.cpp, `WriteVtable`, `WriteItable`, `WriteStatics` and `WriteStackFrames`: the tables of a
-- type and of the stack frames.
pub mod Words
use joosc.Ast.Ids.{TypeId, static_type_info_id}
use joosc.Backend.Asm.{Arg, Line, col0, col1}
use joosc.Backend.Offsets.{is_interface}
use joosc.Backend.Offsets.Interfaces.{Itable}
use joosc.Backend.Offsets.Methods.{Vtable}
use joosc.Backend.Offsets.Table.{OffsetTable, StaticFields, vtable_of, itable_at, static_fields_of}
use joosc.Backend.Writer.{StackFrame, register}
use joosc.Common.{
  ℕ, suc, ◌+◌, ◌-◌, ◌/◌, ◌^◌, Bool, true, false, List, [], ◌∷◌, ◌++◌, leb, ◌==◌, if◌then◌else◌,
  Outcome, ok, ◌>>=◌,
}
use joosc.Types.Info.{TypeInfo}

unfoldable pub vtable_lines : Vtable → List Line
vtable_lines [] = []
vtable_lines ((type, mid) ∷ vtable) =
    col1 "dd _t%v_m%v" (Arg.num type.base ∷ Arg.num mid ∷ []) ∷ vtable_lines vtable

-- The vtable of a type, and that of arrays of objects.
unfoldable pub write_vtable_impl : OffsetTable → TypeId → Bool → TypeId → Outcome (List Line)
unfolding vtable_lines vtable_of
write_vtable_impl offsets array_runtime_type array type = do
  let prefix = if array then "array_" else ""
  let tid = if array then array_runtime_type.base else type.base
  vtable ← vtable_of offsets type
  ok (
      col0 "global %vvtable_t%v" (Arg.text prefix ∷ Arg.num type.base ∷ [])
        ∷ col0 "%vvtable_t%v:" (Arg.text prefix ∷ Arg.num type.base ∷ [])
        ∷ col1 "dd static_t%v_f%v" (Arg.num tid ∷ Arg.num static_type_info_id ∷ [])
        ∷ col1 "dd itable_t%v" (Arg.num type.base ∷ [])
        ∷ vtable_lines vtable
      ++ col0 "\n" [] ∷ [])

-- The vtable of a class; `Object` has one for arrays too.
unfoldable pub write_vtable : OffsetTable → TypeId → TypeId → TypeInfo → Outcome (List Line)
unfolding write_vtable_impl
write_vtable offsets array_runtime_type object_tid tinfo =
    if is_interface tinfo.kind then ok [] else do
      lines ← write_vtable_impl offsets array_runtime_type false tinfo.type
      array_lines ←
          if tinfo.type.base == object_tid.base
          then write_vtable_impl offsets array_runtime_type true
              (record { base = object_tid.base; ndims = 1 })
          else ok []
      ok (lines ++ array_lines)

-- Subtraction of `u64`.
unfoldable pub u64_sub : ℕ → ℕ → ℕ
u64_sub a b = if leb b a then a - b else a + (2 ^ 64 - b)

unfoldable pub padding : ℕ → ℕ → List Line
unfolding u64_sub
padding cur_offset entry_offset =
    if cur_offset == entry_offset
    then []
    else col1 "times %v dd 0" (Arg.num (u64_sub entry_offset cur_offset / 4) ∷ []) ∷ []

-- The loop of `WriteItable`; behind an entry the offset is the entry's and a word.
unfoldable pub itable_lines : ℕ → Itable → List Line
unfolding padding
itable_lines cur_offset [] = []
itable_lines cur_offset ((entry_offset, (type, mid)) ∷ itable) =
    padding cur_offset entry_offset
    ++ col1 "dd _t%v_m%v" (Arg.num type.base ∷ Arg.num mid ∷ [])
      ∷ itable_lines (entry_offset + 4) itable

unfoldable pub write_itable : OffsetTable → TypeInfo → Outcome (List Line)
unfolding itable_lines itable_at
write_itable offsets tinfo = if is_interface tinfo.kind then ok [] else do
  itable ← itable_at offsets tinfo.type
  ok (
      col0 "itable_t%v:" (Arg.num tinfo.type.base ∷ []) ∷ itable_lines 0 itable
      ++ col0 "\n" [] ∷ [])

unfoldable pub static_lines : ℕ → StaticFields → List Line
unfolding register
static_lines tid [] = []
static_lines tid ((fid, size) ∷ statics) =
    col0 "static_t%v_f%v:" (Arg.num tid ∷ Arg.num fid ∷ [])
    ∷ col1 "%v 0" (register size "db" "dw" "dd" ∷ [])
    ∷ static_lines tid statics

unfoldable pub write_statics : OffsetTable → TypeInfo → Outcome (List Line)
unfolding static_lines static_fields_of
write_statics offsets tinfo =
    if is_interface tinfo.kind
    then ok (
        col0 "static_t%v_f%v:" (Arg.num tinfo.type.base ∷ Arg.num static_type_info_id ∷ [])
        ∷ col1 "dd 0" []
        ∷ [])
    else do statics ← static_fields_of offsets tinfo.type; ok (static_lines tinfo.type.base statics)

-- The loop of `WriteStackFrames` from the `i`th frame on.
unfoldable pub frame_lines : ℕ → ℕ → List StackFrame → List Line
frame_lines stackframe_type i [] = []
frame_lines stackframe_type i (frame ∷ stack_frames) =
    col0 "stackframe_%v:" (Arg.num i ∷ [])
    ∷ col1 "dd vtable_t%v" (Arg.num stackframe_type ∷ [])
    ∷ col1 "dd src_file%v" (Arg.num frame.fid ∷ [])
    ∷ col1 "dd types%v" (Arg.num frame.tid ∷ [])
    ∷ col1 "dd methods%v" (Arg.num frame.mid ∷ [])
    ∷ col1 "dd %v" (Arg.num frame.line ∷ [])
    ∷ frame_lines stackframe_type (suc i) stack_frames

unfoldable pub write_stack_frames : ℕ → List StackFrame → List Line
unfolding frame_lines
write_stack_frames stackframe_type stack_frames =
    col0 "\n" [] ∷ col0 "section .rodata" [] ∷ frame_lines stackframe_type 0 stack_frames
