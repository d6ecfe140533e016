-- ===== src/Backend/Writer/Memory.antt =====
-- backend/i386/writer.cpp, `FuncWriter`: allocation, labels, constants, moves, fields and arrays.
use joosc.Ast.Ids.{simple, static_type_info_id}
use joosc.Backend.Asm.{Arg, Line, col0, col1}
use joosc.Backend.Writer.{
  Context, Write, StackEntry, ExceptionType, write, expect, wrong_nargs, register, to_size_class,
  stack_offset, find_entry, cur_stack, new_local_label, make_exception, resolve_field_owner,
}
use joosc.Backend.Offsets.Table.{size_of, offset_of_field}
use joosc.Common.{ℕ, Bool, true, false, List, [], ◌∷◌, String, ◌==◌, if◌then◌else◌, thrown, Exn}
use joosc.Common.Integers.{◌+ℤ◌, ◌-ℤ◌, is_nonnegative}
use joosc.Common.Maps.{insert_new}
use joosc.Common.States.{◌>>=◌, ◌>>◌, pure, check_that, modify, gets, lift}
use joosc.Ir.Builder.{same_size, invalid_mem_id}
use joosc.Ir.Size.{SizeClass, byte_size_from, size_class_from}
use joosc.Types.Conversions.{is_primitive}

module _ (c : Context) where
  unfoldable pub alloc_heap : List ℕ → Write (Unit {0})
  unfolding write expect find_entry cur_stack stack_offset
  alloc_heap (dst ∷ tid ∷ []) = do
    dst_e ← find_entry dst
    expect (same_size dst_e.size SizeClass.ptr)
    size ← lift (size_of c.offsets (simple tid))
    stack_used ← cur_stack
    write (
        col1 "; t%v = new %v" (Arg.num dst ∷ Arg.num size ∷ [])
        ∷ col1 "mov eax, %v" (Arg.num size ∷ [])
        ∷ col1 "sub esp, %v" (Arg.int stack_used ∷ [])
        ∷ col1 "call _joos_malloc" []
        ∷ col1 "add esp, %v" (Arg.int stack_used ∷ [])
        ∷ col1 "mov dword [eax], vtable_t%v" (Arg.num tid ∷ [])
        ∷ col1 "mov %v, eax" (stack_offset dst_e.offset ∷ [])
        ∷ [])
  alloc_heap _ = wrong_nargs

  unfoldable pub element_type : ℕ → List Line
  unfolding is_primitive
  element_type elemtype =
      if is_primitive (simple elemtype)
      then col1 "mov dword [eax+8], %v" (Arg.num elemtype ∷ []) ∷ []
      else (col1 "mov ebx, [static_t%v_f%v]" (Arg.num elemtype ∷ Arg.num static_type_info_id ∷ [])
          ∷ col1 "mov [eax+8], ebx" []
          ∷ [])

  unfoldable pub alloc_array : List ℕ → Write (Unit {0})
  unfolding write expect find_entry cur_stack stack_offset make_exception element_type
      byte_size_from size_class_from
  alloc_array (dst ∷ elemtype ∷ len ∷ file_offset ∷ []) = do
    dst_e ← find_entry dst
    len_e ← find_entry len
    expect (same_size dst_e.size SizeClass.ptr)
    expect (same_size len_e.size SizeClass.int)
    stack_used ← cur_stack
    write (
        col1 "; t%v = new[t%v]" (Arg.num dst ∷ Arg.num len ∷ [])
        ∷ col1 "mov eax, %v" (stack_offset len_e.offset ∷ [])
        ∷ [])
    exception_id ← make_exception c ExceptionType.nase file_offset
    write (
        col1 "; Checking for negative array length." []
        ∷ col1 "cmp eax, 0" []
        ∷ col1 "jl .e%v" (Arg.num exception_id ∷ [])
        ∷ col1 "mov ebx, %v" (Arg.num (byte_size_from (size_class_from (simple elemtype)) 4) ∷ [])
        ∷ col1 "imul ebx" []
        ∷ col1 "add eax, 12" []
        ∷ col1 "sub esp, %v" (Arg.int stack_used ∷ [])
        ∷ col1 "call _joos_malloc" []
        ∷ col1 "add esp, %v" (Arg.int stack_used ∷ [])
        ∷ col1 "mov %v, eax" (stack_offset dst_e.offset ∷ [])
        ∷ col1 "mov dword [eax], array_vtable_t%v" (Arg.num c.rt_ids.object_tid.base ∷ [])
        ∷ col1 "mov ebx, %v" (stack_offset len_e.offset ∷ [])
        ∷ col1 "mov [eax+4], ebx" []
        ∷ [])
    write (element_type elemtype)
  alloc_array _ = wrong_nargs

  unfoldable pub field_static : ℕ → ℕ → StackEntry → Arg → String → String → Write (Unit {0})
  unfolding write resolve_field_owner stack_offset
  field_static child_tid fid dst_e sized_reg src_prefix instr = do
    parent_tid ← lift (resolve_field_owner c (simple child_tid) fid)
    write (
        col1 "; t%v = %vstatic_t%v_f%v"
          (Arg.num dst_e.id ∷ Arg.text src_prefix ∷ Arg.num parent_tid.base ∷ Arg.num fid ∷ [])
        ∷ col1 "%v %v, [static_t%v_f%v]"
            (Arg.text instr ∷ sized_reg ∷ Arg.num parent_tid.base ∷ Arg.num fid ∷ [])
        ∷ col1 "mov %v, %v" (stack_offset dst_e.offset ∷ sized_reg ∷ [])
        ∷ [])

  unfoldable pub field_of : ℕ → ℕ → ℕ → StackEntry → Arg → String → String → Write (Unit {0})
  unfolding write find_entry make_exception stack_offset
  field_of src fid file_offset dst_e sized_reg src_prefix instr = do
    src_e ← find_entry src
    field_offset ← lift (offset_of_field c.offsets fid)
    write (
        col1 "; t%v = %vt%v.f%v."
          (Arg.num dst_e.id ∷ Arg.text src_prefix ∷ Arg.num src_e.id ∷ Arg.num fid ∷ [])
        ∷ col1 "mov ebx, %v" (stack_offset src_e.offset ∷ [])
        ∷ [])
    exception_id ← make_exception c ExceptionType.npe file_offset
    write (
        col1 "; Checking for NPE." []
        ∷ col1 "test ebx, ebx" []
        ∷ col1 "jz .e%v" (Arg.num exception_id ∷ [])
        ∷ col1 "%v %v, [ebx+%v]" (Arg.text instr ∷ sized_reg ∷ Arg.num field_offset ∷ [])
        ∷ col1 "mov %v, %v" (stack_offset dst_e.offset ∷ sized_reg ∷ [])
        ∷ [])

  unfoldable pub field_impl : List ℕ → Bool → Write (Unit {0})
  unfolding find_entry expect register field_static field_of
  field_impl (dst ∷ src ∷ child_tid ∷ fid ∷ file_offset ∷ []) addr = do
    dst_e ← find_entry dst
    expect (if addr then same_size dst_e.size SizeClass.ptr else true)
    let sized_reg = if addr then Arg.text "eax" else register dst_e.size "al" "ax" "eax"
    let src_prefix = if addr then "&" else ""
    let instr = if addr then "lea" else "mov"
    if src == invalid_mem_id
        then field_static child_tid fid dst_e sized_reg src_prefix instr
        else field_of src fid file_offset dst_e sized_reg src_prefix instr
  field_impl _ addr = wrong_nargs

  -- What the address of an element does without an exception, and its value with one.
  unfoldable pub array_null : Bool → StackEntry → Arg → ℕ → ℕ → Write (Unit {0})
  unfolding write make_exception stack_offset
  array_null true dst_e sized_reg local_label file_offset = write (
      col1 "mov %v, 0" (sized_reg ∷ [])
      ∷ col1 "mov %v, %v" (stack_offset dst_e.offset ∷ sized_reg ∷ [])
      ∷ col1 "test ecx, ecx" []
      ∷ col1 "jz .LL%v" (Arg.num local_label ∷ [])
      ∷ [])
  array_null false dst_e sized_reg local_label file_offset = do
    exception_id ← make_exception c ExceptionType.npe file_offset
    write (col1 "test ecx, ecx" [] ∷ col1 "jz .e%v" (Arg.num exception_id ∷ []) ∷ [])

  unfoldable pub array_access_impl : List ℕ → Bool → Write (Unit {0})
  unfolding write find_entry expect register to_size_class new_local_label make_exception
      stack_offset array_null byte_size_from
  array_access_impl (dst ∷ src ∷ idx ∷ size ∷ file_offset ∷ []) addr = do
    elemsize ← lift (to_size_class size)
    dst_e ← find_entry dst
    src_e ← find_entry src
    idx_e ← find_entry idx
    expect (same_size idx_e.size SizeClass.int)
    expect (same_size src_e.size SizeClass.ptr)
    expect (if addr then same_size dst_e.size SizeClass.ptr else true)
    let sized_reg = if addr then Arg.text "eax" else register dst_e.size "al" "ax" "eax"
    let src_prefix = if addr then "&" else ""
    let instr = if addr then "lea" else "mov"
    local_label ← new_local_label
    write (
        col1 "; t%v = %vt%v[t%v]"
          (Arg.num dst ∷ Arg.text src_prefix ∷ Arg.num src ∷ Arg.num idx ∷ [])
        ∷ col1 "mov ecx, %v" (stack_offset src_e.offset ∷ [])
        ∷ col1 "; Checking for NPE." []
        ∷ [])
    array_null addr dst_e sized_reg local_label file_offset
    write (col1 "mov eax, %v" (stack_offset idx_e.offset ∷ []) ∷ col1 "mov ebx, [ecx+4]" [] ∷ [])
    exception_id ← make_exception c ExceptionType.oobe file_offset
    write (
        col1 "; Checking bounds for array access." []
        ∷ col1 "cmp eax, 0" []
        ∷ col1 "jl .e%v" (Arg.num exception_id ∷ [])
        ∷ col1 "cmp eax, ebx" []
        ∷ col1 "jge .e%v" (Arg.num exception_id ∷ [])
        ∷ col1 "mov ebx, %v" (Arg.num (byte_size_from elemsize 4) ∷ [])
        ∷ col1 "imul ebx" []
        ∷ col1 "add eax, 12" []
        ∷ col1 "%v %v, [ecx+eax]" (Arg.text instr ∷ sized_reg ∷ [])
        ∷ col1 "mov %v, %v" (stack_offset dst_e.offset ∷ sized_reg ∷ [])
        ∷ col1 ".LL%v:" (Arg.num local_label ∷ [])
        ∷ [])
  array_access_impl _ addr = wrong_nargs

  unfoldable pub mov_to_addr : List ℕ → Write (Unit {0})
  unfolding write find_entry expect register make_exception stack_offset
  mov_to_addr (dst ∷ src ∷ file_offset ∷ []) = do
    dst_e ← find_entry dst
    src_e ← find_entry src
    expect (same_size dst_e.size SizeClass.ptr)
    let src_reg = register src_e.size "bl" "bx" "ebx"
    write (
        col1 "; *t%v = t%v." (Arg.num dst_e.id ∷ Arg.num src_e.id ∷ [])
        ∷ col1 "mov %v, %v" (src_reg ∷ stack_offset src_e.offset ∷ [])
        ∷ col1 "mov eax, %v" (stack_offset dst_e.offset ∷ [])
        ∷ [])
    exception_id ← make_exception c ExceptionType.npe file_offset
    write (
        col1 "; Checking for NPE." []
        ∷ col1 "test eax, eax" []
        ∷ col1 "jz .e%v" (Arg.num exception_id ∷ [])
        ∷ col1 "mov [eax], %v" (src_reg ∷ [])
        ∷ [])
  mov_to_addr _ = wrong_nargs

unfoldable pub alloc_mem : List ℕ → Write (Unit {0})
unfolding write to_size_class insert_new cur_stack stack_offset ◌+ℤ◌
alloc_mem (memid ∷ size_index ∷ is_immutable ∷ []) = do
  size ← lift (to_size_class size_index)
  offset ← cur_stack
  modify (λ w. record w { cur_offset = w.cur_offset +ℤ 4 })
  write (col1 "; %v refers to t%v." (stack_offset offset ∷ Arg.num memid ∷ []) ∷ [])
  stack_map ← gets (λ w. w.stack_map)
  stack_map' ←
      lift (insert_new ◌==◌ memid (record { size = size; offset = offset; id = memid }) stack_map)
  modify (λ w. record w {
    stack_map = stack_map';
    stack = record { size = size; offset = offset; id = memid } ∷ w.stack;
  })
alloc_mem _ = wrong_nargs

-- `stack_map.erase(memid)`.
unfoldable pub erase_entry : ℕ → List (ℕ × StackEntry) → List (ℕ × StackEntry)
erase_entry memid [] = []
erase_entry memid ((id, e) ∷ m) =
    let rest = erase_entry memid m in if memid == id then rest else (id, e) ∷ rest

unfoldable pub pop_entry : List StackEntry → Write StackEntry
pop_entry [] = lift (thrown Exn.check_failed)
pop_entry (entry ∷ stack) = do modify (λ w. record w { stack = stack }); pure entry

unfoldable pub dealloc_mem : List ℕ → Write (Unit {0})
unfolding write expect erase_entry pop_entry stack_offset ◌-ℤ◌
dealloc_mem (memid ∷ []) = do
  stack ← gets (λ w. w.stack)
  entry ← pop_entry stack
  expect (entry.id == memid)
  modify
      (λ w. record w { stack_map = erase_entry memid w.stack_map; cur_offset = w.cur_offset -ℤ 4 })
  check_that (λ w. is_nonnegative w.cur_offset)
  write (
      col1 "; t%v deallocated, used to be at %v." (Arg.num memid ∷ stack_offset entry.offset ∷ [])
      ∷ [])
dealloc_mem _ = wrong_nargs

unfoldable pub label : List ℕ → Write (Unit {0})
unfolding write
label (lid ∷ []) = write (col0 ".L%v:" (Arg.num lid ∷ []) ∷ [])
label _ = wrong_nargs

unfoldable pub const : List ℕ → Write (Unit {0})
unfolding write expect find_entry to_size_class register stack_offset
const (memid ∷ size_index ∷ value ∷ []) = do
  size ← lift (to_size_class size_index)
  entry ← find_entry memid
  expect (same_size entry.size size)
  write (
      col1 "; t%v = %v." (Arg.num memid ∷ Arg.num value ∷ [])
      ∷ col1 "mov %v %v, %v"
          (register size "byte" "word" "dword" ∷ stack_offset entry.offset ∷ Arg.num value ∷ [])
      ∷ [])
const _ = wrong_nargs

unfoldable pub const_str : List ℕ → Write (Unit {0})
unfolding write expect find_entry stack_offset
const_str (memid ∷ strid ∷ []) = do
  entry ← find_entry memid
  expect (same_size entry.size SizeClass.ptr)
  write (
      col1 "; t%v = static string %v" (Arg.num memid ∷ Arg.num strid ∷ [])
      ∷ col1 "mov dword %v, string%v" (stack_offset entry.offset ∷ Arg.num strid ∷ [])
      ∷ [])
const_str _ = wrong_nargs

unfoldable pub mov_impl : List ℕ → Bool → Write (Unit {0})
unfolding write expect find_entry register stack_offset
mov_impl (dst ∷ src ∷ []) addr = do
  dst_e ← find_entry dst
  src_e ← find_entry src
  expect (if addr then same_size dst_e.size SizeClass.ptr else same_size dst_e.size src_e.size)
  let sized_reg = if addr then Arg.text "eax" else register dst_e.size "al" "ax" "eax"
  let src_prefix = if addr then "&" else ""
  let instr = if addr then "lea" else "mov"
  write (
      col1 "; t%v = %vt%v." (Arg.num dst_e.id ∷ Arg.text src_prefix ∷ Arg.num src_e.id ∷ [])
      ∷ col1 "%v %v, %v" (Arg.text instr ∷ sized_reg ∷ stack_offset src_e.offset ∷ [])
      ∷ col1 "mov %v, %v" (stack_offset dst_e.offset ∷ sized_reg ∷ [])
      ∷ [])
mov_impl _ addr = wrong_nargs
