-- ===== src/Backend/Writer/Calls.antt =====
-- backend/i386/writer.cpp, `FuncWriter`: run-time type tests, calls and returns.
use joosc.Ast.Ids.{simple, static_type_info_id}
use joosc.Ast.Modifiers.{TypeKind}
use joosc.Backend.Asm.{Arg, Line, col0, col1}
use joosc.Backend.Writer.{
  Context, Write, StackEntry, ExceptionType, write, expect, wrong_nargs, register, stack_offset,
  find_entry, cur_stack, new_local_label, make_stack_frame, make_exception,
}
use joosc.Backend.Offsets.Table.{offset_of_method, native_call}
use joosc.Common.{
  ℕ, Bool, true, false, Option, none, some, List, [], ◌∷◌, ◌==◌, if◌then◌else◌, length,
}
use joosc.Common.Integers.{ℤ, ◌+ℤ◌}
use joosc.Common.States.{◌>>=◌, ◌>>◌, pure, lift}
use joosc.Ir.Builder.{same_size, invalid_mem_id}
use joosc.Ir.Size.{SizeClass}
use joosc.Types.Conversions.{is_primitive}

-- The source's type information, from its object and from an array.
abbrev type_info_of_object : List Line
type_info_of_object =
    col1 "mov ebx, [ebx]" [] ∷ col1 "mov ebx, [ebx]" [] ∷ col1 "mov ebx, [ebx]" [] ∷ []

module _ (c : Context) where
  unfoldable pub instance_of_impl : Write (Unit {0})
  unfolding write cur_stack stack_offset ◌+ℤ◌
  instance_of_impl = do
    stack_used ← cur_stack
    write (
        col1 "mov %v, eax" (stack_offset stack_used ∷ [])
        ∷ col1 "mov %v, ebx" (stack_offset (stack_used +ℤ 4) ∷ [])
        ∷ col1 "sub esp, %v" (Arg.int (stack_used +ℤ 4 +ℤ 4) ∷ [])
        ∷ col1 "push 0" []
        ∷ col1 "call _t%v_m%v"
            (Arg.num c.rt_ids.type_info_tid.base ∷ Arg.num c.rt_ids.type_info_instanceof ∷ [])
        ∷ col1 "pop ecx" []
        ∷ col1 "add esp, %v" (Arg.int (stack_used +ℤ 4 +ℤ 4) ∷ [])
        ∷ [])

  -- An array is tested for being an array of the type: its element type, a primitive one or another.
  unfoldable pub element_test : Bool → ℕ → ℕ → Write (Unit {0})
  unfolding write instance_of_impl
  element_test true dst_tid local_label = write (
      col1 "mov ebx, [ebx+8]" []
      ∷ col1 "cmp ebx, %v" (Arg.num dst_tid ∷ [])
      ∷ col1 "jne .LL%v" (Arg.num local_label ∷ [])
      ∷ col1 "mov al, 1" []
      ∷ [])
  element_test false dst_tid local_label = do
    write (
        col1 "mov eax, [static_t%v_f%v]" (Arg.num dst_tid ∷ Arg.num static_type_info_id ∷ [])
        ∷ col1 "mov ebx, [ebx+8]" []
        ∷ [])
    instance_of_impl

  -- The four cases: whether the type tested for is an array type, and the type of the operand.
  unfoldable pub instance_of_case : Bool → Bool → ℕ → StackEntry → StackEntry → Write (Unit {0})
  unfolding write instance_of_impl element_test new_local_label stack_offset is_primitive
  instance_of_case false true dst_tid dst_e src_e =
      write (col1 "mov byte %v, 1" (stack_offset dst_e.offset ∷ []) ∷ [])
  instance_of_case false false dst_tid dst_e src_e = do
    write (
        col1 "mov eax, [static_t%v_f%v]" (Arg.num dst_tid ∷ Arg.num static_type_info_id ∷ [])
        ∷ col1 "mov ebx, %v" (stack_offset src_e.offset ∷ [])
        ∷ type_info_of_object)
    instance_of_impl
    write (col1 "mov %v, al" (stack_offset dst_e.offset ∷ []) ∷ [])
  instance_of_case true true dst_tid dst_e src_e = do
    write (
        col1 "mov eax, [static_t%v_f%v]" (Arg.num dst_tid ∷ Arg.num static_type_info_id ∷ [])
        ∷ col1 "mov ebx, %v" (stack_offset src_e.offset ∷ [])
        ∷ col1 "mov ebx, [ebx+8]" []
        ∷ [])
    instance_of_impl
    write (col1 "mov %v, al" (stack_offset dst_e.offset ∷ []) ∷ [])
  instance_of_case true false dst_tid dst_e src_e = do
    local_label ← new_local_label
    write (
        col1 "mov byte %v, 0" (stack_offset dst_e.offset ∷ [])
        ∷ col1 "mov ebx, %v" (stack_offset src_e.offset ∷ [])
        ∷ col1 "mov ecx, [ebx]" []
        ∷ col1 "cmp ecx, array_vtable_t%v" (Arg.num c.rt_ids.object_tid.base ∷ [])
        ∷ col1 "jne .LL%v" (Arg.num local_label ∷ [])
        ∷ [])
    element_test (is_primitive (simple dst_tid)) dst_tid local_label
    write (
        col1 "mov %v, al" (stack_offset dst_e.offset ∷ [])
        ∷ col0 ".LL%v:" (Arg.num local_label ∷ [])
        ∷ [])

  unfoldable pub instance_of : List ℕ → Write (Unit {0})
  unfolding find_entry expect instance_of_case
  instance_of (dst ∷ src ∷ dst_tid ∷ dst_array ∷ src_tid ∷ src_array ∷ []) = do
    dst_e ← find_entry dst
    src_e ← find_entry src
    expect (same_size dst_e.size SizeClass.bool)
    instance_of_case (dst_array == 1) (src_array == 1) dst_tid dst_e src_e
  instance_of _ = wrong_nargs

  unfoldable pub cast_exception_if_false : List ℕ → Write (Unit {0})
  unfolding write find_entry expect make_exception stack_offset
  cast_exception_if_false (cond ∷ file_offset ∷ []) = do
    cond_e ← find_entry cond
    expect (same_size cond_e.size SizeClass.bool)
    exception_id ← make_exception c ExceptionType.cce file_offset
    write (
        col1 "; Checking for invalid class cast." []
        ∷ col1 "mov al, %v" (stack_offset cond_e.offset ∷ [])
        ∷ col1 "test al, al" []
        ∷ col1 "jz .e%v" (Arg.num exception_id ∷ [])
        ∷ [])
  cast_exception_if_false _ = wrong_nargs

  unfoldable pub check_array_store : List ℕ → Write (Unit {0})
  unfolding write find_entry expect make_exception stack_offset instance_of_impl
  check_array_store (array ∷ elem ∷ file_offset ∷ []) = do
    array_e ← find_entry array
    elem_e ← find_entry elem
    expect (same_size array_e.size SizeClass.ptr)
    expect (same_size elem_e.size SizeClass.ptr)
    exception_id ← make_exception c ExceptionType.ase file_offset
    write (
        col1 "; Checking for invalid polymorphic array store." []
        ∷ col1 "mov eax, %v" (stack_offset array_e.offset ∷ [])
        ∷ col1 "mov eax, [eax+8]" []
        ∷ col1 "mov ebx, %v" (stack_offset elem_e.offset ∷ [])
        ∷ type_info_of_object)
    instance_of_impl
    write (col1 "test al, al" [] ∷ col1 "jz .e%v" (Arg.num exception_id ∷ []) ∷ [])
  check_array_store _ = wrong_nargs

  -- The arguments in reverse order, above what the method uses; what is used then.
  unfoldable pub push_args : List ℕ → Write ℤ
  unfolding write find_entry register stack_offset cur_stack ◌+ℤ◌
  push_args [] = cur_stack
  push_args (arg ∷ args) = do
    stack_used ← push_args args
    arg_e ← find_entry arg
    let reg = register arg_e.size "al" "ax" "eax"
    write (
        col1 "mov %v, %v" (reg ∷ stack_offset arg_e.offset ∷ [])
        ∷ col1 "mov %v, %v" (stack_offset stack_used ∷ reg ∷ [])
        ∷ [])
    pure (stack_used +ℤ 4)

  unfoldable pub move_result : ℕ → Write (Unit {0})
  unfolding write find_entry register stack_offset
  move_result dst = if dst == invalid_mem_id then pure tt else do
    dst_e ← find_entry dst
    write (
        col1 "mov %v, %v" (stack_offset dst_e.offset ∷ register dst_e.size "al" "ax" "eax" ∷ [])
        ∷ [])

  unfoldable pub move_native : ℕ → Write (Unit {0})
  unfolding write find_entry stack_offset
  move_native dst = if dst == invalid_mem_id then pure tt else do
    dst_e ← find_entry dst
    write (col1 "mov %v, eax" (stack_offset dst_e.offset ∷ []) ∷ [])

  unfoldable pub native : ℕ → List ℕ → List ℕ → Write (Unit {0})
  unfolding write find_entry stack_offset cur_stack move_native
  native dst label (src ∷ []) = do
    stack_used ← cur_stack
    src_e ← find_entry src
    write (
        col1 "; Performing native call." []
        ∷ col1 "mov eax, %v" (stack_offset src_e.offset ∷ [])
        ∷ col1 "sub esp, %v" (Arg.int stack_used ∷ [])
        ∷ col1 "call %v" (Arg.bytes label ∷ [])
        ∷ col1 "add esp, %v" (Arg.int stack_used ∷ [])
        ∷ [])
    move_native dst
  native dst label _ = wrong_nargs

  unfoldable pub joos_call : ℕ → ℕ → ℕ → ℕ → List ℕ → Write (Unit {0})
  unfolding write push_args make_stack_frame move_result
  joos_call dst tid mid file_offset args = do
    write (col1 "; Pushing %v arguments onto stack for call." (Arg.num (length args) ∷ []) ∷ [])
    stack_used ← push_args args
    frame_idx ← make_stack_frame c file_offset
    write (
        col1 "; Performing call." []
        ∷ col1 "sub esp, %v" (Arg.int stack_used ∷ [])
        ∷ col1 "push stackframe_%v" (Arg.num frame_idx ∷ [])
        ∷ col1 "call _t%v_m%v" (Arg.num tid ∷ Arg.num mid ∷ [])
        ∷ col1 "pop ecx" []
        ∷ col1 "add esp, %v" (Arg.int stack_used ∷ [])
        ∷ [])
    move_result dst

  -- A native method has a label.
  unfoldable pub call_label : Option (List ℕ) → ℕ → ℕ → ℕ → ℕ → List ℕ → Write (Unit {0})
  unfolding native joos_call
  call_label (some label) dst tid mid file_offset args = native dst label args
  call_label none dst tid mid file_offset args = joos_call dst tid mid file_offset args

  unfoldable pub static_call : List ℕ → Write (Unit {0})
  unfolding expect call_label
  static_call (dst ∷ tid ∷ mid ∷ file_offset ∷ nargs ∷ args) = do
    expect (length args == nargs)
    call_label (native_call c.offsets mid) dst tid mid file_offset args
  static_call _ = wrong_nargs

  abbrev pub call_method : TypeKind → ℕ → List Line
  call_method TypeKind.class_kind offset = col1 "call [eax + %v]" (Arg.num offset ∷ []) ∷ []
  call_method TypeKind.interface_kind offset =
      col1 "mov eax, [eax + 4]" [] ∷ col1 "call [eax + %v]" (Arg.num offset ∷ []) ∷ []

  unfoldable pub dynamic_call : List ℕ → Write (Unit {0})
  unfolding write find_entry expect push_args make_exception make_stack_frame move_result
      stack_offset ◌+ℤ◌
  dynamic_call (dst ∷ this_ptr ∷ mid ∷ file_offset ∷ nargs ∷ args) = do
    expect (length args == nargs)
    this_e ← find_entry this_ptr
    write (col1 "; Pushing %v arguments onto stack for call." (Arg.num nargs ∷ []) ∷ [])
    stack_used ← push_args args
    write (
        col1 "; Pushing `this' onto stack for call." []
        ∷ col1 "mov eax, %v" (stack_offset this_e.offset ∷ [])
        ∷ [])
    exception_id ← make_exception c ExceptionType.npe file_offset
    write (
        col1 "; Checking for NPE." []
        ∷ col1 "test eax, eax" []
        ∷ col1 "jz .e%v" (Arg.num exception_id ∷ [])
        ∷ col1 "mov %v, eax" (stack_offset stack_used ∷ [])
        ∷ col1 "; Performing call." []
        ∷ [])
    (offset, kind) ← lift (offset_of_method c.offsets mid)
    frame_idx ← make_stack_frame c file_offset
    write (
        col1 "sub esp, %v" (Arg.int (stack_used +ℤ 4) ∷ [])
        ∷ col1 "push stackframe_%v" (Arg.num frame_idx ∷ [])
        ∷ col1 "mov eax, [eax]" []
        ∷ [])
    write (call_method kind offset)
    write (col1 "pop ecx" [] ∷ col1 "add esp, %v" (Arg.int (stack_used +ℤ 4) ∷ []) ∷ [])
    move_result dst
  dynamic_call _ = wrong_nargs

unfoldable pub ret : List ℕ → Write (Unit {0})
unfolding write find_entry register stack_offset
ret [] = write (col1 "; Return." [] ∷ col1 "jmp .epilogue" [] ∷ [])
ret (value ∷ []) = do
  ret_e ← find_entry value
  write (
      col1 "; Return t%v." (Arg.num ret_e.id ∷ [])
      ∷ col1 "mov %v, %v" (register ret_e.size "al" "ax" "eax" ∷ stack_offset ret_e.offset ∷ [])
      ∷ col1 "jmp .epilogue" []
      ∷ [])
ret _ = wrong_nargs
