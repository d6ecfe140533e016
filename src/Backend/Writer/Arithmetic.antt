-- ===== src/Backend/Writer/Arithmetic.antt =====
-- backend/i386/writer.cpp, `FuncWriter`: arithmetic, comparisons, jumps and conversions between sizes.
use joosc.Backend.Asm.{Arg, col1}
use joosc.Backend.Writer.{
  Context, Write, ExceptionType, write, expect, wrong_nargs, register, stack_offset, find_entry,
  make_exception,
}
use joosc.Common.{ℕ, Bool, ◌||◌, List, [], ◌∷◌, String, if◌then◌else◌}
use joosc.Common.States.{◌>>=◌, ◌>>◌}
use joosc.Ir.Builder.{same_size}
use joosc.Ir.Size.{SizeClass}

unfoldable pub add_sub : List ℕ → Bool → Write (Unit {0})
unfolding write expect find_entry stack_offset
add_sub (dst ∷ lhs ∷ rhs ∷ []) add = do
  dst_e ← find_entry dst
  lhs_e ← find_entry lhs
  rhs_e ← find_entry rhs
  expect (same_size dst_e.size SizeClass.int)
  expect (same_size lhs_e.size SizeClass.int)
  expect (same_size rhs_e.size SizeClass.int)
  let op_str = if add then "+" else "-"
  let instr = if add then "add" else "sub"
  write (
      col1 "; t%v = t%v %v t%v."
        (Arg.num dst_e.id ∷ Arg.num lhs_e.id ∷ Arg.text op_str ∷ Arg.num rhs_e.id ∷ [])
      ∷ col1 "mov eax, %v" (stack_offset lhs_e.offset ∷ [])
      ∷ col1 "%v eax, %v" (Arg.text instr ∷ stack_offset rhs_e.offset ∷ [])
      ∷ col1 "mov %v, eax" (stack_offset dst_e.offset ∷ [])
      ∷ [])
add_sub _ add = wrong_nargs

unfoldable pub mul : List ℕ → Write (Unit {0})
unfolding write expect find_entry stack_offset
mul (dst ∷ lhs ∷ rhs ∷ []) = do
  dst_e ← find_entry dst
  lhs_e ← find_entry lhs
  rhs_e ← find_entry rhs
  expect (same_size dst_e.size SizeClass.int)
  expect (same_size lhs_e.size SizeClass.int)
  expect (same_size rhs_e.size SizeClass.int)
  write (
      col1 "; t%v = t%v * t%v." (Arg.num dst_e.id ∷ Arg.num lhs_e.id ∷ Arg.num rhs_e.id ∷ [])
      ∷ col1 "mov eax, %v" (stack_offset lhs_e.offset ∷ [])
      ∷ col1 "mov ebx, %v" (stack_offset rhs_e.offset ∷ [])
      ∷ col1 "imul ebx" []
      ∷ col1 "mov %v, eax" (stack_offset dst_e.offset ∷ [])
      ∷ [])
mul _ = wrong_nargs

unfoldable pub div_mod : Context → List ℕ → Bool → Write (Unit {0})
unfolding write expect find_entry stack_offset make_exception
div_mod c (dst ∷ lhs ∷ rhs ∷ file_offset ∷ []) div = do
  dst_e ← find_entry dst
  lhs_e ← find_entry lhs
  rhs_e ← find_entry rhs
  expect (same_size dst_e.size SizeClass.int)
  expect (same_size lhs_e.size SizeClass.int)
  expect (same_size rhs_e.size SizeClass.int)
  let op_str = if div then "/" else "%"
  let res_reg = if div then "eax" else "edx"
  write (
      col1 "; t%v = t%v %v t%v."
        (Arg.num dst_e.id ∷ Arg.num lhs_e.id ∷ Arg.text op_str ∷ Arg.num rhs_e.id ∷ [])
      ∷ col1 "mov eax, %v" (stack_offset lhs_e.offset ∷ [])
      ∷ col1 "cdq" []
      ∷ col1 "mov ebx, %v" (stack_offset rhs_e.offset ∷ [])
      ∷ [])
  exception_id ← make_exception c ExceptionType.arithmetic file_offset
  write (
      col1 "; Checking for div-by-zero." []
      ∷ col1 "test ebx, ebx" []
      ∷ col1 "jz .e%v" (Arg.num exception_id ∷ [])
      ∷ col1 "idiv ebx" []
      ∷ col1 "mov %v, %v" (stack_offset dst_e.offset ∷ Arg.text res_reg ∷ [])
      ∷ [])
div_mod c _ div = wrong_nargs

unfoldable pub jmp : List ℕ → Write (Unit {0})
unfolding write
jmp (lid ∷ []) = write (col1 "jmp .L%v" (Arg.num lid ∷ []) ∷ [])
jmp _ = wrong_nargs

unfoldable pub jmp_if : List ℕ → Write (Unit {0})
unfolding write expect find_entry stack_offset
jmp_if (lid ∷ cond ∷ []) = do
  cond_e ← find_entry cond
  expect (same_size cond_e.size SizeClass.bool)
  write (
      col1 "; Jumping if t%v." (Arg.num cond ∷ [])
      ∷ col1 "mov al, %v" (stack_offset cond_e.offset ∷ [])
      ∷ col1 "test al, al" []
      ∷ col1 "jnz .L%v" (Arg.num lid ∷ [])
      ∷ [])
jmp_if _ = wrong_nargs

unfoldable pub rel_impl : List ℕ → String → String → Write (Unit {0})
unfolding write expect find_entry stack_offset
rel_impl (dst ∷ lhs ∷ rhs ∷ []) relation instruction = do
  dst_e ← find_entry dst
  lhs_e ← find_entry lhs
  rhs_e ← find_entry rhs
  expect (same_size dst_e.size SizeClass.bool)
  expect (same_size lhs_e.size SizeClass.int)
  expect (same_size rhs_e.size SizeClass.int)
  write (
      col1 "; t%v = (t%v %v t%v)."
        (Arg.num dst_e.id ∷ Arg.num lhs_e.id ∷ Arg.text relation ∷ Arg.num rhs_e.id ∷ [])
      ∷ col1 "mov eax, %v" (stack_offset lhs_e.offset ∷ [])
      ∷ col1 "cmp eax, %v" (stack_offset rhs_e.offset ∷ [])
      ∷ col1 "%v %v" (Arg.text instruction ∷ stack_offset dst_e.offset ∷ [])
      ∷ [])
rel_impl _ relation instruction = wrong_nargs

unfoldable pub eq : List ℕ → Write (Unit {0})
unfolding write expect find_entry register stack_offset
eq (dst ∷ lhs ∷ rhs ∷ []) = do
  dst_e ← find_entry dst
  lhs_e ← find_entry lhs
  rhs_e ← find_entry rhs
  expect (same_size dst_e.size SizeClass.bool)
  expect (same_size lhs_e.size rhs_e.size)
  expect (
      same_size lhs_e.size SizeClass.bool
      || (same_size lhs_e.size SizeClass.int || same_size lhs_e.size SizeClass.ptr))
  let sized_reg = register lhs_e.size "al" "" "eax"
  write (
      col1 "; t%v = (t%v == t%v)." (Arg.num dst_e.id ∷ Arg.num lhs_e.id ∷ Arg.num rhs_e.id ∷ [])
      ∷ col1 "mov %v, %v" (sized_reg ∷ stack_offset lhs_e.offset ∷ [])
      ∷ col1 "cmp %v, %v" (sized_reg ∷ stack_offset rhs_e.offset ∷ [])
      ∷ col1 "sete %v" (stack_offset dst_e.offset ∷ [])
      ∷ [])
eq _ = wrong_nargs

unfoldable pub not : List ℕ → Write (Unit {0})
unfolding write expect find_entry stack_offset
not (dst ∷ src ∷ []) = do
  dst_e ← find_entry dst
  src_e ← find_entry src
  expect (same_size dst_e.size SizeClass.bool)
  expect (same_size src_e.size SizeClass.bool)
  write (
      col1 "; t%v = !t%v" (Arg.num dst_e.id ∷ Arg.num src_e.id ∷ [])
      ∷ col1 "mov al, %v" (stack_offset src_e.offset ∷ [])
      ∷ col1 "xor al, 1" []
      ∷ col1 "mov %v, al" (stack_offset dst_e.offset ∷ [])
      ∷ [])
not _ = wrong_nargs

unfoldable pub neg : List ℕ → Write (Unit {0})
unfolding write expect find_entry stack_offset
neg (dst ∷ src ∷ []) = do
  dst_e ← find_entry dst
  src_e ← find_entry src
  expect (same_size dst_e.size SizeClass.int)
  expect (same_size src_e.size SizeClass.int)
  write (
      col1 "; t%v = -t%v" (Arg.num dst_e.id ∷ Arg.num src_e.id ∷ [])
      ∷ col1 "mov eax, %v" (stack_offset src_e.offset ∷ [])
      ∷ col1 "neg eax" []
      ∷ col1 "mov %v, eax" (stack_offset dst_e.offset ∷ [])
      ∷ [])
neg _ = wrong_nargs

unfoldable pub bool_op_impl : List ℕ → String → String → Write (Unit {0})
unfolding write expect find_entry stack_offset
bool_op_impl (dst ∷ lhs ∷ rhs ∷ []) op_str instr = do
  dst_e ← find_entry dst
  lhs_e ← find_entry lhs
  rhs_e ← find_entry rhs
  expect (same_size dst_e.size SizeClass.bool)
  expect (same_size lhs_e.size SizeClass.bool)
  expect (same_size rhs_e.size SizeClass.bool)
  write (
      col1 "; t%v = t%v %v t%v."
        (Arg.num dst_e.id ∷ Arg.num lhs_e.id ∷ Arg.text op_str ∷ Arg.num rhs_e.id ∷ [])
      ∷ col1 "mov al, %v" (stack_offset lhs_e.offset ∷ [])
      ∷ col1 "%v al, %v" (Arg.text instr ∷ stack_offset rhs_e.offset ∷ [])
      ∷ col1 "mov %v, al" (stack_offset dst_e.offset ∷ [])
      ∷ [])
bool_op_impl _ op_str instr = wrong_nargs

unfoldable pub extend : List ℕ → Write (Unit {0})
unfolding write find_entry register stack_offset
extend (dst ∷ src ∷ []) = do
  dst_e ← find_entry dst
  src_e ← find_entry src
  let src_sized_reg = register src_e.size "al" "ax" "eax"
  let dst_sized_reg = register dst_e.size "bl" "bx" "ebx"
  let instr = if same_size src_e.size SizeClass.char then "movzx" else "movsx"
  write (
      col1 "; t%v = extend(t%v)" (Arg.num dst ∷ Arg.num src ∷ [])
      ∷ col1 "mov %v, %v" (src_sized_reg ∷ stack_offset src_e.offset ∷ [])
      ∷ col1 "%v %v, %v" (Arg.text instr ∷ dst_sized_reg ∷ src_sized_reg ∷ [])
      ∷ col1 "mov %v, %v" (stack_offset dst_e.offset ∷ dst_sized_reg ∷ [])
      ∷ [])
extend _ = wrong_nargs

unfoldable pub truncate : List ℕ → Write (Unit {0})
unfolding write find_entry register stack_offset
truncate (dst ∷ src ∷ []) = do
  dst_e ← find_entry dst
  src_e ← find_entry src
  let src_sized_reg = register src_e.size "al" "ax" "eax"
  let dst_sized_reg = register dst_e.size "al" "ax" "eax"
  write (
      col1 "; t%v = truncate(t%v)" (Arg.num dst ∷ Arg.num src ∷ [])
      ∷ col1 "mov %v, %v" (src_sized_reg ∷ stack_offset src_e.offset ∷ [])
      ∷ col1 "mov %v, %v" (stack_offset dst_e.offset ∷ dst_sized_reg ∷ [])
      ∷ [])
truncate _ = wrong_nargs
