-- ===== src/Ir/Builder/Operations.antt =====
-- ir/stream_builder.cpp: the operations that emit an instruction. An `i32` is the number that its bits
-- write.
use joosc.Ast.Ids.{TypeId}
use joosc.Base.{PosRange}
use joosc.Common.{ℕ, ◌+◌, ◌-◌, ◌^◌, Bool, true, false, List, [], ◌∷◌, ltb, if◌then◌else◌}
use joosc.Common.States.{◌>>=◌, ◌>>◌, pure, check_that}
use joosc.Ir.Builder.{
  Mem, Build, same_size, append_op, assert_assigned, set_assigned, alloc_temp, dealloc_mem,
}
use joosc.Ir.Size.{SizeClass, class_index}
use joosc.Ir.Stream.{OpType}

-- `(u64)(i64)val` of an `i32`.
abbrev pub sign_extended : ℕ → ℕ
sign_extended val = if ltb val (2 ^ 31) then val else val + (2 ^ 64 - 2 ^ 32)

abbrev pub is_array : TypeId → Bool
is_array t = ltb 0 t.ndims

-- What most operations do: read `srcs`, append, and write `dst`.
unfoldable pub emit : Mem → List Mem → OpType → List ℕ → Build (Unit {0})
unfolding assert_assigned append_op set_assigned
emit dst srcs type args = do assert_assigned srcs; append_op type args; set_assigned (dst ∷ [])

unfoldable pub emit_unread : Mem → OpType → List ℕ → Build (Unit {0})
unfolding append_op set_assigned
emit_unread dst type args = do append_op type args; set_assigned (dst ∷ [])

unfoldable pub emit_unwritten : List Mem → OpType → List ℕ → Build (Unit {0})
unfolding assert_assigned append_op
emit_unwritten srcs type args = do assert_assigned srcs; append_op type args

unfoldable pub alloc_heap : TypeId → Build Mem
unfolding emit_unread alloc_temp
alloc_heap tid = do
  check_that (λ b. if is_array tid then false else true)
  tmp ← alloc_temp SizeClass.ptr
  emit_unread tmp OpType.alloc_heap (tmp.id ∷ tid.base ∷ [])
  pure tmp

unfoldable pub alloc_array : TypeId → Mem → PosRange → Build Mem
unfolding emit_unread assert_assigned alloc_temp
alloc_array elemtype len pos = do
  assert_assigned (len ∷ [])
  tmp ← alloc_temp SizeClass.ptr
  emit_unread tmp OpType.alloc_array (tmp.id ∷ elemtype.base ∷ len.id ∷ pos.begin ∷ [])
  pure tmp

unfoldable pub emit_label : ℕ → Build (Unit {0})
unfolding append_op
emit_label lid = append_op OpType.label (lid ∷ [])

unfoldable pub const : Mem → ℕ → Build (Unit {0})
unfolding emit_unread
const mem val = emit_unread mem OpType.const (mem.id ∷ class_index mem.size ∷ val ∷ [])

unfoldable pub const_numeric : Mem → ℕ → Build (Unit {0})
unfolding const
const_numeric mem val = const mem (sign_extended val)

unfoldable pub const_bool : Mem → Bool → Build (Unit {0})
unfolding const
const_bool mem v = do
  check_that (λ b. same_size mem.size SizeClass.bool)
  const mem (if v then 1 else 0)

unfoldable pub const_null : Mem → Build (Unit {0})
unfolding const
const_null mem = do check_that (λ b. same_size mem.size SizeClass.ptr); const mem 0

unfoldable pub const_string : Mem → ℕ → Build (Unit {0})
unfolding emit_unread
const_string dst id = do
  check_that (λ b. same_size dst.size SizeClass.ptr)
  emit_unread dst OpType.const_str (dst.id ∷ id ∷ [])

unfoldable pub mov : Mem → Mem → Build (Unit {0})
unfolding emit
mov dst src = emit dst (src ∷ []) OpType.mov (dst.id ∷ src.id ∷ [])

unfoldable pub mov_addr : Mem → Mem → Build (Unit {0})
unfolding emit
mov_addr dst src = emit dst (src ∷ []) OpType.mov_addr (dst.id ∷ src.id ∷ [])

unfoldable pub mov_to_addr : Mem → Mem → PosRange → Build (Unit {0})
unfolding emit_unwritten
mov_to_addr dst src pos =
    emit_unwritten (src ∷ []) OpType.mov_to_addr (dst.id ∷ src.id ∷ pos.begin ∷ [])

unfoldable pub field_deref : Mem → Mem → ℕ → ℕ → PosRange → Build (Unit {0})
unfolding emit
field_deref dst src tid fid pos =
    emit dst (src ∷ []) OpType.field_deref (dst.id ∷ src.id ∷ tid ∷ fid ∷ pos.begin ∷ [])

unfoldable pub field_addr : Mem → Mem → ℕ → ℕ → PosRange → Build (Unit {0})
unfolding emit
field_addr dst src tid fid pos =
    emit dst (src ∷ []) OpType.field_addr (dst.id ∷ src.id ∷ tid ∷ fid ∷ pos.begin ∷ [])

unfoldable pub array_deref : Mem → Mem → Mem → SizeClass → PosRange → Build (Unit {0})
unfolding emit
array_deref dst array index elemsize pos =
    emit dst (array ∷ index ∷ []) OpType.array_deref
      (dst.id ∷ array.id ∷ index.id ∷ class_index elemsize ∷ pos.begin ∷ [])

unfoldable pub array_addr : Mem → Mem → Mem → SizeClass → PosRange → Build (Unit {0})
unfolding emit
array_addr dst array index elemsize pos =
    emit dst (array ∷ index ∷ []) OpType.array_addr
      (dst.id ∷ array.id ∷ index.id ∷ class_index elemsize ∷ pos.begin ∷ [])

unfoldable pub bin_op : Mem → Mem → Mem → OpType → Build (Unit {0})
unfolding emit
bin_op dst lhs rhs op = emit dst (lhs ∷ rhs ∷ []) op (dst.id ∷ lhs.id ∷ rhs.id ∷ [])

unfoldable pub un_op : Mem → Mem → OpType → Build (Unit {0})
unfolding emit
un_op dst src op = emit dst (src ∷ []) op (dst.id ∷ src.id ∷ [])

unfoldable pub add : Mem → Mem → Mem → Build (Unit {0})
unfolding bin_op
add dst lhs rhs = bin_op dst lhs rhs OpType.add

unfoldable pub sub : Mem → Mem → Mem → Build (Unit {0})
unfolding bin_op
sub dst lhs rhs = bin_op dst lhs rhs OpType.sub

unfoldable pub mul : Mem → Mem → Mem → Build (Unit {0})
unfolding bin_op
mul dst lhs rhs = bin_op dst lhs rhs OpType.mul

unfoldable pub div : Mem → Mem → Mem → PosRange → Build (Unit {0})
unfolding emit
div dst lhs rhs pos =
    emit dst (lhs ∷ rhs ∷ []) OpType.div (dst.id ∷ lhs.id ∷ rhs.id ∷ pos.begin ∷ [])

unfoldable pub modulo : Mem → Mem → Mem → PosRange → Build (Unit {0})
unfolding emit
modulo dst lhs rhs pos =
    emit dst (lhs ∷ rhs ∷ []) OpType.modulo (dst.id ∷ lhs.id ∷ rhs.id ∷ pos.begin ∷ [])

unfoldable pub jmp : ℕ → Build (Unit {0})
unfolding append_op
jmp lid = append_op OpType.jmp (lid ∷ [])

unfoldable pub jmp_if : ℕ → Mem → Build (Unit {0})
unfolding emit_unwritten
jmp_if lid cond = emit_unwritten (cond ∷ []) OpType.jmp_if (lid ∷ cond.id ∷ [])

unfoldable pub lt : Mem → Mem → Mem → Build (Unit {0})
unfolding bin_op
lt dst lhs rhs = bin_op dst lhs rhs OpType.lt

unfoldable pub leq : Mem → Mem → Mem → Build (Unit {0})
unfolding bin_op
leq dst lhs rhs = bin_op dst lhs rhs OpType.leq

unfoldable pub gt : Mem → Mem → Mem → Build (Unit {0})
unfolding lt
gt dst lhs rhs = lt dst rhs lhs

unfoldable pub geq : Mem → Mem → Mem → Build (Unit {0})
unfolding leq
geq dst lhs rhs = leq dst rhs lhs

unfoldable pub eq : Mem → Mem → Mem → Build (Unit {0})
unfolding bin_op
eq dst lhs rhs = bin_op dst lhs rhs OpType.eq

unfoldable pub not : Mem → Mem → Build (Unit {0})
unfolding un_op
not dst src = un_op dst src OpType.not

-- The temporary goes out of scope at the end of the body.
unfoldable pub neq : Mem → Mem → Mem → Build (Unit {0})
unfolding alloc_temp eq not dealloc_mem
neq dst lhs rhs = do
  tmp ← alloc_temp SizeClass.bool
  eq tmp lhs rhs
  not dst tmp
  dealloc_mem tmp.id

unfoldable pub neg : Mem → Mem → Build (Unit {0})
unfolding un_op
neg dst src = un_op dst src OpType.neg

unfoldable pub and : Mem → Mem → Mem → Build (Unit {0})
unfolding bin_op
and dst lhs rhs = bin_op dst lhs rhs OpType.and

unfoldable pub or : Mem → Mem → Mem → Build (Unit {0})
unfolding bin_op
or dst lhs rhs = bin_op dst lhs rhs OpType.or

unfoldable pub xor : Mem → Mem → Mem → Build (Unit {0})
unfolding bin_op
xor dst lhs rhs = bin_op dst lhs rhs OpType.xor

unfoldable pub extend : Mem → Mem → Build (Unit {0})
unfolding un_op
extend dst src = un_op dst src OpType.extend

unfoldable pub truncate : Mem → Mem → Build (Unit {0})
unfolding un_op
truncate dst src = un_op dst src OpType.truncate
