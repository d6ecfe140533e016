-- ===== src/Ir/Script.antt =====
-- ir/stream_builder.h: the public operations of the builder, as a sequence of calls that a client makes.
pub mod Draft
mod Gives
mod Primitives
mod Single
pub mod Refines
pub mod Built
pub mod Refusing
pub mod Unassigned
pub mod Written
use joosc.Ast.Ids.{TypeId}
use joosc.Base.{PosRange}
use joosc.Common.{ℕ, Bool, Option, List, [], ◌∷◌}
use joosc.Common.States.{◌>>=◌, ◌>>◌, pure}
use joosc.Ir.Builder
use joosc.Ir.Builder.{Mem, Build}
use joosc.Ir.Builder.Operations
use joosc.Ir.Builder.Calls
use joosc.Ir.Size.{SizeClass}

-- A call, and the destruction of the last copy of a `Mem`.
pub data Call : Type 0 where
  alloc_heap : TypeId → Call
  alloc_array : TypeId → Mem → PosRange → Call
  alloc_temp alloc_local : SizeClass → Call
  alloc_dummy alloc_label : Call
  alloc_params : List SizeClass → Call
  dealloc_mem : Mem → Call
  promote_to_int : Mem → Call
  emit_label jmp : ℕ → Call
  jmp_if : ℕ → Mem → Call
  const_numeric : Mem → ℕ → Call
  const_bool : Mem → Bool → Call
  const_null : Mem → Call
  const_string : Mem → ℕ → Call
  mov mov_addr not neg extend truncate : Mem → Mem → Call
  mov_to_addr : Mem → Mem → PosRange → Call
  field_deref field_addr : Mem → Mem → ℕ → ℕ → PosRange → Call
  array_deref array_addr : Mem → Mem → Mem → SizeClass → PosRange → Call
  add sub mul lt leq gt geq eq neq and or xor : Mem → Mem → Mem → Call
  div modulo : Mem → Mem → Mem → PosRange → Call
  instance_of : Mem → Mem → TypeId → TypeId → Call
  cast_exception_if_false : Mem → PosRange → Call
  check_array_store : Mem → Mem → PosRange → Call
  static_call : Mem → ℕ → ℕ → List Mem → PosRange → Call
  dynamic_call : Mem → Mem → ℕ → List Mem → PosRange → Call
  ret : Option Mem → Call

abbrev pub forget : {A : Type 0} → Build A → Build (Unit {0})
forget m = m >>= λ _. pure tt

unfoldable pub perform : Call → Build (Unit {0})
unfolding Builder.alloc_dummy Builder.alloc_label Builder.alloc_local Builder.alloc_params
    Builder.alloc_temp Builder.dealloc_mem Calls.cast_exception_if_false Calls.check_array_store
    Calls.dynamic_call Calls.instance_of Calls.promote_to_int Calls.ret Calls.static_call
    Operations.add Operations.alloc_array Operations.alloc_heap Operations.and Operations.array_addr
    Operations.array_deref Operations.const_bool Operations.const_null Operations.const_numeric
    Operations.const_string Operations.div Operations.emit_label Operations.eq Operations.extend
    Operations.field_addr Operations.field_deref Operations.geq Operations.gt Operations.jmp
    Operations.jmp_if Operations.leq Operations.lt Operations.modulo Operations.mov
    Operations.mov_addr Operations.mov_to_addr Operations.mul Operations.neg Operations.neq
    Operations.not Operations.or Operations.sub Operations.truncate Operations.xor
perform (Call.alloc_heap t) = forget (Operations.alloc_heap t)
perform (Call.alloc_array t len pos) = forget (Operations.alloc_array t len pos)
perform (Call.alloc_temp size) = forget (Builder.alloc_temp size)
perform (Call.alloc_local size) = forget (Builder.alloc_local size)
perform Call.alloc_dummy = forget Builder.alloc_dummy
perform Call.alloc_label = forget Builder.alloc_label
perform (Call.alloc_params sizes) = forget (Builder.alloc_params sizes)
perform (Call.dealloc_mem m) = Builder.dealloc_mem m.id
perform (Call.promote_to_int src) = forget (Calls.promote_to_int src)
perform (Call.emit_label l) = Operations.emit_label l
perform (Call.jmp l) = Operations.jmp l
perform (Call.jmp_if l c) = Operations.jmp_if l c
perform (Call.const_numeric m v) = Operations.const_numeric m v
perform (Call.const_bool m v) = Operations.const_bool m v
perform (Call.const_null m) = Operations.const_null m
perform (Call.const_string m i) = Operations.const_string m i
perform (Call.mov d s) = Operations.mov d s
perform (Call.mov_addr d s) = Operations.mov_addr d s
perform (Call.not d s) = Operations.not d s
perform (Call.neg d s) = Operations.neg d s
perform (Call.extend d s) = Operations.extend d s
perform (Call.truncate d s) = Operations.truncate d s
perform (Call.mov_to_addr d s pos) = Operations.mov_to_addr d s pos
perform (Call.field_deref d s t f pos) = Operations.field_deref d s t f pos
perform (Call.field_addr d s t f pos) = Operations.field_addr d s t f pos
perform (Call.array_deref d a i size pos) = Operations.array_deref d a i size pos
perform (Call.array_addr d a i size pos) = Operations.array_addr d a i size pos
perform (Call.add d l r) = Operations.add d l r
perform (Call.sub d l r) = Operations.sub d l r
perform (Call.mul d l r) = Operations.mul d l r
perform (Call.lt d l r) = Operations.lt d l r
perform (Call.leq d l r) = Operations.leq d l r
perform (Call.gt d l r) = Operations.gt d l r
perform (Call.geq d l r) = Operations.geq d l r
perform (Call.eq d l r) = Operations.eq d l r
perform (Call.neq d l r) = Operations.neq d l r
perform (Call.and d l r) = Operations.and d l r
perform (Call.or d l r) = Operations.or d l r
perform (Call.xor d l r) = Operations.xor d l r
perform (Call.div d l r pos) = Operations.div d l r pos
perform (Call.modulo d l r pos) = Operations.modulo d l r pos
perform (Call.instance_of d s dst_type src_type) = Calls.instance_of d s dst_type src_type
perform (Call.cast_exception_if_false c pos) = Calls.cast_exception_if_false c pos
perform (Call.check_array_store a e pos) = Calls.check_array_store a e pos
perform (Call.static_call d t m args pos) = Calls.static_call d t m args pos
perform (Call.dynamic_call d this m args pos) = Calls.dynamic_call d this m args pos
perform (Call.ret v) = Calls.ret v

unfoldable pub performs : List Call → Build (Unit {0})
unfolding perform
performs [] = pure tt
performs (c ∷ cs) = do perform c; performs cs
