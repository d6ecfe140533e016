-- ===== src/Ir/Builder/Calls.antt =====
-- ir/stream_builder.cpp: promotion, run-time checks, calls and returns.
use joosc.Ast.Ids.{TypeId}
use joosc.Base.{PosRange}
use joosc.Common.{ℕ, true, false, Option, none, some, List, [], ◌∷◌, if◌then◌else◌, length}
use joosc.Common.States.{◌>>=◌, ◌>>◌, pure, check_that, gets}
use joosc.Ir.Builder.{
  Mem, Build, is_valid, bool_arg, same_size, push_args, push_op, append_op, assert_assigned,
  set_assigned, alloc_temp,
}
use joosc.Ir.Builder.Operations.{is_array, emit_unwritten, extend}
use joosc.Ir.Size.{SizeClass}
use joosc.Ir.Stream.{OpType}

-- The temporary that an operand is extended into, which the caller owns.
unfoldable pub promoted : Mem → Build Mem
unfolding alloc_temp extend
promoted src = do tmp ← alloc_temp SizeClass.int; extend tmp src; pure tmp

unfoldable pub promote_to_int : Mem → Build Mem
unfolding promoted
promote_to_int src = do
  check_that (λ b. if same_size src.size SizeClass.ptr then false else true)
  if same_size src.size SizeClass.int then pure src else promoted src

unfoldable pub instance_of : Mem → Mem → TypeId → TypeId → Build (Unit {0})
unfolding push_args push_op assert_assigned set_assigned
instance_of dst src static_dst_type static_src_type = do
  assert_assigned (src ∷ [])
  begin ← gets (λ b. length b.args)
  push_args (
      dst.id
      ∷ src.id
      ∷ static_dst_type.base
      ∷ bool_arg (is_array static_dst_type)
      ∷ static_src_type.base
      ∷ bool_arg (is_array static_src_type)
      ∷ [])
  push_op OpType.instance_of begin
  set_assigned (dst ∷ [])

unfoldable pub cast_exception_if_false : Mem → PosRange → Build (Unit {0})
unfolding emit_unwritten
cast_exception_if_false cond pos =
    emit_unwritten (cond ∷ []) OpType.cast_exception_if_false (cond.id ∷ pos.begin ∷ [])

unfoldable pub check_array_store : Mem → Mem → PosRange → Build (Unit {0})
unfolding emit_unwritten
check_array_store array_rvalue elem pos =
    emit_unwritten (array_rvalue ∷ elem ∷ []) OpType.check_array_store
      (array_rvalue.id ∷ elem.id ∷ pos.begin ∷ [])

-- The loop of a call over its arguments.
unfoldable pub push_mems : List Mem → Build (Unit {0})
unfolding assert_assigned push_args
push_mems [] = pure tt
push_mems (val ∷ vals) = do assert_assigned (val ∷ []); push_args (val.id ∷ []); push_mems vals

unfoldable pub set_result : Mem → Build (Unit {0})
unfolding is_valid set_assigned
set_result dst = if is_valid dst then set_assigned (dst ∷ []) else pure tt

unfoldable pub static_call : Mem → ℕ → ℕ → List Mem → PosRange → Build (Unit {0})
unfolding push_args push_mems push_op set_result
static_call dst tid mid args pos = do
  begin ← gets (λ b. length b.args)
  push_args (dst.id ∷ tid ∷ mid ∷ pos.begin ∷ length args ∷ [])
  push_mems args
  push_op OpType.static_call begin
  set_result dst

unfoldable pub dynamic_call : Mem → Mem → ℕ → List Mem → PosRange → Build (Unit {0})
unfolding assert_assigned push_args push_mems push_op set_result
dynamic_call dst this_ptr mid args pos = do
  assert_assigned (this_ptr ∷ [])
  begin ← gets (λ b. length b.args)
  push_args (dst.id ∷ this_ptr.id ∷ mid ∷ pos.begin ∷ length args ∷ [])
  push_mems args
  push_op OpType.dynamic_call begin
  set_result dst

unfoldable pub ret : Option Mem → Build (Unit {0})
unfolding emit_unwritten assert_assigned append_op
ret none = append_op OpType.ret []
ret (some value) = emit_unwritten (value ∷ []) OpType.ret (value.id ∷ [])
