-- ===== src/Backend/Writer/Func.antt =====
-- backend/i386/writer.cpp, `Writer::WriteFunc`: the operations of a method one after another.
use joosc.Backend.Asm.{Line}
use joosc.Backend.Writer.{
  Context, Write, FuncWriter, StackFrame, write_prologue, write_epilogue, setup_params,
}
use joosc.Backend.Writer.Arithmetic
use joosc.Backend.Writer.Calls
use joosc.Backend.Writer.Memory
use joosc.Common.{ℕ, true, false, List, [], ◌∷◌, slice}
use joosc.Common.Integers.{pos}
use joosc.Common.States.{◌>>◌, pure}
use joosc.Ir.Stream.{OpType, Op, Stream}

unfoldable pub write_op : Context → OpType → List ℕ → Write (Unit {0})
unfolding Memory.alloc_heap Memory.alloc_array Memory.alloc_mem Memory.dealloc_mem Memory.label
    Memory.const Memory.const_str Memory.mov_impl Memory.mov_to_addr Memory.field_impl
    Memory.array_access_impl Arithmetic.add_sub Arithmetic.mul Arithmetic.div_mod Arithmetic.jmp
    Arithmetic.jmp_if Arithmetic.rel_impl Arithmetic.eq Arithmetic.not Arithmetic.neg
    Arithmetic.bool_op_impl Arithmetic.extend Arithmetic.truncate Calls.instance_of
    Calls.cast_exception_if_false Calls.check_array_store Calls.static_call Calls.dynamic_call
    Calls.ret
write_op c OpType.alloc_heap args = Memory.alloc_heap c args
write_op c OpType.alloc_array args = Memory.alloc_array c args
write_op c OpType.alloc_mem args = Memory.alloc_mem args
write_op c OpType.dealloc_mem args = Memory.dealloc_mem args
write_op c OpType.label args = Memory.label args
write_op c OpType.const args = Memory.const args
write_op c OpType.const_str args = Memory.const_str args
write_op c OpType.mov args = Memory.mov_impl args false
write_op c OpType.mov_addr args = Memory.mov_impl args true
write_op c OpType.mov_to_addr args = Memory.mov_to_addr c args
write_op c OpType.field_deref args = Memory.field_impl c args false
write_op c OpType.field_addr args = Memory.field_impl c args true
write_op c OpType.array_deref args = Memory.array_access_impl c args false
write_op c OpType.array_addr args = Memory.array_access_impl c args true
write_op c OpType.add args = Arithmetic.add_sub args true
write_op c OpType.sub args = Arithmetic.add_sub args false
write_op c OpType.mul args = Arithmetic.mul args
write_op c OpType.div args = Arithmetic.div_mod c args true
write_op c OpType.modulo args = Arithmetic.div_mod c args false
write_op c OpType.jmp args = Arithmetic.jmp args
write_op c OpType.jmp_if args = Arithmetic.jmp_if args
write_op c OpType.lt args = Arithmetic.rel_impl args "<" "setl"
write_op c OpType.leq args = Arithmetic.rel_impl args "<=" "setle"
write_op c OpType.eq args = Arithmetic.eq args
write_op c OpType.not args = Arithmetic.not args
write_op c OpType.neg args = Arithmetic.neg args
write_op c OpType.and args = Arithmetic.bool_op_impl args "&" "and"
write_op c OpType.or args = Arithmetic.bool_op_impl args "|" "or"
write_op c OpType.xor args = Arithmetic.bool_op_impl args "^" "xor"
write_op c OpType.extend args = Arithmetic.extend args
write_op c OpType.truncate args = Arithmetic.truncate args
write_op c OpType.instance_of args = Calls.instance_of c args
write_op c OpType.cast_exception_if_false args = Calls.cast_exception_if_false c args
write_op c OpType.check_array_store args = Calls.check_array_store c args
write_op c OpType.static_call args = Calls.static_call c args
write_op c OpType.dynamic_call args = Calls.dynamic_call c args
write_op c OpType.ret args = Calls.ret args

-- The loop of `WriteFunc`.
unfoldable pub write_ops : Context → List ℕ → List Op → Write (Unit {0})
unfolding write_op
write_ops c args [] = pure tt
write_ops c args (op ∷ ops) = do
  write_op c op.type (slice args op.begin op.end)
  write_ops c args ops

-- A new `FuncWriter`, on the frames and the output of the methods before.
abbrev pub new_writer : List StackFrame → List Line → FuncWriter
new_writer stack_frames out = record {
  stack_map = [];
  cur_offset = pos 0;
  stack = [];
  exceptions = [];
  local_label_counter = 0;
  stack_frames = stack_frames;
  out = out;
}

unfoldable pub write_func : Context → Stream → Write (Unit {0})
unfolding write_prologue setup_params write_ops write_epilogue
write_func c stream = do
  write_prologue stream
  setup_params stream
  write_ops c stream.args stream.ops
  write_epilogue
