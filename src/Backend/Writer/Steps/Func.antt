-- ===== src/Backend/Writer/Steps/Func.antt =====
-- backend/i386/writer.cpp, `Writer::WriteFunc`: what each operation of a method does to the references, and
-- to the memories.
use joosc.Backend.Writer.{Context, StackEntry, setup_each, setup_params, entry_line, write_prologue}
use joosc.Backend.Writer.Steps.Arithmetic
use joosc.Backend.Writer.Steps.Calls
use joosc.Backend.Writer.Func.{write_op, write_ops}
use joosc.Backend.Writer.Memory.{alloc_mem, pop_entry, dealloc_mem}
use joosc.Backend.Writer.Steps.Memory
use joosc.Backend.Writer.Refs.{Ref, refs}
use joosc.Backend.Writer.Steps.Sites.{steps_rules}
use joosc.Backend.Writer.Steps.{Plain, Step, memories-Step, plain_bind, pure-Step, gets-Step}
use joosc.Common.{ℕ, suc, Bool, true, false, List, [], ◌∷◌, ◌≡◌, refl, slice}
use joosc.Common.Integers.{ℤ, ◌-ℤ◌}
use joosc.Ir.Size.{SizeClass}
use joosc.Ir.Stream.{OpType, Op, Stream}

ruleset memory_rules = (steps_rules, gets-Step, memories-Step)

alloc_mem-Step : (args : List ℕ) (before : List Ref) → Step false before (alloc_mem args) (λ _. [])
unfolding alloc_mem refs
alloc_mem-Step (memid ∷ size_index ∷ is_immutable ∷ []) before =
    search memory_rules fits 4000 depth 40
alloc_mem-Step _ before = search steps_rules fits 4000 depth 40

pop_entry-Step :
    (stack : List StackEntry) (before : List Ref) → Step false before (pop_entry stack) (λ _. [])
unfolding pop_entry
pop_entry-Step [] before = search memory_rules fits 4000 depth 40
pop_entry-Step (entry ∷ stack) before = search memory_rules fits 4000 depth 40

dealloc_mem-Step :
    (args : List ℕ) (before : List Ref) → Step false before (dealloc_mem args) (λ _. [])
unfolding dealloc_mem refs
dealloc_mem-Step (memid ∷ []) before = search (memory_rules, pop_entry-Step) fits 4000 depth 40
dealloc_mem-Step _ before = search steps_rules fits 4000 depth 40

setup_each-Step :
    (params : List SizeClass) (i : ℕ) (offset : ℤ) (before : List Ref)
    → Step false before (setup_each params i offset) (λ _. [])
unfolding setup_each
setup_each-Step [] i offset before = pure-Step tt false before
setup_each-Step (size ∷ params) i offset before =
    search (memory_rules, setup_each-Step params (suc i) (offset -ℤ 4)) fits 4000 depth 40

pub setup_params-Step :
    (stream : Stream) (before : List Ref) → Step false before (setup_params stream) (λ _. [])
unfolding setup_params
setup_params-Step stream = setup_each-Step stream.params 1 _

refs-entry_line : (b : Bool) → refs (entry_line b) ≡ []
unfolding refs entry_line
refs-entry_line true = refl
refs-entry_line false = refl

pub write_prologue-Step : (stream : Stream) → Plain (write_prologue stream)
unfolding write_prologue refs
write_prologue-Step stream still before = search (steps_rules, refs-entry_line) fits 4000 depth 40

-- The operations that change the memories.
abbrev pub moves_memory : OpType → Bool
moves_memory OpType.alloc_mem = true
moves_memory OpType.dealloc_mem = true
moves_memory _ = false

pub quiet_op-Step :
    (c : Context) (type : OpType) (args : List ℕ)
    → moves_memory type ≡ false
    → Plain (write_op c type args)
unfolding write_op
quiet_op-Step c OpType.alloc_heap args h = Memory.alloc_heap-Step c args
quiet_op-Step c OpType.alloc_array args h = Memory.alloc_array-Step c args
quiet_op-Step c OpType.alloc_mem args h = cc
quiet_op-Step c OpType.dealloc_mem args h = cc
quiet_op-Step c OpType.label args h = Memory.label-Step args
quiet_op-Step c OpType.const args h = Memory.const-Step args
quiet_op-Step c OpType.const_str args h = Memory.const_str-Step args
quiet_op-Step c OpType.mov args h = Memory.mov_impl-Step args false
quiet_op-Step c OpType.mov_addr args h = Memory.mov_impl-Step args true
quiet_op-Step c OpType.mov_to_addr args h = Memory.mov_to_addr-Step c args
quiet_op-Step c OpType.field_deref args h = Memory.field_impl-Step c args false
quiet_op-Step c OpType.field_addr args h = Memory.field_impl-Step c args true
quiet_op-Step c OpType.array_deref args h = Memory.array_access_impl-Step c args false
quiet_op-Step c OpType.array_addr args h = Memory.array_access_impl-Step c args true
quiet_op-Step c OpType.add args h = Arithmetic.add_sub-Step args true
quiet_op-Step c OpType.sub args h = Arithmetic.add_sub-Step args false
quiet_op-Step c OpType.mul args h = Arithmetic.mul-Step args
quiet_op-Step c OpType.div args h = Arithmetic.div_mod-Step c args true
quiet_op-Step c OpType.modulo args h = Arithmetic.div_mod-Step c args false
quiet_op-Step c OpType.jmp args h = Arithmetic.jmp-Step args
quiet_op-Step c OpType.jmp_if args h = Arithmetic.jmp_if-Step args
quiet_op-Step c OpType.lt args h = Arithmetic.rel_impl-Step args "<" "setl"
quiet_op-Step c OpType.leq args h = Arithmetic.rel_impl-Step args "<=" "setle"
quiet_op-Step c OpType.eq args h = Arithmetic.eq-Step args
quiet_op-Step c OpType.not args h = Arithmetic.not-Step args
quiet_op-Step c OpType.neg args h = Arithmetic.neg-Step args
quiet_op-Step c OpType.and args h = Arithmetic.bool_op_impl-Step args "&" "and"
quiet_op-Step c OpType.or args h = Arithmetic.bool_op_impl-Step args "|" "or"
quiet_op-Step c OpType.xor args h = Arithmetic.bool_op_impl-Step args "^" "xor"
quiet_op-Step c OpType.extend args h = Arithmetic.extend-Step args
quiet_op-Step c OpType.truncate args h = Arithmetic.truncate-Step args
quiet_op-Step c OpType.instance_of args h = Calls.instance_of-Step c args
quiet_op-Step c OpType.cast_exception_if_false args h = Calls.cast_exception_if_false-Step c args
quiet_op-Step c OpType.check_array_store args h = Calls.check_array_store-Step c args
quiet_op-Step c OpType.static_call args h = Calls.static_call-Step c args
quiet_op-Step c OpType.dynamic_call args h = Calls.dynamic_call-Step c args
quiet_op-Step c OpType.ret args h = Calls.ret-Step args

pub write_op-Step :
    (c : Context) (type : OpType) (args : List ℕ) (before : List Ref)
    → Step false before (write_op c type args) (λ _. [])
unfolding write_op
write_op-Step c OpType.alloc_mem args before = alloc_mem-Step args before
write_op-Step c OpType.dealloc_mem args before = dealloc_mem-Step args before
write_op-Step c type args before = quiet_op-Step c type args refl false before

pub write_ops-Step :
    (c : Context) (args : List ℕ) (ops : List Op) (before : List Ref)
    → Step false before (write_ops c args ops) (λ _. [])
unfolding write_ops
write_ops-Step c args [] before = pure-Step tt false before
write_ops-Step c args (op ∷ ops) before =
    plain_bind (write_op-Step c op.type (slice args op.begin op.end) before)
      (λ _. write_ops-Step c args ops before)
