-- ===== src/Ir/Script/Refines.antt =====
-- ir/stream_builder.cpp: each public operation against the draft, and sequences of them.
use joosc.Common.{true, false, none, some, List, [], ◌∷◌, length}
use joosc.Ir.Builder.{alloc_temp, alloc_local, alloc_dummy}
use joosc.Ir.Builder.Operations
use joosc.Ir.Builder.Calls
use joosc.Ir.Script.{Call, perform, performs}
use joosc.Ir.Script.Draft.{draft_step, draft_steps}
use joosc.Ir.Script.Gives.{Does, >>=-Gives, pure-Gives, check_that-Gives, append_op-Does}
use joosc.Ir.Script.Primitives.{
  assert_assigned-Does, emit-Does, emit_unread-Does, emit_unwritten-Does, alloc_mem-Gives,
  dealloc_mem-Does, pushes_mems-Does,
}
use joosc.Ir.Script.Single.{
  forget-Does, bin_op-Does, un_op-Does, const-Does, neq-Does, alloc_heap-Does, alloc_array-Does,
  set_result-Does, promote-Does, alloc_params-Does, alloc_label-Does, instance_of-Does,
}

pub perform-Does : (c : Call) → Does (perform c) (draft_step c)
unfolding perform draft_step alloc_temp alloc_local alloc_dummy Operations.jmp Operations.emit_label
    Operations.jmp_if Operations.const_numeric Operations.const_bool Operations.const_null
    Operations.const_string Operations.mov Operations.mov_addr Operations.not Operations.neg
    Operations.extend Operations.truncate Operations.mov_to_addr Operations.field_deref
    Operations.field_addr Operations.array_deref Operations.array_addr Operations.add Operations.sub
    Operations.mul Operations.lt Operations.leq Operations.gt Operations.geq Operations.eq
    Operations.and Operations.or Operations.xor Operations.div Operations.modulo
    Calls.cast_exception_if_false Calls.check_array_store Calls.static_call Calls.dynamic_call
    Calls.ret
perform-Does (Call.alloc_heap t) = alloc_heap-Does t
perform-Does (Call.alloc_array t len pos) = alloc_array-Does t len pos
perform-Does (Call.alloc_temp size) = forget-Does (alloc_mem-Gives size true)
perform-Does (Call.alloc_local size) = forget-Does (alloc_mem-Gives size false)
perform-Does Call.alloc_dummy = forget-Does pure-Gives
perform-Does Call.alloc_label = alloc_label-Does
perform-Does (Call.alloc_params sizes) = alloc_params-Does sizes
perform-Does (Call.dealloc_mem m) = dealloc_mem-Does m.id
perform-Does (Call.promote_to_int src) = promote-Does src
perform-Does (Call.emit_label l) = append_op-Does _ (l ∷ [])
perform-Does (Call.jmp l) = append_op-Does _ (l ∷ [])
perform-Does (Call.jmp_if l c) = emit_unwritten-Does (c ∷ []) _ _
perform-Does (Call.const_numeric m v) = const-Does m _
perform-Does (Call.const_bool m v) = >>=-Gives (check_that-Gives _) (λ _. const-Does m _)
perform-Does (Call.const_null m) = >>=-Gives (check_that-Gives _) (λ _. const-Does m _)
perform-Does (Call.const_string m i) =
    >>=-Gives (check_that-Gives _) (λ _. emit_unread-Does m _ (m.id ∷ i ∷ []))
perform-Does (Call.mov x s) = emit-Does x (s ∷ []) _ _
perform-Does (Call.mov_addr x s) = emit-Does x (s ∷ []) _ _
perform-Does (Call.not x s) = un_op-Does x s _
perform-Does (Call.neg x s) = un_op-Does x s _
perform-Does (Call.extend x s) = un_op-Does x s _
perform-Does (Call.truncate x s) = un_op-Does x s _
perform-Does (Call.mov_to_addr x s pos) = emit_unwritten-Does (s ∷ []) _ _
perform-Does (Call.field_deref x s t f pos) = emit-Does x (s ∷ []) _ _
perform-Does (Call.field_addr x s t f pos) = emit-Does x (s ∷ []) _ _
perform-Does (Call.array_deref x a i size pos) = emit-Does x (a ∷ i ∷ []) _ _
perform-Does (Call.array_addr x a i size pos) = emit-Does x (a ∷ i ∷ []) _ _
perform-Does (Call.add x l r) = bin_op-Does x l r _
perform-Does (Call.sub x l r) = bin_op-Does x l r _
perform-Does (Call.mul x l r) = bin_op-Does x l r _
perform-Does (Call.lt x l r) = bin_op-Does x l r _
perform-Does (Call.leq x l r) = bin_op-Does x l r _
perform-Does (Call.gt x l r) = bin_op-Does x r l _
perform-Does (Call.geq x l r) = bin_op-Does x r l _
perform-Does (Call.eq x l r) = bin_op-Does x l r _
perform-Does (Call.neq x l r) = neq-Does x l r
perform-Does (Call.and x l r) = bin_op-Does x l r _
perform-Does (Call.or x l r) = bin_op-Does x l r _
perform-Does (Call.xor x l r) = bin_op-Does x l r _
perform-Does (Call.div x l r pos) = emit-Does x (l ∷ r ∷ []) _ _
perform-Does (Call.modulo x l r pos) = emit-Does x (l ∷ r ∷ []) _ _
perform-Does (Call.instance_of x s to from) = instance_of-Does x s to from
perform-Does (Call.cast_exception_if_false c pos) = emit_unwritten-Does (c ∷ []) _ _
perform-Does (Call.check_array_store a e pos) = emit_unwritten-Does (a ∷ e ∷ []) _ _
perform-Does (Call.static_call x t m args pos) =
    pushes_mems-Does _ (x.id ∷ t ∷ m ∷ pos.begin ∷ length args ∷ []) args (set_result-Does x)
perform-Does (Call.dynamic_call x this m args pos) =
    >>=-Gives (assert_assigned-Does (this ∷ [])) (λ _.
      pushes_mems-Does _ (x.id ∷ this.id ∷ m ∷ pos.begin ∷ length args ∷ []) args
        (set_result-Does x))
perform-Does (Call.ret none) = append_op-Does _ []
perform-Does (Call.ret (some v)) = emit_unwritten-Does (v ∷ []) _ _

pub performs-Does : (cs : List Call) → Does (performs cs) (draft_steps cs)
unfolding performs draft_steps
performs-Does [] = pure-Gives
performs-Does (c ∷ cs) = >>=-Gives (perform-Does c) (λ _. performs-Does cs)
