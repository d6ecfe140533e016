-- ===== src/Ir/Script/Written.antt =====
-- ir/stream_builder.cpp: operations that write a memory again.
use joosc.Ast.Ids.{TypeId}
use joosc.Common.{
  ℕ, ◌≡◌, ap, ap₂, ◌∙◌, subst, ◌&&◌, Bool, true, false, Option, none, some, List, [], ◌∷◌,
  if◌then◌else◌, length, thrown, Exn,
}
use joosc.Common.States.{feed, ◌>>=◌, pure, check_that, modify, gets}
use joosc.Ir.Builder.{
  Builder, Build, Mem, is_valid, contains, erase, bool_arg, push_args, push_op, set_assigned,
}
use joosc.Ir.Builder.Operations
use joosc.Ir.Builder.Calls
use joosc.Ir.Script.{Call, perform}
use joosc.Ir.Script.Refusing.{
  Waits, Refuses, Passes, past, both_pass, pure-Passes, gets-Passes, check_that-Passes,
  modify-Passes, push_args-Passes, append_op-Passes, assert_assigned-Passes, checked,
}
use joosc.Ir.Size.{class_index}
use joosc.Ir.Stream.{OpType}

-- The memory that a client gives a call to write to. `neq`, which allocates before it writes, is left out.
unfoldable pub writes : Call → Option Mem
writes (Call.const_numeric x v) = some x
writes (Call.const_bool x v) = some x
writes (Call.const_null x) = some x
writes (Call.const_string x s) = some x
writes (Call.mov x s) = some x
writes (Call.mov_addr x s) = some x
writes (Call.not x s) = some x
writes (Call.neg x s) = some x
writes (Call.extend x s) = some x
writes (Call.truncate x s) = some x
writes (Call.field_deref x s t f pos) = some x
writes (Call.field_addr x s t f pos) = some x
writes (Call.array_deref x a j size pos) = some x
writes (Call.array_addr x a j size pos) = some x
writes (Call.add x l r) = some x
writes (Call.sub x l r) = some x
writes (Call.mul x l r) = some x
writes (Call.lt x l r) = some x
writes (Call.leq x l r) = some x
writes (Call.eq x l r) = some x
writes (Call.and x l r) = some x
writes (Call.or x l r) = some x
writes (Call.xor x l r) = some x
writes (Call.gt x l r) = some x
writes (Call.geq x l r) = some x
writes (Call.div x l r pos) = some x
writes (Call.modulo x l r pos) = some x
writes (Call.instance_of x s to from) = some x
writes (Call.static_call x t m args pos) = some x
writes (Call.dynamic_call x this m args pos) = some x
writes _ = none

gets-Refuses :
    {A B : Type 0} (w : Bool) (i : ℕ) (get : Builder → A) (k : A → Build B)
    → ((s : Builder) → Waits w i s → k (get s) s ≡ thrown Exn.check_failed)
    → Refuses w i (gets get >>= k)
unfolding gets ◌>>=◌
gets-Refuses w i get k refuses = record { refuses = refuses }

-- An immutable memory that was written before is not written again.
set_assigned-written : (m : Mem) → m.immutable ≡ true → Refuses false m.id (set_assigned (m ∷ []))
unfolding set_assigned check_that modify ◌>>=◌
set_assigned-written m immutable = past (check_that-Passes false m.id _) (λ _.
    gets-Refuses false m.id _ _ (λ s done.
      ap₂
        (λ i c.
          feed (λ _. pure tt)
            (checked (if i && (if c then false else true) then false else true)
              (record s { unassigned = erase s.unassigned m.id })))
        immutable done))

emitted :
    (dst : Mem) (srcs : List Mem) (type : OpType) (args : List ℕ)
    → dst.immutable ≡ true
    → Refuses false dst.id (Operations.emit dst srcs type args)
unfolding Operations.emit
emitted dst srcs type args immutable =
    past (assert_assigned-Passes false dst.id srcs) (λ _.
      past (append_op-Passes false dst.id type args) (λ _. set_assigned-written dst immutable))

unread :
    (dst : Mem) (type : OpType) (args : List ℕ)
    → dst.immutable ≡ true
    → Refuses false dst.id (Operations.emit_unread dst type args)
unfolding Operations.emit_unread
unread dst type args immutable =
    past (append_op-Passes false dst.id type args) (λ _. set_assigned-written dst immutable)

push_op-Passes : (w : Bool) (i : ℕ) (type : OpType) (begin : ℕ) → Passes w i (push_op type begin)
unfolding push_op
push_op-Passes w i type begin = modify-Passes w i _ (λ s waits. waits)

push_mems-Passes : (w : Bool) (i : ℕ) (mems : List Mem) → Passes w i (Calls.push_mems mems)
unfolding Calls.push_mems
push_mems-Passes w i [] = pure-Passes w i tt
push_mems-Passes w i (mem ∷ mems) =
    both_pass (assert_assigned-Passes w i (mem ∷ []))
      (λ _. both_pass (push_args-Passes w i (mem.id ∷ [])) (λ _. push_mems-Passes w i mems))

set_result-written :
    (dst : Mem)
    → is_valid dst ≡ true
    → dst.immutable ≡ true
    → Refuses false dst.id (Calls.set_result dst)
unfolding Calls.set_result
set_result-written dst valid immutable = record {
  refuses = λ s done.
      ap (λ b. (if b then set_assigned (dst ∷ []) else pure tt) s) valid
      ∙ (set_assigned-written dst immutable).refuses s done;
}

called :
    (type : OpType) (dst : Mem) (head : List ℕ) (mems : List Mem)
    → is_valid dst ≡ true
    → dst.immutable ≡ true
    → Refuses false dst.id (
        gets (λ b. length b.args) >>= λ begin. push_args head >>= λ _.
        Calls.push_mems mems >>= λ _. push_op type begin >>= λ _. Calls.set_result dst)
called type dst head mems valid immutable = past (gets-Passes false dst.id _) (λ begin.
    past (push_args-Passes false dst.id head) (λ _. past (push_mems-Passes false dst.id mems) (λ _.
      past (push_op-Passes false dst.id type begin) (λ _. set_result-written dst valid immutable))))

instance_of-written :
    (x s : Mem) (to from : TypeId)
    → x.immutable ≡ true
    → Refuses false x.id (Calls.instance_of x s to from)
unfolding Calls.instance_of
instance_of-written x s to from immutable = past (assert_assigned-Passes false x.id (s ∷ [])) (λ _.
    past (gets-Passes false x.id _) (λ begin.
      past
        (push_args-Passes false x.id (
          x.id
          ∷ s.id
          ∷ to.base
          ∷ bool_arg (Operations.is_array to)
          ∷ from.base
          ∷ bool_arg (Operations.is_array from)
          ∷ []))
        (λ _.
          past (push_op-Passes false x.id OpType.instance_of begin)
            (λ _. set_assigned-written x immutable))))

abbrev Again : Option Mem → Call → Type 0
Again none c = Unit
Again (some x) c = is_valid x ≡ true → x.immutable ≡ true → Refuses false x.id (perform c)

perform-Again : (c : Call) → Again (writes c) c
unfolding perform writes Operations.const Operations.const_numeric Operations.const_bool
    Operations.const_null Operations.const_string Operations.mov Operations.mov_addr Operations.not
    Operations.neg Operations.extend Operations.truncate Operations.field_deref
    Operations.field_addr Operations.array_deref Operations.array_addr Operations.add Operations.sub
    Operations.mul Operations.lt Operations.leq Operations.gt Operations.geq Operations.eq
    Operations.and Operations.or Operations.xor Operations.div Operations.modulo Operations.bin_op
    Operations.un_op Calls.static_call Calls.dynamic_call
perform-Again (Call.const_numeric x v) = λ valid immutable.
    unread x _ (x.id ∷ class_index x.size ∷ Operations.sign_extended v ∷ []) immutable
perform-Again (Call.const_bool x v) = λ valid immutable.
    past (check_that-Passes false x.id _)
      (λ _. unread x _ (x.id ∷ class_index x.size ∷ (if v then 1 else 0) ∷ []) immutable)
perform-Again (Call.const_null x) = λ valid immutable.
    past (check_that-Passes false x.id _)
      (λ _. unread x _ (x.id ∷ class_index x.size ∷ 0 ∷ []) immutable)
perform-Again (Call.const_string x s) = λ valid immutable.
    past (check_that-Passes false x.id _) (λ _. unread x _ (x.id ∷ s ∷ []) immutable)
perform-Again (Call.mov x s) = λ valid immutable. emitted x (s ∷ []) _ (x.id ∷ s.id ∷ []) immutable
perform-Again (Call.mov_addr x s) =
    λ valid immutable. emitted x (s ∷ []) _ (x.id ∷ s.id ∷ []) immutable
perform-Again (Call.not x s) = λ valid immutable. emitted x (s ∷ []) _ (x.id ∷ s.id ∷ []) immutable
perform-Again (Call.neg x s) = λ valid immutable. emitted x (s ∷ []) _ (x.id ∷ s.id ∷ []) immutable
perform-Again (Call.extend x s) =
    λ valid immutable. emitted x (s ∷ []) _ (x.id ∷ s.id ∷ []) immutable
perform-Again (Call.truncate x s) =
    λ valid immutable. emitted x (s ∷ []) _ (x.id ∷ s.id ∷ []) immutable
perform-Again (Call.field_deref x s t f pos) =
    λ valid immutable. emitted x (s ∷ []) _ (x.id ∷ s.id ∷ t ∷ f ∷ pos.begin ∷ []) immutable
perform-Again (Call.field_addr x s t f pos) =
    λ valid immutable. emitted x (s ∷ []) _ (x.id ∷ s.id ∷ t ∷ f ∷ pos.begin ∷ []) immutable
perform-Again (Call.array_deref x a j size pos) = λ valid immutable.
    emitted x (a ∷ j ∷ []) _ (x.id ∷ a.id ∷ j.id ∷ class_index size ∷ pos.begin ∷ []) immutable
perform-Again (Call.array_addr x a j size pos) = λ valid immutable.
    emitted x (a ∷ j ∷ []) _ (x.id ∷ a.id ∷ j.id ∷ class_index size ∷ pos.begin ∷ []) immutable
perform-Again (Call.add x l r) =
    λ valid immutable. emitted x (l ∷ r ∷ []) _ (x.id ∷ l.id ∷ r.id ∷ []) immutable
perform-Again (Call.sub x l r) =
    λ valid immutable. emitted x (l ∷ r ∷ []) _ (x.id ∷ l.id ∷ r.id ∷ []) immutable
perform-Again (Call.mul x l r) =
    λ valid immutable. emitted x (l ∷ r ∷ []) _ (x.id ∷ l.id ∷ r.id ∷ []) immutable
perform-Again (Call.lt x l r) =
    λ valid immutable. emitted x (l ∷ r ∷ []) _ (x.id ∷ l.id ∷ r.id ∷ []) immutable
perform-Again (Call.leq x l r) =
    λ valid immutable. emitted x (l ∷ r ∷ []) _ (x.id ∷ l.id ∷ r.id ∷ []) immutable
perform-Again (Call.eq x l r) =
    λ valid immutable. emitted x (l ∷ r ∷ []) _ (x.id ∷ l.id ∷ r.id ∷ []) immutable
perform-Again (Call.and x l r) =
    λ valid immutable. emitted x (l ∷ r ∷ []) _ (x.id ∷ l.id ∷ r.id ∷ []) immutable
perform-Again (Call.or x l r) =
    λ valid immutable. emitted x (l ∷ r ∷ []) _ (x.id ∷ l.id ∷ r.id ∷ []) immutable
perform-Again (Call.xor x l r) =
    λ valid immutable. emitted x (l ∷ r ∷ []) _ (x.id ∷ l.id ∷ r.id ∷ []) immutable
perform-Again (Call.gt x l r) =
    λ valid immutable. emitted x (r ∷ l ∷ []) _ (x.id ∷ r.id ∷ l.id ∷ []) immutable
perform-Again (Call.geq x l r) =
    λ valid immutable. emitted x (r ∷ l ∷ []) _ (x.id ∷ r.id ∷ l.id ∷ []) immutable
perform-Again (Call.div x l r pos) =
    λ valid immutable. emitted x (l ∷ r ∷ []) _ (x.id ∷ l.id ∷ r.id ∷ pos.begin ∷ []) immutable
perform-Again (Call.modulo x l r pos) =
    λ valid immutable. emitted x (l ∷ r ∷ []) _ (x.id ∷ l.id ∷ r.id ∷ pos.begin ∷ []) immutable
perform-Again (Call.instance_of x s to from) =
    λ valid immutable. instance_of-written x s to from immutable
perform-Again (Call.static_call x t m args pos) =
    λ valid immutable. called _ x (x.id ∷ t ∷ m ∷ pos.begin ∷ length args ∷ []) args valid immutable
perform-Again (Call.dynamic_call x this m args pos) = λ valid immutable.
    past (assert_assigned-Passes false x.id (this ∷ []))
      (λ _. called _ x (x.id ∷ this.id ∷ m ∷ pos.begin ∷ length args ∷ []) args valid immutable)
perform-Again (Call.alloc_heap t) = tt
perform-Again (Call.alloc_array t len pos) = tt
perform-Again (Call.alloc_temp size) = tt
perform-Again (Call.alloc_local size) = tt
perform-Again Call.alloc_dummy = tt
perform-Again Call.alloc_label = tt
perform-Again (Call.alloc_params sizes) = tt
perform-Again (Call.dealloc_mem m) = tt
perform-Again (Call.promote_to_int src) = tt
perform-Again (Call.emit_label l) = tt
perform-Again (Call.jmp l) = tt
perform-Again (Call.jmp_if l c) = tt
perform-Again (Call.mov_to_addr x s pos) = tt
perform-Again (Call.neq x l r) = tt
perform-Again (Call.cast_exception_if_false c pos) = tt
perform-Again (Call.check_array_store a e pos) = tt
perform-Again (Call.ret v) = tt

-- A call other than `neq` that is to write an immutable memory fails a check where the memory is valid and
-- no longer among the unassigned, that is where it was written before.
pub perform-written_twice :
    (c : Call) (m : Mem) (b : Builder)
    → writes c ≡ some m
    → is_valid m ≡ true
    → m.immutable ≡ true
    → contains b.unassigned m.id ≡ false
    → perform c b ≡ thrown Exn.check_failed
perform-written_twice c m b writes_m valid immutable done =
    let again : Again (some m) c = subst (λ o. Again o c) writes_m (perform-Again c) in
    (again valid immutable).refuses b done
