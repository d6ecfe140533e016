-- ===== src/Ir/Script/Draft.antt =====
-- What the operations of ir/stream_builder.cpp promise to append, without the vector of arguments: an
-- instruction stands with its own arguments, as backend/i386/writer.cpp reads it.
use joosc.Common.{
  ℕ, zero, suc, ◌≤◌, Bool, true, false, Option, none, some, List, [], ◌∷◌, ◌++◌, map, length, slice,
  leb, ◌==◌, if◌then◌else◌,
}
use joosc.Ir.Builder.{Builder, Mem, first_mem_id, u64, bool_arg, same_size}
use joosc.Ir.Builder.Operations.{sign_extended, is_array}
use joosc.Ir.Script.{Call}
use joosc.Ir.Size.{SizeClass, class_index}
use joosc.Ir.Stream.{OpType, Op}

abbrev pub Instruction : Type 0
Instruction = OpType × List ℕ

-- The operation as the writer gets it, with its part of the arguments.
abbrev pub reading : List ℕ → Op → Instruction
reading args op = (op.type, slice args op.begin op.end)

abbrev pub listing : List ℕ → List Op → List Instruction
listing args ops = map (reading args) ops

-- The operation names arguments that are there.
abbrev pub Within : List ℕ → Op → Type 0
Within args op = op.begin ≤ op.end × op.end ≤ length args

-- The builder without the vector of arguments and the set of unassigned ids.
pub record Draft : Type 0 where
  pub next_mem : ℕ
  pub params : ℕ
  pub code : List Instruction

abbrev pub draft : Builder → Draft
draft b = record { next_mem = b.next_mem; params = length b.params; code = listing b.args b.ops }

abbrev pub new_draft : Draft
new_draft = record { next_mem = first_mem_id; params = 0; code = [] }

abbrev pub add_code : List Instruction → Draft → Draft
add_code is d = record d { code = d.code ++ is }

abbrev pub one : OpType → List ℕ → List Instruction
one type args = (type, args) ∷ []

abbrev pub allocated : SizeClass → Bool → Draft → Draft
allocated size immutable d = record d {
  next_mem = u64 (suc d.next_mem);
  code = d.code ++ one OpType.alloc_mem (d.next_mem ∷ class_index size ∷ bool_arg immutable ∷ []);
}

-- Nothing for a parameter.
abbrev pub deallocation : ℕ → ℕ → List Instruction
deallocation params id = if leb id params then [] else one OpType.dealloc_mem (id ∷ [])

abbrev pub bumped : ℕ → ℕ → ℕ
bumped zero m = m
bumped (suc n) m = bumped n (u64 (suc m))

abbrev pub promotion : Mem → Draft → Draft
promotion src d =
    if same_size src.size SizeClass.int
    then d
    else add_code (one OpType.extend (d.next_mem ∷ src.id ∷ [])) (allocated SizeClass.int true d)

abbrev pub three : OpType → ℕ → ℕ → ℕ → Draft → Draft
three type d l r = add_code (one type (d ∷ l ∷ r ∷ []))

abbrev pub two : OpType → ℕ → ℕ → Draft → Draft
two type d s = add_code (one type (d ∷ s ∷ []))

abbrev pub constant : Mem → ℕ → Draft → Draft
constant m v = add_code (one OpType.const (m.id ∷ class_index m.size ∷ v ∷ []))

abbrev pub returned : Option Mem → List ℕ
returned none = []
returned (some m) = m.id ∷ []

abbrev pub ids : List Mem → List ℕ
ids [] = []
ids (m ∷ ms) = m.id ∷ ids ms

abbrev pub differing : ℕ → ℕ → ℕ → Draft → Draft
differing dst l r d = add_code (deallocation d.params d.next_mem) (
    two OpType.not dst d.next_mem
      (three OpType.eq d.next_mem l r (allocated SizeClass.bool true d)))

unfoldable pub draft_step : Call → Draft → Draft
draft_step (Call.alloc_heap t) d =
    two OpType.alloc_heap d.next_mem t.base (allocated SizeClass.ptr true d)
draft_step (Call.alloc_array t len pos) d =
    add_code (one OpType.alloc_array (d.next_mem ∷ t.base ∷ len.id ∷ pos.begin ∷ []))
      (allocated SizeClass.ptr true d)
draft_step (Call.alloc_temp size) d = allocated size true d
draft_step (Call.alloc_local size) d = allocated size false d
draft_step Call.alloc_dummy d = d
draft_step Call.alloc_label d = d
draft_step (Call.alloc_params sizes) d = record d {
  next_mem = bumped (length sizes) d.next_mem;
  params = length sizes;
}
draft_step (Call.dealloc_mem m) d = add_code (deallocation d.params m.id) d
draft_step (Call.promote_to_int src) d = promotion src d
draft_step (Call.emit_label l) d = add_code (one OpType.label (l ∷ [])) d
draft_step (Call.jmp l) d = add_code (one OpType.jmp (l ∷ [])) d
draft_step (Call.jmp_if l c) d = two OpType.jmp_if l c.id d
draft_step (Call.const_numeric m v) d = constant m (sign_extended v) d
draft_step (Call.const_bool m v) d = constant m (if v then 1 else 0) d
draft_step (Call.const_null m) d = constant m 0 d
draft_step (Call.const_string m i) d = two OpType.const_str m.id i d
draft_step (Call.mov x s) d = two OpType.mov x.id s.id d
draft_step (Call.mov_addr x s) d = two OpType.mov_addr x.id s.id d
draft_step (Call.not x s) d = two OpType.not x.id s.id d
draft_step (Call.neg x s) d = two OpType.neg x.id s.id d
draft_step (Call.extend x s) d = two OpType.extend x.id s.id d
draft_step (Call.truncate x s) d = two OpType.truncate x.id s.id d
draft_step (Call.mov_to_addr x s pos) d = three OpType.mov_to_addr x.id s.id pos.begin d
draft_step (Call.field_deref x s t f pos) d =
    add_code (one OpType.field_deref (x.id ∷ s.id ∷ t ∷ f ∷ pos.begin ∷ [])) d
draft_step (Call.field_addr x s t f pos) d =
    add_code (one OpType.field_addr (x.id ∷ s.id ∷ t ∷ f ∷ pos.begin ∷ [])) d
draft_step (Call.array_deref x a i size pos) d =
    add_code (one OpType.array_deref (x.id ∷ a.id ∷ i.id ∷ class_index size ∷ pos.begin ∷ [])) d
draft_step (Call.array_addr x a i size pos) d =
    add_code (one OpType.array_addr (x.id ∷ a.id ∷ i.id ∷ class_index size ∷ pos.begin ∷ [])) d
draft_step (Call.add x l r) d = three OpType.add x.id l.id r.id d
draft_step (Call.sub x l r) d = three OpType.sub x.id l.id r.id d
draft_step (Call.mul x l r) d = three OpType.mul x.id l.id r.id d
draft_step (Call.lt x l r) d = three OpType.lt x.id l.id r.id d
draft_step (Call.leq x l r) d = three OpType.leq x.id l.id r.id d
draft_step (Call.gt x l r) d = three OpType.lt x.id r.id l.id d
draft_step (Call.geq x l r) d = three OpType.leq x.id r.id l.id d
draft_step (Call.eq x l r) d = three OpType.eq x.id l.id r.id d
draft_step (Call.neq x l r) d = differing x.id l.id r.id d
draft_step (Call.and x l r) d = three OpType.and x.id l.id r.id d
draft_step (Call.or x l r) d = three OpType.or x.id l.id r.id d
draft_step (Call.xor x l r) d = three OpType.xor x.id l.id r.id d
draft_step (Call.div x l r pos) d =
    add_code (one OpType.div (x.id ∷ l.id ∷ r.id ∷ pos.begin ∷ [])) d
draft_step (Call.modulo x l r pos) d =
    add_code (one OpType.modulo (x.id ∷ l.id ∷ r.id ∷ pos.begin ∷ [])) d
draft_step (Call.instance_of x s to from) d =
    add_code
      (one OpType.instance_of (
        x.id ∷ s.id ∷ to.base ∷ bool_arg (is_array to) ∷ from.base ∷ bool_arg (is_array from) ∷ []))
      d
draft_step (Call.cast_exception_if_false c pos) d =
    two OpType.cast_exception_if_false c.id pos.begin d
draft_step (Call.check_array_store a e pos) d = three OpType.check_array_store a.id e.id pos.begin d
draft_step (Call.static_call x t m args pos) d =
    add_code (one OpType.static_call (x.id ∷ t ∷ m ∷ pos.begin ∷ length args ∷ ids args)) d
draft_step (Call.dynamic_call x this m args pos) d =
    add_code (one OpType.dynamic_call (x.id ∷ this.id ∷ m ∷ pos.begin ∷ length args ∷ ids args)) d
draft_step (Call.ret v) d = add_code (one OpType.ret (returned v)) d

unfoldable pub draft_steps : List Call → Draft → Draft
unfolding draft_step
draft_steps [] d = d
draft_steps (c ∷ cs) d = draft_steps cs (draft_step c d)

-- The number of arguments that the writer demands.
abbrev pub has : ℕ → List ℕ → Bool
has n args = length args == n

abbrev pub called : List ℕ → Bool
called (dst ∷ type ∷ method ∷ pos ∷ count ∷ args) = length args == count
called _ = false

unfoldable pub readable : Instruction → Bool
readable (OpType.alloc_mem, args) = has 3 args
readable (OpType.dealloc_mem, args) = has 1 args
readable (OpType.alloc_heap, args) = has 2 args
readable (OpType.alloc_array, args) = has 4 args
readable (OpType.label, args) = has 1 args
readable (OpType.const, args) = has 3 args
readable (OpType.const_str, args) = has 2 args
readable (OpType.mov, args) = has 2 args
readable (OpType.mov_addr, args) = has 2 args
readable (OpType.mov_to_addr, args) = has 3 args
readable (OpType.field_deref, args) = has 5 args
readable (OpType.field_addr, args) = has 5 args
readable (OpType.array_deref, args) = has 5 args
readable (OpType.array_addr, args) = has 5 args
readable (OpType.add, args) = has 3 args
readable (OpType.sub, args) = has 3 args
readable (OpType.mul, args) = has 3 args
readable (OpType.div, args) = has 4 args
readable (OpType.modulo, args) = has 4 args
readable (OpType.jmp, args) = has 1 args
readable (OpType.jmp_if, args) = has 2 args
readable (OpType.lt, args) = has 3 args
readable (OpType.leq, args) = has 3 args
readable (OpType.eq, args) = has 3 args
readable (OpType.not, args) = has 2 args
readable (OpType.neg, args) = has 2 args
readable (OpType.and, args) = has 3 args
readable (OpType.or, args) = has 3 args
readable (OpType.xor, args) = has 3 args
readable (OpType.extend, args) = has 2 args
readable (OpType.truncate, args) = has 2 args
readable (OpType.instance_of, args) = has 6 args
readable (OpType.cast_exception_if_false, args) = has 2 args
readable (OpType.check_array_store, args) = has 3 args
readable (OpType.static_call, args) = called args
readable (OpType.dynamic_call, args) = called args
readable (OpType.ret, args) = leb (length args) 1
