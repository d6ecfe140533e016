-- ===== src/Ir/Script/Unassigned.antt =====
-- ir/stream_builder.cpp: operations on a memory that nothing was written to.
use joosc.Common.{
  ℕ, ◌≡◌, ◌≢◌, ◌==◌, ==_iff, Bool-cases, arith, inl, inr, Bool, true, false, none, some, List, [],
  ◌∷◌, if◌then◌else◌, length, thrown, Exn,
}
use joosc.Base.{PosRange}
use joosc.Common.States.{◌>>=◌, pure, gets}
use joosc.Ir.Builder.{Builder, Build, Mem, contains, same_size, push_args, alloc_temp}
use joosc.Ir.Builder.Operations
use joosc.Ir.Builder.Calls
use joosc.Ir.Script.{Call, perform, forget}
use joosc.Ir.Script.Refusing.{
  Names, Refuses, stops, past, gets-Passes, check_that-Passes, push_args-Passes, alloc_mem-Passes,
  assert_assigned-Passes, assert_assigned-Refuses,
}
use joosc.Ir.Size.{SizeClass}

-- The memories whose value a call reads. `MovToAddr` reads both of its memories: the destination holds
-- the address to write to.
unfoldable pub reads : Call → List Mem
reads (Call.alloc_array t len pos) = len ∷ []
reads (Call.promote_to_int src) = if same_size src.size SizeClass.int then [] else src ∷ []
reads (Call.jmp_if l c) = c ∷ []
reads (Call.mov_to_addr x s pos) = x ∷ s ∷ []
reads (Call.instance_of x s to from) = s ∷ []
reads (Call.cast_exception_if_false c pos) = c ∷ []
reads (Call.check_array_store a e pos) = a ∷ e ∷ []
reads (Call.static_call x t m args pos) = args
reads (Call.dynamic_call x this m args pos) = this ∷ args
reads (Call.ret (some v)) = v ∷ []
reads (Call.mov x s) = s ∷ []
reads (Call.mov_addr x s) = s ∷ []
reads (Call.not x s) = s ∷ []
reads (Call.neg x s) = s ∷ []
reads (Call.extend x s) = s ∷ []
reads (Call.truncate x s) = s ∷ []
reads (Call.field_deref x s t f pos) = s ∷ []
reads (Call.field_addr x s t f pos) = s ∷ []
reads (Call.array_deref x a j size pos) = a ∷ j ∷ []
reads (Call.array_addr x a j size pos) = a ∷ j ∷ []
reads (Call.add x l r) = l ∷ r ∷ []
reads (Call.sub x l r) = l ∷ r ∷ []
reads (Call.mul x l r) = l ∷ r ∷ []
reads (Call.lt x l r) = l ∷ r ∷ []
reads (Call.leq x l r) = l ∷ r ∷ []
reads (Call.eq x l r) = l ∷ r ∷ []
reads (Call.neq x l r) = l ∷ r ∷ []
reads (Call.and x l r) = l ∷ r ∷ []
reads (Call.or x l r) = l ∷ r ∷ []
reads (Call.xor x l r) = l ∷ r ∷ []
reads (Call.gt x l r) = r ∷ l ∷ []
reads (Call.geq x l r) = r ∷ l ∷ []
reads (Call.div x l r pos) = l ∷ r ∷ []
reads (Call.modulo x l r pos) = l ∷ r ∷ []
reads _ = []

-- The memory `i` is the address that a call writes through, and is not its source: the one reading that
-- the code does not check.
pub data WritesThrough (i : ℕ) : Call → Type 0 where
  mov_to_addr :
      {x s : Mem} {pos : PosRange}
      → x.id ≡ i
      → s.id ≢ i
      → WritesThrough i (Call.mov_to_addr x s pos)

push_mems-Refuses : {i : ℕ} (mems : List Mem) → Names i mems → Refuses true i (Calls.push_mems mems)
unfolding Calls.push_mems
push_mems-Refuses [] named = elim named [ ]
push_mems-Refuses (mem ∷ mems) (Names.here same) =
    stops _ (assert_assigned-Refuses (mem ∷ []) (Names.here same))
push_mems-Refuses {i} (mem ∷ mems) (Names.there named) =
    past (assert_assigned-Passes true i (mem ∷ []))
      (λ _. past (push_args-Passes true i (mem.id ∷ [])) (λ _. push_mems-Refuses mems named))

call-Refuses :
    (i : ℕ) (head : List ℕ) (mems : List Mem) (k : ℕ → Build (Unit {0}))
    → Names i mems
    → Refuses true i (
        gets (λ b. length b.args) >>= λ begin.
        push_args head >>= λ _. Calls.push_mems mems >>= λ _. k begin)
call-Refuses i head mems k named = past (gets-Passes true i _) (λ begin.
    past (push_args-Passes true i head) (λ _. stops (λ _. k begin) (push_mems-Refuses mems named)))

neq-Refuses : (i : ℕ) (x l r : Mem) → Names i (l ∷ r ∷ []) → Refuses true i (Operations.neq x l r)
unfolding Operations.neq alloc_temp Operations.emit Operations.eq Operations.bin_op
neq-Refuses i x l r named =
    past (alloc_mem-Passes i SizeClass.bool true)
      (λ tmp. stops _ (stops _ (assert_assigned-Refuses (l ∷ r ∷ []) named)))

promoted-Refuses :
    (i : ℕ) (src : Mem) (b : Bool)
    → Names i (if b then [] else src ∷ [])
    → Refuses true i (if b then pure src else Calls.promoted src)
unfolding Calls.promoted alloc_temp Operations.emit Operations.extend Operations.un_op
promoted-Refuses i src true named = elim named [ ]
promoted-Refuses i src false named =
    past (alloc_mem-Passes i SizeClass.int true)
      (λ tmp. stops _ (stops _ (assert_assigned-Refuses (src ∷ []) named)))

promote-Refuses :
    (i : ℕ) (src : Mem)
    → Names i (if same_size src.size SizeClass.int then [] else src ∷ [])
    → Refuses true i (forget (Calls.promote_to_int src))
unfolding Calls.promote_to_int
promote-Refuses i src named = stops _ (
    past (check_that-Passes true i _)
      (λ _. promoted-Refuses i src (same_size src.size SizeClass.int) named))

source_named :
    (x s : Mem) (pos : PosRange) (i : ℕ)
    → Names i (x ∷ s ∷ [])
    → ¬ (WritesThrough i (Call.mov_to_addr x s pos))
    → Names i (s ∷ [])
source_named x s pos i (Names.there named) checked = named
source_named x s pos i (Names.here same) checked = elim (Bool-cases (s.id == i)) [
  | inl source ↦ Names.here ((==_iff s.id i).0 source)
  | inr other ↦ absurd (checked (WritesThrough.mov_to_addr same (λ q. ground arith)))
]

perform-Refuses :
    (c : Call) (i : ℕ) → Names i (reads c) → ¬ (WritesThrough i c) → Refuses true i (perform c)
unfolding perform reads Operations.emit Operations.emit_unwritten Operations.jmp
    Operations.emit_label Operations.jmp_if Operations.const_numeric Operations.const_bool
    Operations.const_null Operations.const_string Operations.mov Operations.mov_addr Operations.not
    Operations.neg Operations.extend Operations.truncate Operations.mov_to_addr
    Operations.field_deref Operations.field_addr Operations.array_deref Operations.array_addr
    Operations.add Operations.sub Operations.mul Operations.lt Operations.leq Operations.gt
    Operations.geq Operations.eq Operations.and Operations.or Operations.xor Operations.div
    Operations.modulo Operations.bin_op Operations.un_op Operations.alloc_array Calls.instance_of
    Calls.cast_exception_if_false Calls.check_array_store Calls.static_call Calls.dynamic_call
    Calls.ret
perform-Refuses (Call.alloc_heap t) i named checked = elim named [ ]
perform-Refuses (Call.alloc_array t len pos) i named checked =
    stops _ (stops _ (assert_assigned-Refuses (len ∷ []) named))
perform-Refuses (Call.alloc_temp size) i named checked = elim named [ ]
perform-Refuses (Call.alloc_local size) i named checked = elim named [ ]
perform-Refuses Call.alloc_dummy i named checked = elim named [ ]
perform-Refuses Call.alloc_label i named checked = elim named [ ]
perform-Refuses (Call.alloc_params sizes) i named checked = elim named [ ]
perform-Refuses (Call.dealloc_mem m) i named checked = elim named [ ]
perform-Refuses (Call.promote_to_int src) i named checked = promote-Refuses i src named
perform-Refuses (Call.emit_label l) i named checked = elim named [ ]
perform-Refuses (Call.jmp l) i named checked = elim named [ ]
perform-Refuses (Call.jmp_if l c) i named checked = stops _ (assert_assigned-Refuses (c ∷ []) named)
perform-Refuses (Call.const_numeric m v) i named checked = elim named [ ]
perform-Refuses (Call.const_bool m v) i named checked = elim named [ ]
perform-Refuses (Call.const_null m) i named checked = elim named [ ]
perform-Refuses (Call.const_string m s) i named checked = elim named [ ]
perform-Refuses (Call.mov x s) i named checked = stops _ (assert_assigned-Refuses (s ∷ []) named)
perform-Refuses (Call.mov_addr x s) i named checked =
    stops _ (assert_assigned-Refuses (s ∷ []) named)
perform-Refuses (Call.not x s) i named checked = stops _ (assert_assigned-Refuses (s ∷ []) named)
perform-Refuses (Call.neg x s) i named checked = stops _ (assert_assigned-Refuses (s ∷ []) named)
perform-Refuses (Call.extend x s) i named checked = stops _ (assert_assigned-Refuses (s ∷ []) named)
perform-Refuses (Call.truncate x s) i named checked =
    stops _ (assert_assigned-Refuses (s ∷ []) named)
perform-Refuses (Call.mov_to_addr x s pos) i named checked =
    stops _ (assert_assigned-Refuses (s ∷ []) (source_named x s pos i named checked))
perform-Refuses (Call.field_deref x s t f pos) i named checked =
    stops _ (assert_assigned-Refuses (s ∷ []) named)
perform-Refuses (Call.field_addr x s t f pos) i named checked =
    stops _ (assert_assigned-Refuses (s ∷ []) named)
perform-Refuses (Call.array_deref x a j size pos) i named checked =
    stops _ (assert_assigned-Refuses (a ∷ j ∷ []) named)
perform-Refuses (Call.array_addr x a j size pos) i named checked =
    stops _ (assert_assigned-Refuses (a ∷ j ∷ []) named)
perform-Refuses (Call.add x l r) i named checked =
    stops _ (assert_assigned-Refuses (l ∷ r ∷ []) named)
perform-Refuses (Call.sub x l r) i named checked =
    stops _ (assert_assigned-Refuses (l ∷ r ∷ []) named)
perform-Refuses (Call.mul x l r) i named checked =
    stops _ (assert_assigned-Refuses (l ∷ r ∷ []) named)
perform-Refuses (Call.lt x l r) i named checked =
    stops _ (assert_assigned-Refuses (l ∷ r ∷ []) named)
perform-Refuses (Call.leq x l r) i named checked =
    stops _ (assert_assigned-Refuses (l ∷ r ∷ []) named)
perform-Refuses (Call.gt x l r) i named checked =
    stops _ (assert_assigned-Refuses (r ∷ l ∷ []) named)
perform-Refuses (Call.geq x l r) i named checked =
    stops _ (assert_assigned-Refuses (r ∷ l ∷ []) named)
perform-Refuses (Call.eq x l r) i named checked =
    stops _ (assert_assigned-Refuses (l ∷ r ∷ []) named)
perform-Refuses (Call.neq x l r) i named checked = neq-Refuses i x l r named
perform-Refuses (Call.and x l r) i named checked =
    stops _ (assert_assigned-Refuses (l ∷ r ∷ []) named)
perform-Refuses (Call.or x l r) i named checked =
    stops _ (assert_assigned-Refuses (l ∷ r ∷ []) named)
perform-Refuses (Call.xor x l r) i named checked =
    stops _ (assert_assigned-Refuses (l ∷ r ∷ []) named)
perform-Refuses (Call.div x l r pos) i named checked =
    stops _ (assert_assigned-Refuses (l ∷ r ∷ []) named)
perform-Refuses (Call.modulo x l r pos) i named checked =
    stops _ (assert_assigned-Refuses (l ∷ r ∷ []) named)
perform-Refuses (Call.instance_of x s to from) i named checked =
    stops _ (assert_assigned-Refuses (s ∷ []) named)
perform-Refuses (Call.cast_exception_if_false c pos) i named checked =
    stops _ (assert_assigned-Refuses (c ∷ []) named)
perform-Refuses (Call.check_array_store a e pos) i named checked =
    stops _ (assert_assigned-Refuses (a ∷ e ∷ []) named)
perform-Refuses (Call.static_call x t m args pos) i named checked =
    call-Refuses i (x.id ∷ t ∷ m ∷ pos.begin ∷ length args ∷ []) args _ named
perform-Refuses (Call.dynamic_call x this m args pos) i (Names.here same) checked =
    stops _ (assert_assigned-Refuses (this ∷ []) (Names.here same))
perform-Refuses (Call.dynamic_call x this m args pos) i (Names.there named) checked =
    past (assert_assigned-Passes true i (this ∷ []))
      (λ _. call-Refuses i (x.id ∷ this.id ∷ m ∷ pos.begin ∷ length args ∷ []) args _ named)
perform-Refuses (Call.ret none) i named checked = elim named [ ]
perform-Refuses (Call.ret (some v)) i named checked =
    stops _ (assert_assigned-Refuses (v ∷ []) named)

-- A call that reads a memory to which nothing was assigned fails a check, whatever the rest of the call is,
-- with one exception: the address that `MovToAddr` writes through is not checked. A deallocation is no
-- reading, and promoting an int reads nothing.
pub perform-unassigned :
    (c : Call) (i : ℕ) (b : Builder)
    → Names i (reads c)
    → ¬ (WritesThrough i c)
    → contains b.unassigned i ≡ true
    → perform c b ≡ thrown Exn.check_failed
perform-unassigned c i b named checked waits = (perform-Refuses c i named checked).refuses b waits
