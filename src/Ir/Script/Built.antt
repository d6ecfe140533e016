-- ===== src/Ir/Script/Built.antt =====
-- ir/stream_builder.cpp, from the first call to `Build`, and what backend/i386/writer.cpp reads.
use joosc.Common.{
  ℕ, suc, ◌≡◌, refl, sym, ap, ap₂, ◌∙◌, subst, Bool, true, false, none, some, List, [], ◌∷◌, ◌++◌,
  length, leb, ◌==◌, if◌then◌else◌, ok, ok_injective, All, All-append, ==_iff,
}
use joosc.Common.States.{◌>>◌, gets, check_that, >>=-eq-ok, check_that-eq-ok}
use joosc.Ir.Builder.{Builder, Build, Mem, new_builder, same_size, build}
use joosc.Ir.Script.{Call, performs}
use joosc.Ir.Script.Draft.{
  Draft, Instruction, Within, new_draft, listing, one, add_code, allocated, deallocation, promotion,
  draft_step, draft_steps, ids, readable,
}
use joosc.Ir.Script.Refines.{performs-Does}
use joosc.Ir.Size.{SizeClass}
use joosc.Ir.Stream.{OpType, Stream}

abbrev pub Readable : List Instruction → Type 0
Readable = All (λ i. readable i ≡ true)

one_more :
    (is : List Instruction) (i : Instruction)
    → readable i ≡ true
    → Readable is
    → Readable (is ++ i ∷ [])
one_more is i e h = All-append _ _ _ h (e, tt)

deallocation_more :
    (params id : ℕ) (is : List Instruction) → Readable is → Readable (is ++ deallocation params id)
unfolding readable
deallocation_more params id is h =
    elim (leb id params)
      as (λ b. Readable (is ++ (if b then [] else one OpType.dealloc_mem (id ∷ [])))) [
        | true ↦ All-append _ is [] h tt
        | false ↦ one_more _ _ refl h
      ]

promotion_more : (src : Mem) (d : Draft) → Readable d.code → Readable (promotion src d).code
unfolding readable
promotion_more src d h =
    elim (same_size src.size SizeClass.int)
      as (λ b.
        Readable
          (if b
            then d
            else add_code (one OpType.extend (d.next_mem ∷ src.id ∷ []))
                (allocated SizeClass.int true d)).code) [
                  | true ↦ h
                  | false ↦ one_more _ _ refl (one_more _ _ refl h)
                ]

same_length : (args : List Mem) → length (ids args) ≡ length args
same_length [] = refl
same_length (m ∷ ms) = ap suc (same_length ms)

length-ids : (args : List Mem) → length (ids args) == length args ≡ true
length-ids args = (==_iff _ _).1 (same_length args)

pub step-Readable : (c : Call) (d : Draft) → Readable d.code → Readable (draft_step c d).code
unfolding draft_step readable
step-Readable (Call.alloc_heap t) d h = one_more _ _ refl (one_more _ _ refl h)
step-Readable (Call.alloc_array t len pos) d h = one_more _ _ refl (one_more _ _ refl h)
step-Readable (Call.alloc_temp size) d h = one_more _ _ refl h
step-Readable (Call.alloc_local size) d h = one_more _ _ refl h
step-Readable Call.alloc_dummy d h = h
step-Readable Call.alloc_label d h = h
step-Readable (Call.alloc_params sizes) d h = h
step-Readable (Call.dealloc_mem m) d h = deallocation_more d.params m.id _ h
step-Readable (Call.promote_to_int src) d h = promotion_more src d h
step-Readable (Call.emit_label l) d h = one_more _ _ refl h
step-Readable (Call.jmp l) d h = one_more _ _ refl h
step-Readable (Call.jmp_if l c) d h = one_more _ _ refl h
step-Readable (Call.const_numeric m v) d h = one_more _ _ refl h
step-Readable (Call.const_bool m v) d h = one_more _ _ refl h
step-Readable (Call.const_null m) d h = one_more _ _ refl h
step-Readable (Call.const_string m i) d h = one_more _ _ refl h
step-Readable (Call.mov x s) d h = one_more _ _ refl h
step-Readable (Call.mov_addr x s) d h = one_more _ _ refl h
step-Readable (Call.not x s) d h = one_more _ _ refl h
step-Readable (Call.neg x s) d h = one_more _ _ refl h
step-Readable (Call.extend x s) d h = one_more _ _ refl h
step-Readable (Call.truncate x s) d h = one_more _ _ refl h
step-Readable (Call.mov_to_addr x s pos) d h = one_more _ _ refl h
step-Readable (Call.field_deref x s t f pos) d h = one_more _ _ refl h
step-Readable (Call.field_addr x s t f pos) d h = one_more _ _ refl h
step-Readable (Call.array_deref x a i size pos) d h = one_more _ _ refl h
step-Readable (Call.array_addr x a i size pos) d h = one_more _ _ refl h
step-Readable (Call.add x l r) d h = one_more _ _ refl h
step-Readable (Call.sub x l r) d h = one_more _ _ refl h
step-Readable (Call.mul x l r) d h = one_more _ _ refl h
step-Readable (Call.lt x l r) d h = one_more _ _ refl h
step-Readable (Call.leq x l r) d h = one_more _ _ refl h
step-Readable (Call.gt x l r) d h = one_more _ _ refl h
step-Readable (Call.geq x l r) d h = one_more _ _ refl h
step-Readable (Call.eq x l r) d h = one_more _ _ refl h
step-Readable (Call.neq x l r) d h =
    deallocation_more d.params d.next_mem _
      (one_more _ _ refl (one_more _ _ refl (one_more _ _ refl h)))
step-Readable (Call.and x l r) d h = one_more _ _ refl h
step-Readable (Call.or x l r) d h = one_more _ _ refl h
step-Readable (Call.xor x l r) d h = one_more _ _ refl h
step-Readable (Call.div x l r pos) d h = one_more _ _ refl h
step-Readable (Call.modulo x l r pos) d h = one_more _ _ refl h
step-Readable (Call.instance_of x s to from) d h = one_more _ _ refl h
step-Readable (Call.cast_exception_if_false c pos) d h = one_more _ _ refl h
step-Readable (Call.check_array_store a e pos) d h = one_more _ _ refl h
step-Readable (Call.static_call x t m args pos) d h = one_more _ _ (length-ids args) h
step-Readable (Call.dynamic_call x this m args pos) d h = one_more _ _ (length-ids args) h
step-Readable (Call.ret none) d h = one_more _ _ refl h
step-Readable (Call.ret (some v)) d h = one_more _ _ refl h

steps-Readable : (cs : List Call) (d : Draft) → Readable d.code → Readable (draft_steps cs d).code
unfolding draft_steps
steps-Readable [] d h = h
steps-Readable (c ∷ cs) d h = steps-Readable cs (draft_step c d) (step-Readable c d h)

-- The stream that is built from a builder.
unfoldable pub stream_of : List Call → Bool → ℕ → ℕ → Build Stream
unfolding performs build
stream_of cs is_entry_point tid mid = do performs cs; build is_entry_point tid mid

built :
    (e : Bool) (tid mid : ℕ) (s s' : Builder) (stream : Stream)
    → build e tid mid s ≡ ok (stream, s')
    → (s.args ≡ stream.args) × (s.ops ≡ stream.ops)
unfolding build gets
built e tid mid s s' stream h =
    let (u, s1, passed, rest) =
      >>=-eq-ok (check_that (λ b. b.params_initialized)) _ s s' stream h in
    let (_, same) = check_that-eq-ok _ s s1 u passed in
    let made = ok_injective rest in
    (ap (λ b. b.args) same ∙ ap (λ p. p.0.args) made, ap (λ b. b.ops) same ∙ ap (λ p. p.0.ops) made)

-- The operations of a built stream, each with its part of the arguments, are the instructions that the
-- calls promise one after another, and every part lies inside the arguments. The calls are any calls on
-- a new builder that succeed, `Build` the last.
pub build-refines :
    (cs : List Call) (e : Bool) (tid mid : ℕ) (stream : Stream) (s' : Builder)
    → stream_of cs e tid mid new_builder ≡ ok (stream, s')
    → All (Within stream.args) stream.ops
      × (listing stream.args stream.ops ≡ (draft_steps cs new_draft).code)
unfolding stream_of
build-refines cs e tid mid stream s' h =
    let (u, s1, ran, rest) =
      >>=-eq-ok (performs cs) (λ _. build e tid mid) new_builder s' stream h in
    let (fits, same, _) = (performs-Does cs).gives new_builder s1 u tt ran in
    let (args_same, ops_same) = built e tid mid s1 s' stream rest in
    (
      subst (λ ops. All (Within stream.args) ops) ops_same
          (subst (λ args. All (Within args) s1.ops) args_same fits),
      ap₂ listing (sym args_same) (sym ops_same) ∙ ap (λ d. d.code) same,
    )

-- Every operation of a built stream has the number of arguments that the writer demands of its kind,
-- for any calls on a new builder that succeed, `Build` the last.
pub build-Readable :
    (cs : List Call) (e : Bool) (tid mid : ℕ) (stream : Stream) (s' : Builder)
    → stream_of cs e tid mid new_builder ≡ ok (stream, s')
    → Readable (listing stream.args stream.ops)
build-Readable cs e tid mid stream s' h =
    rw ((build-refines cs e tid mid stream s' h).1) (steps-Readable cs new_draft tt)
