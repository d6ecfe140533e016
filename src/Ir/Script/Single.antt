-- ===== src/Ir/Script/Single.antt =====
-- ir/stream_builder.cpp: the operations that allocate, and those that others are made of.
use joosc.Ast.Ids.{TypeId}
use joosc.Base.{PosRange}
use joosc.Common.{ℕ, suc, ◌≡◌, refl, ◌∙◌, Bool, true, false, List, [], ◌∷◌, length, if◌then◌else◌}
use joosc.Common.States.{◌>>=◌, pure, gets, modify}
use joosc.Ir.Builder.{
  Build, Mem, is_valid, same_size, bool_arg, alloc_temp, alloc_label, alloc_each, alloc_params, u64,
}
use joosc.Ir.Builder.Operations
use joosc.Ir.Builder.Calls
use joosc.Ir.Script.{Call, forget}
use joosc.Ir.Script.Draft.{
  Draft, two, three, constant, differing, allocated, promotion, bumped, draft_step,
}
use joosc.Ir.Script.Gives.{
  Gives, Does, closed-Gives, >>=-Gives, pure-Gives, check_that-Gives, gets-Gives, modify-Does,
}
use joosc.Ir.Script.Primitives.{
  Gives-ext, if-Gives, assert_assigned-Does, set_assigned-Does, emit-Does, emit_unread-Does,
  alloc_mem-Gives, dealloc_mem-Does, pushes-Does,
}
use joosc.Ir.Size.{SizeClass}
use joosc.Ir.Stream.{OpType}

pub forget-Does :
    {A : Type 0} {m : Build A} {f : Draft → Draft} {r : Draft → A} → Gives m f r → Does (forget m) f
forget-Does h = >>=-Gives h (λ _. pure-Gives)

pub bin_op-Does :
    (dst lhs rhs : Mem) (type : OpType)
    → Does (Operations.bin_op dst lhs rhs type) (three type dst.id lhs.id rhs.id)
unfolding Operations.bin_op
bin_op-Does dst lhs rhs type = emit-Does dst (lhs ∷ rhs ∷ []) _ _

pub un_op-Does :
    (dst src : Mem) (type : OpType) → Does (Operations.un_op dst src type) (two type dst.id src.id)
unfolding Operations.un_op
un_op-Does dst src type = emit-Does dst (src ∷ []) _ _

pub const-Does : (mem : Mem) (val : ℕ) → Does (Operations.const mem val) (constant mem val)
unfolding Operations.const
const-Does mem val = emit_unread-Does mem _ _

pub neq-Does :
    (dst lhs rhs : Mem) → Does (Operations.neq dst lhs rhs) (differing dst.id lhs.id rhs.id)
unfolding Operations.neq alloc_temp Operations.eq Operations.not
neq-Does dst lhs rhs = >>=-Gives (alloc_mem-Gives SizeClass.bool true) (λ tmp.
    >>=-Gives (bin_op-Does tmp lhs rhs OpType.eq)
      (λ _. >>=-Gives (un_op-Does dst tmp OpType.not) (λ _. dealloc_mem-Does tmp.id)))

pub alloc_heap-Does :
    (t : TypeId) → Does (forget (Operations.alloc_heap t)) (draft_step (Call.alloc_heap t))
unfolding Operations.alloc_heap alloc_temp draft_step
alloc_heap-Does t = forget-Does (
    >>=-Gives (check_that-Gives _) (λ _.
      >>=-Gives (alloc_mem-Gives SizeClass.ptr true)
        (λ tmp. >>=-Gives (emit_unread-Does tmp _ (tmp.id ∷ t.base ∷ [])) (λ _. pure-Gives))))

pub alloc_array-Does :
    (t : TypeId) (len : Mem) (pos : PosRange)
    → Does (forget (Operations.alloc_array t len pos)) (draft_step (Call.alloc_array t len pos))
unfolding Operations.alloc_array alloc_temp draft_step
alloc_array-Does t len pos = forget-Does (
    >>=-Gives (assert_assigned-Does (len ∷ [])) (λ _.
      >>=-Gives (alloc_mem-Gives SizeClass.ptr true) (λ tmp.
        >>=-Gives (emit_unread-Does tmp _ (tmp.id ∷ t.base ∷ len.id ∷ pos.begin ∷ []))
          (λ _. pure-Gives))))

if-same {ℓ} : {A : Type ℓ} (b : Bool) (x : A) → (if b then x else x) ≡ x
if-same true x = refl
if-same false x = refl

if-apply {ℓ κ} :
    {A : Type ℓ} {B : Type κ} (b : Bool) (f g : A → B) (x : A)
    → if◌then◌else◌ {A = A → B} b f g x ≡ (if b then f x else g x)
if-apply true f g x = refl
if-apply false f g x = refl

pub set_result-Does : (dst : Mem) → Does (Calls.set_result dst) (λ d. d)
unfolding Calls.set_result
set_result-Does dst =
    Gives-ext (if-Gives (is_valid dst) (set_assigned-Does (dst ∷ [])) pure-Gives)
      (λ d. if-apply (is_valid dst) _ _ d ∙ if-same (is_valid dst) d) (λ d. refl)

pub promoted-Gives :
    (src : Mem)
    → Gives
        (Calls.promoted src)
        (λ d. two OpType.extend d.next_mem src.id (allocated SizeClass.int true d))
        (λ d. record { id = d.next_mem; size = SizeClass.int; immutable = true })
unfolding Calls.promoted alloc_temp Operations.extend
promoted-Gives src =
    >>=-Gives (alloc_mem-Gives SizeClass.int true)
      (λ tmp. >>=-Gives (un_op-Does tmp src OpType.extend) (λ _. pure-Gives))

pub promote-Does : (src : Mem) → Does (forget (Calls.promote_to_int src)) (promotion src)
unfolding Calls.promote_to_int
promote-Does src =
    Gives-ext
      (forget-Does (
        >>=-Gives (check_that-Gives _)
          (λ _. if-Gives (same_size src.size SizeClass.int) pure-Gives (promoted-Gives src))))
      (λ d. if-apply (same_size src.size SizeClass.int) _ _ d) (λ d. refl)

abbrev handed : List SizeClass → ℕ → List Mem
handed [] n = []
handed (size ∷ sizes) n =
    record { id = n; size = size; immutable = false } ∷ handed sizes (u64 (suc n))

pub next_mem-Does :
    Does
      (modify (λ b. record b { next_mem = u64 (suc b.next_mem) }))
      (λ d. record d { next_mem = u64 (suc d.next_mem) })
next_mem-Does = modify-Does _ _ (λ s fits. (fits, refl))

pub alloc_each-Gives :
    (sizes : List SizeClass)
    → Gives
        (alloc_each sizes)
        (λ d. record d { next_mem = bumped (length sizes) d.next_mem })
        (λ d. handed sizes d.next_mem)
unfolding alloc_each
alloc_each-Gives [] = pure-Gives
alloc_each-Gives (size ∷ sizes) =
    >>=-Gives (gets-Gives _ (λ d. d.next_mem) (λ s. refl))
      (λ mid. >>=-Gives next_mem-Does (λ _. >>=-Gives (alloc_each-Gives sizes) (λ out. pure-Gives)))

pub alloc_params-Does :
    (sizes : List SizeClass)
    → Does (forget (alloc_params sizes)) (draft_step (Call.alloc_params sizes))
unfolding alloc_params draft_step
alloc_params-Does sizes = forget-Does (
    >>=-Gives (check_that-Gives _) (λ _.
      >>=-Gives (modify-Does _ (λ d. d) (λ s fits. (fits, refl))) (λ _.
        >>=-Gives (alloc_each-Gives sizes) (λ out.
          >>=-Gives
            (modify-Does _ (λ d. record d { params = length sizes }) (λ s fits. (fits, refl)))
            (λ _. >>=-Gives (check_that-Gives _) (λ _. pure-Gives))))))

pub alloc_label-Does : Does (forget alloc_label) (λ d. d)
unfolding alloc_label gets modify pure ◌>>=◌
alloc_label-Does =
    closed-Gives (forget alloc_label) (λ d. d) (λ _. tt) (λ _. tt)
      (λ s. record s { next_label = u64 (suc s.next_label) }) (λ s fits. refl)
      (λ s fits. (fits, refl, refl))

pub instance_of-Does :
    (x s : Mem) (to from : TypeId)
    → Does (Calls.instance_of x s to from) (draft_step (Call.instance_of x s to from))
unfolding Calls.instance_of draft_step
instance_of-Does x s to from = >>=-Gives (assert_assigned-Does (s ∷ [])) (λ _.
    pushes-Does OpType.instance_of
      (x.id
        ∷ s.id
        ∷ to.base
        ∷ bool_arg (Operations.is_array to)
        ∷ from.base
        ∷ bool_arg (Operations.is_array from)
        ∷ [])
      (set_assigned-Does (x ∷ [])))
