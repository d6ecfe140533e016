-- ===== src/Ir/Script/Primitives.antt =====
-- ir/stream_builder.cpp: the steps that the operations share, and what they do to the draft.
use joosc.Common.{
  ℕ, suc, ◌≡◌, refl, sym, ap, ◌∙◌, subst, Bool, true, false, List, [], ◌∷◌, ◌++◌, length, leb,
  concat, if◌then◌else◌, append-nil, append_assoc, All, ok, ok_injective,
}
use joosc.Common.States.{feed, ◌>>=◌, pure, check_that, modify, gets, >>=-eq-ok, check_that-eq-ok}
use joosc.Ir.Builder.{
  Builder, Build, Mem, contains, u64, bool_arg, push_args, push_op, assert_assigned, set_assigned,
  insert_unassigned, alloc_mem, dealloc_assigned, dealloc_mem,
}
use joosc.Ir.Builder.Operations.{emit, emit_unread, emit_unwritten}
use joosc.Ir.Builder.Calls.{push_mems}
use joosc.Ir.Script.Draft.{Draft, Instruction, draft, add_code, one, allocated, deallocation, ids}
use joosc.Ir.Script.Gives.{
  Gives, Does, >>=-Gives, pure-Gives, check_that-Gives, gets-Gives, modify-Does, appended,
  appended-Fits, append_op-Does, push_args-closed, pushed,
}
use joosc.Ir.Size.{SizeClass, class_index}
use joosc.Ir.Stream.{OpType}

pub Gives-ext :
    {A : Type 0} {m : Build A} {f g : Draft → Draft} {r q : Draft → A}
    → Gives m f r
    → ((d : Draft) → f d ≡ g d)
    → ((d : Draft) → r d ≡ q d)
    → Gives m g q
Gives-ext {A} {m} {f} {g} {r} {q} hm same same_value = record {
  gives = λ s s' a fits h.
      let (fits', draft_same, value) = hm.gives s s' a fits h in
      (fits', draft_same ∙ same (draft s), value ∙ same_value (draft s));
}

pub if-Gives :
    {A : Type 0} (b : Bool) {m n : Build A} {f g : Draft → Draft} {r q : Draft → A}
    → Gives m f r
    → Gives n g q
    → Gives (if b then m else n) (λ d. (if b then f else g) d) (λ d. (if b then r else q) d)
if-Gives true hm hn = hm
if-Gives false hm hn = hn

-- A part of the state that the draft lacks may be read, where the rest does the same for each value.
pub gets-Does :
    {A : Type 0} (get : Builder → A) {k : A → Build (Unit {0})} {f : Draft → Draft}
    → ((a : A) → Does (k a) f)
    → Does (gets get >>= k) f
unfolding ◌>>=◌ gets
gets-Does {A} get {k} {f} hk = record { gives = λ s s' a fits h. (hk (get s)).gives s s' a fits h }

pub assert_assigned-Does : (mems : List Mem) → Does (assert_assigned mems) (λ d. d)
unfolding assert_assigned
assert_assigned-Does [] = pure-Gives
assert_assigned-Does (mem ∷ mems) = >>=-Gives (check_that-Gives _) (λ _. assert_assigned-Does mems)

pub modify-unassigned-Does :
    (change : Builder → List ℕ) → Does (modify (λ b. record b { unassigned = change b })) (λ d. d)
modify-unassigned-Does change = modify-Does _ (λ d. d) (λ s fits. (fits, refl))

pub set_assigned-Does : (mems : List Mem) → Does (set_assigned mems) (λ d. d)
unfolding set_assigned
set_assigned-Does [] = pure-Gives
set_assigned-Does (mem ∷ mems) = >>=-Gives (check_that-Gives _) (λ _. gets-Does _ (λ written.
    >>=-Gives (modify-unassigned-Does _)
      (λ _. >>=-Gives (check_that-Gives _) (λ _. set_assigned-Does mems))))

pub emit-Does :
    (dst : Mem) (srcs : List Mem) (type : OpType) (args : List ℕ)
    → Does (emit dst srcs type args) (add_code (one type args))
unfolding emit
emit-Does dst srcs type args =
    >>=-Gives (assert_assigned-Does srcs)
      (λ _. >>=-Gives (append_op-Does type args) (λ _. set_assigned-Does (dst ∷ [])))

pub emit_unread-Does :
    (dst : Mem) (type : OpType) (args : List ℕ)
    → Does (emit_unread dst type args) (add_code (one type args))
unfolding emit_unread
emit_unread-Does dst type args =
    >>=-Gives (append_op-Does type args) (λ _. set_assigned-Does (dst ∷ []))

pub emit_unwritten-Does :
    (srcs : List Mem) (type : OpType) (args : List ℕ)
    → Does (emit_unwritten srcs type args) (add_code (one type args))
unfolding emit_unwritten
emit_unwritten-Does srcs type args =
    >>=-Gives (assert_assigned-Does srcs) (λ _. append_op-Does type args)

pub insert_unassigned-Does : (mid : ℕ) → Does (insert_unassigned mid) (λ d. d)
unfolding insert_unassigned
insert_unassigned-Does mid = >>=-Gives (check_that-Gives _) (λ _. modify-unassigned-Does _)

pub alloc_mem-Gives :
    (size : SizeClass) (immutable : Bool)
    → Gives
        (alloc_mem size immutable)
        (allocated size immutable)
        (λ d. record { id = d.next_mem; size = size; immutable = immutable })
unfolding alloc_mem
alloc_mem-Gives size immutable = >>=-Gives (check_that-Gives _) (λ _.
    >>=-Gives (gets-Gives _ (λ d. d.next_mem) (λ s. refl)) (λ mid.
      >>=-Gives
        (modify-Does _ (λ d. record d { next_mem = u64 (suc d.next_mem) }) (λ s fits. (fits, refl)))
        (λ _. >>=-Gives (insert_unassigned-Does mid) (λ _.
          >>=-Gives (append_op-Does _ (mid ∷ class_index size ∷ bool_arg immutable ∷ []))
            (λ _. pure-Gives)))))

pub dealloc_assigned-Does :
    (mid : ℕ) → Does (dealloc_assigned mid) (add_code (one OpType.dealloc_mem (mid ∷ [])))
unfolding dealloc_assigned
dealloc_assigned-Does mid = >>=-Gives (check_that-Gives _) (λ _. append_op-Does _ (mid ∷ []))

add_code-nil : (d : Draft) → d ≡ add_code [] d
add_code-nil d = ap (λ is. record d { code = is }) (sym (append-nil d.code))

unless_add :
    (b : Bool) (is : List Instruction) (d : Draft)
    → if◌then◌else◌ {A = Draft → Draft} b (λ d'. d') (add_code is) d
      ≡ add_code (if b then [] else is) d
unless_add true is d = add_code-nil d
unless_add false is d = refl

pub dealloc_mem-Does :
    (mid : ℕ) → Does (dealloc_mem mid) (λ d. add_code (deallocation d.params mid) d)
unfolding dealloc_mem
dealloc_mem-Does mid =
    Gives-ext
      (>>=-Gives (gets-Gives _ (λ d. d.params) (λ s. refl))
        (λ count. if-Gives (leb mid count) pure-Gives (dealloc_assigned-Does mid)))
      (λ d. unless_add (leb mid d.params) (one OpType.dealloc_mem (mid ∷ [])) d) (λ d. refl)

-- The arguments are pushed, then the operation.
pub pushes-Does :
    (type : OpType) (vals : List ℕ) {k : Build (Unit {0})} {f : Draft → Draft}
    → Does k f
    → Does
        (gets (λ b. length b.args) >>= λ begin.
          push_args vals >>= λ _. push_op type begin >>= λ _. k)
        (λ d. f (add_code (one type vals) d))
unfolding push_op ◌>>=◌ gets modify
pushes-Does type vals {k} {f} hk = record {
  gives = λ s s' a fits h.
      let ran : k (appended type vals s) ≡ ok (a, s') =
        sym (ap (feed (λ _. push_op type (length s.args) >>= λ _. k)) (push_args-closed vals s))
        ∙ h in
      let (fits1, draft_same) = appended-Fits type vals s fits in
      let (fits', same, value) = hk.gives (appended type vals s) s' a fits1 ran in
      (fits', same ∙ ap f draft_same, refl);
}

refused : (b : Bool) → (if b then false else true) ≡ true → b ≡ false
refused true h = cc
refused false h = refl

-- An assertion that passes leaves the state, and no id that it names is unassigned.
pub assert_assigned-eq-ok :
    (mems : List Mem) (s s' : Builder) (u : Unit {0})
    → assert_assigned mems s ≡ ok (u, s')
    → All (λ m. contains s.unassigned m.id ≡ false) mems × (s ≡ s')
unfolding assert_assigned pure
assert_assigned-eq-ok [] s s' u h = (tt, ap (λ p. p.1) (ok_injective h))
assert_assigned-eq-ok (mem ∷ mems) s s' u h =
    let (a, s1, passed, rest) =
      >>=-eq-ok (check_that (λ b. if contains b.unassigned mem.id then false else true))
        (λ _. assert_assigned mems) s s' u h in
    let (assigned, same) = check_that-eq-ok _ s s1 a passed in
    let (others, same') =
      assert_assigned-eq-ok mems s s' u
        (subst (λ t. assert_assigned mems t ≡ ok (u, s')) (sym same) rest) in
    ((refused _ assigned, others), same')

after_push :
    (vals : List ℕ) (k : Build (Unit {0})) (s : Builder)
    → (push_args vals >>= λ _. k) s ≡ k (pushed vals s)
unfolding ◌>>=◌
after_push vals k s = ap (feed (λ _. k)) (push_args-closed vals s)

pub push_mems-eq-ok :
    (mems : List Mem) (s s' : Builder) (u : Unit {0})
    → push_mems mems s ≡ ok (u, s')
    → All (λ m. contains s.unassigned m.id ≡ false) mems × (pushed (ids mems) s ≡ s')
unfolding push_mems pure
push_mems-eq-ok [] s s' u h =
    (tt, ap (λ xs. record s { args = xs }) (append-nil s.args) ∙ ap (λ p. p.1) (ok_injective h))
push_mems-eq-ok (mem ∷ mems) s s' u h =
    let (a, s1, passed, rest) =
      >>=-eq-ok (assert_assigned (mem ∷ [])) (λ _. push_args (mem.id ∷ []) >>= λ _. push_mems mems)
        s s' u h in
    let (assigned, same) = assert_assigned-eq-ok (mem ∷ []) s s1 a passed in
    let ran : push_mems mems (pushed (mem.id ∷ []) s) ≡ ok (u, s') =
      sym (after_push (mem.id ∷ []) (push_mems mems) s)
      ∙ subst (λ t. (push_args (mem.id ∷ []) >>= λ _. push_mems mems) t ≡ ok (u, s')) (sym same)
          rest in
    let (others, same') = push_mems-eq-ok mems (pushed (mem.id ∷ []) s) s' u ran in
    (
      (assigned.0, others),
      ap (λ xs. record s { args = xs }) (sym (append_assoc s.args (mem.id ∷ []) (ids mems)))
          ∙ same',
    )

-- The arguments of a call are pushed in two parts.
abbrev with_args : OpType → Builder → List ℕ → Builder
with_args type s xs = record s {
  args = xs;
  ops = concat s.ops (record { type = type; begin = length s.args; end = length xs });
}

pushed_call :
    (type : OpType) (head : List ℕ) (mems : List Mem) (k : Build (Unit {0})) (s s' : Builder)
    (a : Unit {0})
    → (push_args head >>= λ _. push_mems mems >>= λ _. push_op type (length s.args) >>= λ _. k) s
      ≡ ok (a, s')
    → All (λ m. contains s.unassigned m.id ≡ false) mems
      × (k (appended type (head ++ ids mems) s) ≡ ok (a, s'))
unfolding push_op ◌>>=◌ modify
pushed_call type head mems k s s' a h =
    let (a1, s1, e1, e2) =
      >>=-eq-ok (push_mems mems) (λ _. push_op type (length s.args) >>= λ _. k) (pushed head s) s' a
        (sym (after_push head (push_mems mems >>= λ _. push_op type (length s.args) >>= λ _. k) s)
          ∙ h) in
    let (assigned, same) = push_mems-eq-ok mems (pushed head s) s1 a1 e1 in
    (
      assigned,
      ap (λ xs. k (with_args type s xs)) (sym (append_assoc s.args head (ids mems)))
          ∙ subst (λ t. (push_op type (length s.args) >>= λ _. k) t ≡ ok (a, s')) (sym same) e2,
    )

pub pushes_mems-Does :
    (type : OpType) (head : List ℕ) (mems : List Mem) {k : Build (Unit {0})} {f : Draft → Draft}
    → Does k f
    → Does
        (gets (λ b. length b.args) >>= λ begin.
          push_args head >>= λ _. push_mems mems >>= λ _. push_op type begin >>= λ _. k)
        (λ d. f (add_code (one type (head ++ ids mems)) d))
unfolding ◌>>=◌ gets
pushes_mems-Does type head mems {k} {f} hk = record {
  gives = λ s s' a fits h.
      let (fits1, draft_same) = appended-Fits type (head ++ ids mems) s fits in
      let ran = (pushed_call type head mems k s s' a h).1 in
      let (fits', same, value) = hk.gives (appended type (head ++ ids mems) s) s' a fits1 ran in
      (fits', same ∙ ap f draft_same, refl);
}
