-- ===== src/Ir/Script/Refusing.antt =====
-- ir/stream_builder.cpp: steps of the builder while a memory is unassigned.
use joosc.Common.{
  ℕ, ◌≡◌, refl, sym, ap, ◌∙◌, subst, ◌⊎◌, inl, inr, Bool, true, false, ◌||◌, List, [], ◌∷◌,
  if◌then◌else◌, Outcome, ok, thrown, Exn, ◌==◌,
}
use joosc.Common.States.{feed, ◌>>=◌, pure, check_that, modify, gets}
use joosc.Ir.Builder.{
  Builder, Build, Mem, contains, bool_arg, push_args, append_op, assert_assigned, insert_unassigned,
  alloc_mem,
}
use joosc.Ir.Script.Gives.{append_op-closed, push_args-closed, appended, pushed}
use joosc.Ir.Size.{SizeClass, class_index}
use joosc.Ir.Stream.{OpType}

-- A memory with the id `i` is in the list.
pub data Names (i : ℕ) : List Mem → Type 0 where
  here : {m : Mem} {ms : List Mem} → m.id ≡ i → Names i (m ∷ ms)
  there : {m : Mem} {ms : List Mem} → Names i ms → Names i (m ∷ ms)

-- Whether `i` is unassigned.
abbrev pub Waits : Bool → ℕ → Builder → Type 0
Waits w i s = contains s.unassigned i ≡ w

-- While `i` is unassigned, or while it is not, the computation fails a check.
pub record Refuses {A : Type 0} (w : Bool) (i : ℕ) (m : Build A) : Type 0 where
  pub refuses : (s : Builder) → Waits w i s → m s ≡ thrown Exn.check_failed

-- The computation fails a check or leaves `i` as it is.
pub record Passes {A : Type 0} (w : Bool) (i : ℕ) (m : Build A) : Type 0 where
  pub passes :
      (s : Builder)
      → Waits w i s
      → (m s ≡ thrown Exn.check_failed)
        ⊎ ((a : A) × (s' : Builder) × ((m s ≡ ok (a, s')) × Waits w i s'))

pub stops :
    {A B : Type 0} {w : Bool} {i : ℕ} {m : Build A} (k : A → Build B)
    → Refuses w i m
    → Refuses w i (m >>= k)
unfolding ◌>>=◌
stops {A} {B} {w} {i} {m} k hm = record { refuses = λ s waits. ap (feed k) (hm.refuses s waits) }

pub past :
    {A B : Type 0} {w : Bool} {i : ℕ} {m : Build A} {k : A → Build B}
    → Passes w i m
    → ((a : A) → Refuses w i (k a))
    → Refuses w i (m >>= k)
unfolding ◌>>=◌
past {A} {B} {w} {i} {m} {k} hm hk = record {
  refuses = λ s waits. elim (hm.passes s waits) [
    | inl failed ↦ ap (feed k) failed
    | inr (a, s', (ran, waits')) ↦ ap (feed k) ran ∙ (hk a).refuses s' waits'
  ];
}

pub both_pass :
    {A B : Type 0} {w : Bool} {i : ℕ} {m : Build A} {k : A → Build B}
    → Passes w i m
    → ((a : A) → Passes w i (k a))
    → Passes w i (m >>= k)
unfolding ◌>>=◌
both_pass {A} {B} {w} {i} {m} {k} hm hk = record {
  passes = λ s waits. elim (hm.passes s waits) [
    | inl failed ↦ inl (ap (feed k) failed)
    | inr (a, s', (ran, waits')) ↦ elim ((hk a).passes s' waits') [
      | inl failed ↦ inl (ap (feed k) ran ∙ failed)
      | inr (b, s'', (ran', waits'')) ↦ inr (b, s'', (ap (feed k) ran ∙ ran', waits''))
    ]
  ];
}

pub pure-Passes : {A : Type 0} (w : Bool) (i : ℕ) (a : A) → Passes w i (pure a)
unfolding pure
pure-Passes w i a = record { passes = λ s waits. inr (a, s, (refl, waits)) }

pub gets-Passes : {A : Type 0} (w : Bool) (i : ℕ) (get : Builder → A) → Passes w i (gets get)
unfolding gets
gets-Passes w i get = record { passes = λ s waits. inr (get s, s, (refl, waits)) }

abbrev pub checked : Bool → Builder → Outcome (Unit {0} × Builder)
checked b s = if b then ok (tt, s) else thrown Exn.check_failed

pub checked-passes :
    (w : Bool) (i : ℕ) (b : Bool) (s : Builder)
    → Waits w i s
    → (checked b s ≡ thrown Exn.check_failed)
      ⊎ ((a : Unit {0}) × (s' : Builder) × ((checked b s ≡ ok (a, s')) × Waits w i s'))
checked-passes w i true s waits = inr (tt, s, (refl, waits))
checked-passes w i false s waits = inl refl

pub check_that-Passes : (w : Bool) (i : ℕ) (p : Builder → Bool) → Passes w i (check_that p)
unfolding check_that
check_that-Passes w i p = record { passes = λ s waits. checked-passes w i (p s) s waits }

pub modify-Passes :
    (w : Bool) (i : ℕ) (change : Builder → Builder)
    → ((s : Builder) → Waits w i s → Waits w i (change s))
    → Passes w i (modify change)
unfolding modify
modify-Passes w i change kept = record {
  passes = λ s waits. inr (tt, change s, (refl, kept s waits));
}

pub closed-Passes :
    {A : Type 0} (w : Bool) (i : ℕ) (m : Build A) (value : A) (after : Builder → Builder)
    → ((s : Builder) → m s ≡ ok (value, after s))
    → ((s : Builder) → Waits w i s → Waits w i (after s))
    → Passes w i m
closed-Passes w i m value after form kept = record {
  passes = λ s waits. inr (value, after s, (form s, kept s waits));
}

pub append_op-Passes :
    (w : Bool) (i : ℕ) (type : OpType) (vals : List ℕ) → Passes w i (append_op type vals)
append_op-Passes w i type vals =
    closed-Passes w i (append_op type vals) tt (appended type vals) (append_op-closed type vals)
      (λ s waits. waits)

pub push_args-Passes : (w : Bool) (i : ℕ) (vals : List ℕ) → Passes w i (push_args vals)
push_args-Passes w i vals =
    closed-Passes w i (push_args vals) tt (pushed vals) (push_args-closed vals) (λ s waits. waits)

or-true : (b c : Bool) → c ≡ true → (b || c) ≡ true
or-true true c h = refl
or-true false c h = h

insert_unassigned-Passes : (i mid : ℕ) → Passes true i (insert_unassigned mid)
unfolding insert_unassigned contains
insert_unassigned-Passes i mid =
    both_pass (check_that-Passes true i _)
      (λ _. modify-Passes true i _ (λ s waits. or-true (i == mid) (contains s.unassigned i) waits))

pub alloc_mem-Passes :
    (i : ℕ) (size : SizeClass) (immutable : Bool) → Passes true i (alloc_mem size immutable)
unfolding alloc_mem
alloc_mem-Passes i size immutable = both_pass (check_that-Passes true i _) (λ _.
    both_pass (gets-Passes true i _) (λ mid.
      both_pass (modify-Passes true i _ (λ s waits. waits)) (λ _.
        both_pass (insert_unassigned-Passes i mid) (λ _.
          both_pass
            (append_op-Passes true i OpType.alloc_mem
              (mid ∷ class_index size ∷ bool_arg immutable ∷ []))
            (λ _. pure-Passes true i _)))))

pub assert_assigned-Passes :
    (w : Bool) (i : ℕ) (mems : List Mem) → Passes w i (assert_assigned mems)
unfolding assert_assigned
assert_assigned-Passes w i [] = pure-Passes w i tt
assert_assigned-Passes w i (mem ∷ mems) =
    both_pass (check_that-Passes w i _) (λ _. assert_assigned-Passes w i mems)

unassigned-Refuses :
    (i : ℕ) (m : Mem)
    → m.id ≡ i
    → Refuses true i (check_that (λ b. if contains b.unassigned m.id then false else true))
unfolding check_that
unassigned-Refuses i m same = record {
  refuses = λ s waits.
      let waits' : contains s.unassigned m.id ≡ true =
        subst (λ j. contains s.unassigned j ≡ true) (sym same) waits in
      ap (λ b. checked (if b then false else true) s) waits';
}

pub assert_assigned-Refuses :
    {i : ℕ} (mems : List Mem) → Names i mems → Refuses true i (assert_assigned mems)
unfolding assert_assigned
assert_assigned-Refuses [] named = elim named [ ]
assert_assigned-Refuses {i} (mem ∷ mems) (Names.here same) = stops _ (unassigned-Refuses i mem same)
assert_assigned-Refuses {i} (mem ∷ mems) (Names.there named) =
    past (check_that-Passes true i _) (λ _. assert_assigned-Refuses mems named)
