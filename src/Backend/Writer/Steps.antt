-- ===== src/Backend/Writer/Steps.antt =====
-- How a computation of backend/i386/writer.cpp, `FuncWriter`, changes the state, step by step.
pub mod Sites
pub mod Arithmetic
pub mod Memory
pub mod Calls
pub mod Func
use joosc.Backend.Asm.{Line}
use joosc.Backend.Writer.{
  Write, FuncWriter, write, expect, wrong_nargs, find_entry, cur_stack, new_local_label,
}
use joosc.Backend.Writer.Refs.{Ref, refs, Bound, Known, site_frame}
use joosc.Common.{
  ℕ, ◌≤◌, ◌≡◌, refl, sym, ap, ◌∙◌, subst, Bool, true, false, List, [], ◌∷◌, ◌++◌, append_assoc,
  length, map, if◌then◌else◌, All, All-append, ok, thrown, Exn, Outcome, ok_injective, arith,
}
use joosc.Common.States.{◌>>=◌, pure, check_that, modify, gets, lift, >>=-eq-ok, check_that-eq-ok}

-- No exception site or frame is lost.
abbrev pub Grown : FuncWriter → FuncWriter → Type 0
Grown s s' =
    (length s.exceptions ≤ length s'.exceptions) × (length s.stack_frames ≤ length s'.stack_frames)

pub Bound-Grown : (s s' : FuncWriter) (r : Ref) → Grown s s' → Bound s r → Bound s' r
Bound-Grown s s' (Ref.exception n) grown h = omega (arith, h, grown.0)
Bound-Grown s s' (Ref.frame n) grown h = omega (arith, h, grown.1)
Bound-Grown s s' (Ref.defined n) grown h = h

pub All-Grown :
    (s s' : FuncWriter) (rs : List Ref) → Grown s s' → All (Bound s) rs → All (Bound s') rs
All-Grown s s' [] grown h = tt
All-Grown s s' (r ∷ rs) grown h = (Bound-Grown s s' r grown h.0, All-Grown s s' rs grown h.1)

pub Grown-Grown : (s s' s'' : FuncWriter) → Grown s s' → Grown s' s'' → Grown s s''
Grown-Grown s s' s'' h k = (omega (arith, h.0, k.0), omega (arith, h.1, k.1))

-- The memories and their slots stay, where `still` says so.
abbrev pub SameFrame : Bool → FuncWriter → FuncWriter → Type 0
SameFrame still s s' =
    still ≡ true
    → (s.stack_map ≡ s'.stack_map) × (s.cur_offset ≡ s'.cur_offset) × (s.stack ≡ s'.stack)

-- Where the lines speak of what is there, and `before` is there, a run loses nothing, writes lines that
-- speak of what is there, and what its value names is there.
pub record Step (still : Bool) {A : Type 0} (before : List Ref) (m : Write A) (after : A → List Ref)
    : Type 0 where
  pub steps :
      (s s' : FuncWriter) (a : A)
      → Known s
      → All (Bound s) before
      → m s ≡ ok (a, s')
      → (Known s' × All (Bound s') (after a)) × (Grown s s' × SameFrame still s s')

abbrev pub Plain : {A : Type 0} → Write A → Type 0
Plain m = (still : Bool) (before : List Ref) → Step still before m (λ _. [])

pub >>=-Step :
    {still : Bool} {A B : Type 0} {before : List Ref} {m : Write A} {after : A → List Ref}
    (k : A → Write B) {last : B → List Ref}
    → Step still before m after
    → ((a : A) → Step still (after a ++ before) (k a) last)
    → Step still before (m >>= k) last
>>=-Step {still} {A} {B} {before} {m} {after} k {last} hm hk = record {
  steps = λ s s' b known bound h.
      let (a, s1, e1, e2) = >>=-eq-ok m k s s' b h in
      let ((known1, bound1), (grown1, frame1)) = hm.steps s s1 a known bound e1 in
      let all_bound =
        All-append (Bound s1) (after a) before bound1 (All-Grown s s1 before grown1 bound) in
      let ((known2, bound2), (grown2, frame2)) = (hk a).steps s1 s' b known1 all_bound e2 in
      (
        (known2, bound2),
        (
          Grown-Grown s s1 s' grown1 grown2,
          λ p. (
            (frame1 p).0 ∙ (frame2 p).0,
            (frame1 p).1 ∙ (frame2 p).1,
            (frame1 p).2 ∙ (frame2 p).2,
          ),
        ),
      );
}

-- A part that adds nothing, and then the rest.
pub plain_bind :
    {still : Bool} {A B : Type 0} {before : List Ref} {m : Write A} {k : A → Write B}
    {last : B → List Ref}
    → Step still before m (λ _. [])
    → ((a : A) → Step still before (k a) last)
    → Step still before (m >>= k) last
plain_bind hm hk = >>=-Step _ hm hk

pub if-Step :
    {still : Bool} {A : Type 0} {before : List Ref} {m n : Write A} {after : A → List Ref}
    (b : Bool)
    → Step still before m after
    → Step still before n after
    → Step still before (if b then m else n) after
if-Step true h k = h
if-Step false h k = k

-- The state stays.
unmoved :
    {A : Type 0} (m : Write A) → ((s s' : FuncWriter) (a : A) → m s ≡ ok (a, s') → s ≡ s') → Plain m
unmoved m same still before = record {
  steps = λ s s' a known bound h.
      let e = same s s' a h in
      (
        (subst Known e known, tt),
        (
          (
            omega (arith, ap (λ t. length t.exceptions) e),
            omega (arith, ap (λ t. length t.stack_frames) e),
          ),
          λ p. (ap (λ t. t.stack_map) e, ap (λ t. t.cur_offset) e, ap (λ t. t.stack) e),
        ),
      );
}

pub pure-Step : {A : Type 0} (a : A) → Plain (pure a)
unfolding pure
pure-Step a = unmoved (pure a) (λ s s' b h. ap (λ p. p.1) (ok_injective h))

pub gets-Step : {A : Type 0} (get : FuncWriter → A) → Plain (gets get)
unfolding gets
gets-Step get = unmoved (gets get) (λ s s' b h. ap (λ p. p.1) (ok_injective h))

pub check_that-Step : (p : FuncWriter → Bool) → Plain (check_that p)
check_that-Step p = unmoved (check_that p) (λ s s' a h. (check_that-eq-ok p s s' a h).1)

pub expect-Step : (b : Bool) → Plain (expect b)
unfolding expect
expect-Step b = check_that-Step (λ w. b)

lifted : {A : Type 0} (o : Outcome A) (s s' : FuncWriter) (a : A) → lift o s ≡ ok (a, s') → s ≡ s'
unfolding lift
lifted (ok b) s s' a h = ap (λ p. p.1) (ok_injective h)
lifted (thrown e) s s' a h = cc

pub lift-Step : {A : Type 0} (o : Outcome A) → Plain (lift o)
lift-Step o = unmoved (lift o) (lifted o)

pub wrong_nargs-Step : Plain wrong_nargs
unfolding wrong_nargs
wrong_nargs-Step = lift-Step (thrown Exn.check_failed)

pub find_entry-Step : (mem : ℕ) → Plain (find_entry mem)
unfolding find_entry
find_entry-Step mem still before =
    plain_bind (gets-Step _ still before) (λ m. lift-Step _ still before)

pub cur_stack-Step : Plain cur_stack
unfolding cur_stack
cur_stack-Step = gets-Step _

pub refs-append : (xs ys : List Line) → refs (xs ++ ys) ≡ refs xs ++ refs ys
unfolding refs
refs-append [] ys = refl
refs-append (x ∷ xs) ys = simp (append_assoc, refs-append xs ys)

pub write-eq-ok :
    (lines : List Line) (s s' : FuncWriter) (u : Unit {0})
    → write lines s ≡ ok (u, s')
    → record s { out = s.out ++ lines } ≡ s'
unfolding write modify
write-eq-ok lines s s' u h = ap (λ p. p.1) (ok_injective h)

-- Lines that speak of nothing but what is there.
pub write-Step :
    (still : Bool) (lines : List Line) (before : List Ref)
    → ((s : FuncWriter) → All (Bound s) before → All (Bound s) (refs lines))
    → Step still before (write lines) (λ _. [])
write-Step still lines before here = record {
  steps = λ s s' u known bound h.
      let e = write-eq-ok lines s s' u h in
      let all_refs =
        subst (All (Bound s)) (sym (refs-append s.out lines))
          (All-append (Bound s) (refs s.out) (refs lines) known.0 (here s bound)) in
      let same_sites = ap (λ t. length t.exceptions) e in
      let same_frames = ap (λ t. length t.stack_frames) e in
      let t = record s { out = s.out ++ lines } in
      (
        (
          subst Known e (
            All-Grown s t (refs t.out) (omega arith, omega arith) all_refs,
            All-Grown s t (map site_frame s.exceptions) (omega arith, omega arith) known.1,
          ),
          tt,
        ),
        (
          (omega (arith, same_sites), omega (arith, same_frames)),
          λ p. (ap (λ t. t.stack_map) e, ap (λ t. t.cur_offset) e, ap (λ t. t.stack) e),
        ),
      );
}

pub write_none-Step : (lines : List Line) → refs lines ≡ [] → Plain (write lines)
write_none-Step lines e still before =
    write-Step still lines before (λ s bound. subst (All (Bound s)) (sym e) tt)

pub write_first-Step :
    {still : Bool} (lines : List Line) {r : Ref} {before : List Ref}
    → refs lines ≡ r ∷ []
    → Step still (r ∷ before) (write lines) (λ _. [])
write_first-Step lines e =
    write-Step _ lines _ (λ s bound. subst (All (Bound s)) (sym e) (bound.0, tt))

pub write_twice-Step :
    {still : Bool} (lines : List Line) {r : Ref} {before : List Ref}
    → refs lines ≡ r ∷ r ∷ []
    → Step still (r ∷ before) (write lines) (λ _. [])
write_twice-Step lines e =
    write-Step _ lines _ (λ s bound. subst (All (Bound s)) (sym e) (bound.0, (bound.0, tt)))

-- A part of the state that no line and no exception site speaks of.
pub modify-Step :
    {still : Bool} (f : FuncWriter → FuncWriter)
    → ((s : FuncWriter) → s.out ≡ (f s).out)
    → ((s : FuncWriter) → s.exceptions ≡ (f s).exceptions)
    → ((s : FuncWriter) → s.stack_frames ≡ (f s).stack_frames)
    → ((s : FuncWriter) → SameFrame still s (f s))
    → (before : List Ref) → Step still before (modify f) (λ _. [])
unfolding modify
modify-Step f same_out same_sites same_frames same before = record {
  steps = λ s s' u known bound h.
      let e = ap (λ p. p.1) (ok_injective h) in
      let sites = same_sites s ∙ ap (λ t. t.exceptions) e in
      let frames = same_frames s ∙ ap (λ t. t.stack_frames) e in
      let lines = same_out s ∙ ap (λ t. t.out) e in
      let grown : Grown s s' = (omega (arith, ap length sites), omega (arith, ap length frames)) in
      let all_refs = All-Grown s s' (refs s.out) grown known.0 in
      let all_sites = All-Grown s s' (map site_frame s.exceptions) grown known.1 in
      (
        (
          (
            subst (λ l. All (Bound s') (refs l)) lines all_refs,
            subst (λ l. All (Bound s') (map site_frame l)) sites all_sites,
          ),
          tt,
        ),
        (grown, subst (SameFrame _ s) e (same s)),
      );
}

pub new_local_label-Step : Plain new_local_label
unfolding new_local_label
new_local_label-Step still before = plain_bind (gets-Step _ still before) (λ label.
    plain_bind
      (modify-Step _ (λ s. refl) (λ s. refl) (λ s. refl) (λ s p. (refl, refl, refl)) before)
      (λ _. pure-Step label still before))

-- A change of the memories.
pub memories-Step :
    (f : FuncWriter → FuncWriter)
    → ((s : FuncWriter) → s.out ≡ (f s).out)
    → ((s : FuncWriter) → s.exceptions ≡ (f s).exceptions)
    → ((s : FuncWriter) → s.stack_frames ≡ (f s).stack_frames)
    → (before : List Ref) → Step false before (modify f) (λ _. [])
memories-Step f out sites frames = modify-Step f out sites frames (λ s p. cc)
