-- ===== src/Ir/Script/Gives.antt =====
-- How a builder's computation changes the draft of its state, and the primitives of
-- ir/stream_builder.cpp, one by one.
use joosc.Common.{
  ℕ, ◌≡◌, refl, sym, ap, ap₂, ◌∙◌, subst, Bool, List, [], ◌∷◌, ◌++◌, length, concat, All,
  All-append, length-append, slice-append, slice-appended, append-nil, append_assoc, ok, arith,
  ok_injective,
}
use joosc.Common.States.{feed, ◌>>=◌, pure, check_that, modify, gets, >>=-eq-ok, check_that-eq-ok}
use joosc.Ir.Builder.{Builder, Build, push_args, push_op, append_op}
use joosc.Ir.Script.Draft.{Draft, Within, draft, reading, listing, add_code, one}
use joosc.Ir.Stream.{OpType, Op}

abbrev pub Fits : Builder → Type 0
Fits b = All (Within b.args) b.ops

-- A run of the computation that gives a value changes the draft by `f`, and the value is `r` of it.
pub record Gives {A : Type 0} (m : Build A) (f : Draft → Draft) (r : Draft → A) : Type 0 where
  pub gives :
      (s s' : Builder) (a : A)
      → Fits s
      → m s ≡ ok (a, s')
      → Fits s' × (draft s' ≡ f (draft s)) × (a ≡ r (draft s))

abbrev pub Does : Build (Unit {0}) → (Draft → Draft) → Type 0
Does m f = Gives m f (λ _. tt)

pub >>=-Gives :
    {A B : Type 0} {m : Build A} {k : A → Build B} {f : Draft → Draft} {r : Draft → A}
    {g : A → Draft → Draft} {q : A → Draft → B}
    → Gives m f r
    → ((a : A) → Gives (k a) (g a) (q a))
    → Gives (m >>= k) (λ d. g (r d) (f d)) (λ d. q (r d) (f d))
>>=-Gives {A} {B} {m} {k} {f} {r} {g} {q} hm hk = record {
  gives = λ s s' b fits h.
      let (a, s1, e1, e2) = >>=-eq-ok m k s s' b h in
      let (fits1, same1, val1) = hm.gives s s1 a fits e1 in
      let (fits2, same2, val2) = (hk a).gives s1 s' b fits1 e2 in
      (fits2, same2 ∙ ap₂ g val1 same1, val2 ∙ ap₂ q val1 same1);
}

-- A computation that is known in closed form.
pub closed-Gives :
    {A : Type 0} (m : Build A) (f : Draft → Draft) (r : Draft → A) (value : Builder → A)
    (after : Builder → Builder)
    → ((s : Builder) → Fits s → m s ≡ ok (value s, after s))
    → ((s : Builder)
        → Fits s
        → Fits (after s) × (draft (after s) ≡ f (draft s)) × (value s ≡ r (draft s)))
    → Gives m f r
closed-Gives m f r value after form does = record {
  gives = λ s s' a fits h.
      let pair_same = ok_injective (sym (form s fits) ∙ h) in
      let state_same : after s ≡ s' = ap (λ p. p.1) pair_same in
      let (fits', draft_same, value_r) = does s fits in
      (
        subst Fits state_same fits',
        ap draft (sym state_same) ∙ draft_same,
        ap (λ p. p.0) (sym pair_same) ∙ value_r,
      );
}

pub pure-Gives : {A : Type 0} {a : A} → Gives (pure a) (λ d. d) (λ _. a)
unfolding pure
pure-Gives {A} {a} =
    closed-Gives (pure a) (λ d. d) (λ _. a) (λ _. a) (λ s. s) (λ s fits. refl)
      (λ s fits. (fits, refl, refl))

pub check_that-Gives : (p : Builder → Bool) → Does (check_that p) (λ d. d)
check_that-Gives p = record {
  gives = λ s s' a fits h.
      let state_same : s ≡ s' = (check_that-eq-ok p s s' a h).1 in
      (subst Fits state_same fits, ap draft (sym state_same), refl);
}

-- A part of the state that the draft has.
pub gets-Gives :
    {A : Type 0} (get : Builder → A) (r : Draft → A)
    → ((s : Builder) → get s ≡ r (draft s))
    → Gives (gets get) (λ d. d) r
unfolding gets
gets-Gives get r same =
    closed-Gives (gets get) (λ d. d) r get (λ s. s) (λ s fits. refl)
      (λ s fits. (fits, refl, same s))

-- A change that leaves the operations and their arguments.
pub modify-Does :
    (change : Builder → Builder) (f : Draft → Draft)
    → ((s : Builder) → Fits s → Fits (change s) × (draft (change s) ≡ f (draft s)))
    → Does (modify change) f
unfolding modify
modify-Does change f does =
    closed-Gives (modify change) f (λ _. tt) (λ _. tt) change (λ s fits. refl)
      (λ s fits. ((does s fits).0, (does s fits).1, refl))

-- The arguments that are pushed.
abbrev pub pushed : List ℕ → Builder → Builder
pushed vals s = record s { args = s.args ++ vals }

pub push_args-closed : (vals : List ℕ) (s : Builder) → push_args vals s ≡ ok (tt, pushed vals s)
unfolding push_args pure ◌>>=◌ modify
push_args-closed [] s = ap (λ xs. ok (tt, record s { args = xs })) (sym (append-nil s.args))
push_args-closed (val ∷ vals) s =
    push_args-closed vals (record s { args = concat s.args val })
    ∙ ap (λ xs. ok (tt, record s { args = xs })) (append_assoc s.args (val ∷ []) vals)

listing-append :
    (ops : List Op) (args vals : List ℕ)
    → All (Within args) ops
    → listing (args ++ vals) ops ≡ listing args ops
listing-append [] args vals h = refl
listing-append (op ∷ ops) args vals h =
    ap₂ (λ xs is. (op.type, xs) ∷ is) (slice-append args vals op.begin op.end h.0.0 h.0.1)
      (listing-append ops args vals h.1)

Within-append :
    (ops : List Op) (args vals : List ℕ) → All (Within args) ops → All (Within (args ++ vals)) ops
Within-append [] args vals h = tt
Within-append (op ∷ ops) args vals h =
    ((h.0.0, omega (arith, h.0.1, length-append args vals)), Within-append ops args vals h.1)

listing-concat :
    (args : List ℕ) (ops : List Op) (op : Op)
    → listing args (concat ops op) ≡ listing args ops ++ reading args op ∷ []
listing-concat args [] op = refl
listing-concat args (o ∷ ops) op = ap (λ is. reading args o ∷ is) (listing-concat args ops op)

-- The builder with one more operation, which has the last of the arguments.
abbrev pub appended : OpType → List ℕ → Builder → Builder
appended type vals s = record s {
  args = s.args ++ vals;
  ops = concat s.ops (record { type = type; begin = length s.args; end = length (s.args ++ vals) });
}

pub appended-Fits :
    (type : OpType) (vals : List ℕ) (s : Builder)
    → Fits s
    → Fits (appended type vals s)
      × (draft (appended type vals s) ≡ add_code (one type vals) (draft s))
appended-Fits type vals s fits = (
  All-append (Within (s.args ++ vals)) s.ops _ (Within-append s.ops s.args vals fits)
      ((omega (arith, length-append s.args vals), omega arith), tt),
  ap (λ is. record { next_mem = s.next_mem; params = length s.params; code = is })
      (listing-concat (s.args ++ vals) s.ops _
        ∙ ap₂ (λ is xs. is ++ one type xs) (listing-append s.ops s.args vals fits)
            (slice-appended s.args vals)),
)

pub append_op-closed :
    (type : OpType) (vals : List ℕ) (s : Builder)
    → append_op type vals s ≡ ok (tt, appended type vals s)
unfolding append_op push_op ◌>>=◌ gets modify
append_op-closed type vals s =
    ap (feed (λ _. push_op type (length s.args))) (push_args-closed vals s)

pub append_op-Does :
    (type : OpType) (vals : List ℕ) → Does (append_op type vals) (add_code (one type vals))
append_op-Does type vals =
    closed-Gives (append_op type vals) (add_code (one type vals)) (λ _. tt) (λ _. tt)
      (appended type vals) (λ s fits. append_op-closed type vals s)
      (λ s fits. ((appended-Fits type vals s fits).0, (appended-Fits type vals s fits).1, refl))
