-- ===== src/Backend/Writer/Labels.antt =====
-- backend/i386/writer.cpp, `WriteEpilogue` and `Writer::WriteFunc`: the code of a method's exceptions.
use joosc.Backend.Asm.{Line, col0, col1}
use joosc.Backend.Writer.{
  Context, FuncWriter, StackFrame, ExceptionSite, setup_params, write_prologue, exception_lines,
  write_epilogue,
}
use joosc.Backend.Writer.Func.{write_ops, new_writer, write_func}
use joosc.Backend.Writer.Steps.Func.{write_prologue-Step, setup_params-Step, write_ops-Step}
use joosc.Backend.Writer.Refs.{
  Ref, jumps_to, names_frame, defines, labels, refs, Bound, Known, site_frame,
}
use joosc.Backend.Writer.Steps.{refs-append}
use joosc.Common.{
  ℕ, zero, suc, ◌+◌, ◌≤◌, ◌<◌, ◌≡◌, ◌⊎◌, refl, sym, ap, ◌∙◌, subst, false, List, [], ◌∷◌, ◌++◌,
  append_assoc, append-nil, length, map, Memᴰ, All, All-append, All-append_inv, ok, ok_injective,
  inl, inr, arith,
}
use joosc.Common.States.{◌>>=◌, modify, gets, >>=-eq-ok}
use joosc.Ir.Stream.{Stream}

-- The numbers from `i` on.
unfoldable pub upto : ℕ → ℕ → List ℕ
upto i zero = []
upto i (suc n) = i ∷ upto (suc i) n

mem-upto : (n i k : ℕ) → i ≤ k → k < i + n → Memᴰ k (upto i n)
unfolding upto
mem-upto zero i k from below = absurd (omega (arith, from, below))
mem-upto (suc n) i k from below = elim (later i k from) [
  | inl here ↦ Memᴰ.head here
  | inr above ↦ Memᴰ.tail (mem-upto n (suc i) k above (omega (arith, below)))
]
  where
    later : (i k : ℕ) → i ≤ k → (k ≡ i) ⊎ (suc i ≤ k)
    later i k h = omega (arith, h)

-- What is spoken of in a method's finished code is there: the code of an exception that a line jumps to,
-- and the frame that a line names.
abbrev pub Resolved : FuncWriter → Ref → Type 0
Resolved w (Ref.exception n) = Memᴰ n (labels w.out)
Resolved w (Ref.frame n) = n < length w.stack_frames
Resolved w (Ref.defined n) = Unit

labels-append : (xs ys : List Line) → labels (xs ++ ys) ≡ labels xs ++ labels ys
unfolding labels
labels-append [] ys = refl
labels-append (x ∷ xs) ys = simp (append_assoc, labels-append xs ys)

none_defined : (s : FuncWriter) (ns : List ℕ) → All (Bound s) (map Ref.defined ns) → ns ≡ []
none_defined s [] h = refl
none_defined s (n ∷ ns) h = absurd h.0

-- Before the epilogue no line begins an exception's code.
labels_before :
    (s : FuncWriter) (lines : List Line) → All (Bound s) (refs lines) → labels lines ≡ []
unfolding labels refs
labels_before s [] h = refl
labels_before s (x ∷ xs) h =
    let after_jumps = (All-append_inv (Bound s) (jumps_to x) _ h).1 in
    let after_frames = (All-append_inv (Bound s) (names_frame x) _ after_jumps).1 in
    let (here, rest) =
      All-append_inv (Bound s) (map Ref.defined (defines x)) (refs xs) after_frames in
    ap (λ ls. ls ++ labels xs) (none_defined s (defines x) here) ∙ labels_before s xs rest

labels-exception_lines :
    (i : ℕ) (es : List ExceptionSite) → labels (exception_lines i es) ≡ upto i (length es)
unfolding labels defines exception_lines upto
labels-exception_lines i [] = refl
labels-exception_lines i (e ∷ es) = ap (i ∷◌) (labels-exception_lines (suc i) es)

exception_lines-Resolved :
    (w : FuncWriter) (i : ℕ) (es : List ExceptionSite)
    → All (Bound w) (map site_frame es)
    → All (Resolved w) (refs (exception_lines i es))
unfolding refs jumps_to names_frame defines exception_lines
exception_lines-Resolved w i [] h = tt
exception_lines-Resolved w i (e ∷ es) h = (tt, (h.0, exception_lines-Resolved w (suc i) es h.1))

Bound-Resolved :
    (s w : FuncWriter)
    → s.stack_frames ≡ w.stack_frames
    → upto 0 (length s.exceptions) ≡ labels w.out
    → (rs : List Ref) → All (Bound s) rs
    → All (Resolved w) rs
Bound-Resolved s w frames all_labels [] h = tt
Bound-Resolved s w frames all_labels (Ref.exception n ∷ rs) h = (
  subst (Memᴰ n) all_labels (mem-upto (length s.exceptions) 0 n (omega arith) (omega (arith, h.0))),
  Bound-Resolved s w frames all_labels rs h.1,
)
Bound-Resolved s w frames all_labels (Ref.frame n ∷ rs) h =
    (subst (λ fs. n < length fs) frames h.0, Bound-Resolved s w frames all_labels rs h.1)
Bound-Resolved s w frames all_labels (Ref.defined n ∷ rs) h = absurd h.0

abbrev pub Finished : FuncWriter → Type 0
Finished w = All (Resolved w) (refs w.out) × (labels w.out ≡ upto 0 (length w.exceptions))

-- The lines of the epilogue.
abbrev epilogue_lines : List ExceptionSite → List Line
epilogue_lines es =
    (col0 ".epilogue:" [] ∷ col1 "pop ebp" [] ∷ col1 "ret\n" [] ∷ [])
    ++ (exception_lines 0 es ++ col0 "\n" [] ∷ [])

write_epilogue-eq-ok :
    (s w : FuncWriter) (u : Unit {0})
    → write_epilogue s ≡ ok (u, w)
    → record s { out = s.out ++ epilogue_lines s.exceptions } ≡ w
unfolding write_epilogue gets modify ◌>>=◌
write_epilogue-eq-ok s w u h =
    ap (λ ls. record s { out = ls }) (simp append_assoc) ∙ ap (λ p. p.1) (ok_injective h)

epilogue-Finished :
    (s w : FuncWriter)
    → Known s
    → record s { out = s.out ++ epilogue_lines s.exceptions } ≡ w
    → Finished w
unfolding refs jumps_to names_frame defines labels
epilogue-Finished s w known e = subst Finished e (all_resolved, all_labels)
  where
    t : FuncWriter
    t = record s { out = s.out ++ epilogue_lines s.exceptions }

    sites : labels (epilogue_lines s.exceptions) ≡ upto 0 (length s.exceptions)
    sites =
        labels-append (exception_lines 0 s.exceptions) (col0 "\n" [] ∷ [])
        ∙ (append-nil _ ∙ labels-exception_lines 0 s.exceptions)

    all_labels : labels t.out ≡ upto 0 (length s.exceptions)
    all_labels =
        labels-append s.out (epilogue_lines s.exceptions)
        ∙ (ap (λ ls. ls ++ labels (epilogue_lines s.exceptions)) (labels_before s s.out known.0)
            ∙ sites)

    all_resolved : All (Resolved t) (refs t.out)
    all_resolved =
        subst (All (Resolved t)) (sym (refs-append s.out (epilogue_lines s.exceptions))) (
          All-append (Resolved t) (refs s.out) (refs (epilogue_lines s.exceptions))
            (Bound-Resolved s t refl (sym all_labels) (refs s.out) known.0)
            (subst (All (Resolved t))
              (sym (refs-append (exception_lines 0 s.exceptions) (col0 "\n" [] ∷ [])))
              (All-append (Resolved t) (refs (exception_lines 0 s.exceptions)) []
                (exception_lines-Resolved t 0 s.exceptions known.1) tt)))

-- In the code of a method, on the frames of the methods before it, the lines `.eN:` are numbered from 0
-- on, one for each exception site; every line that jumps to a `.eN` jumps to one of them; and every stack
-- frame that a line names has been made.
pub write_func-Finished :
    (c : Context) (stream : Stream) (stack_frames : List StackFrame) (w : FuncWriter)
    → write_func c stream (new_writer stack_frames []) ≡ ok (tt, w)
    → Finished w
unfolding write_func refs
write_func-Finished c stream stack_frames w h =
    let s0 = new_writer stack_frames [] in
    let (u1, s1, e1, h1) = >>=-eq-ok (write_prologue stream) _ s0 w tt h in
    let (u2, s2, e2, h2) = >>=-eq-ok (setup_params stream) _ s1 w tt h1 in
    let (u3, s3, e3, h3) = >>=-eq-ok (write_ops c stream.args stream.ops) _ s2 w tt h2 in
    let known1 = ((write_prologue-Step stream false []).steps s0 s1 u1 (tt, tt) tt e1).0.0 in
    let known2 = ((setup_params-Step stream []).steps s1 s2 u2 known1 tt e2).0.0 in
    let known3 = ((write_ops-Step c stream.args stream.ops []).steps s2 s3 u3 known2 tt e3).0.0 in
    epilogue-Finished s3 w known3 (write_epilogue-eq-ok s3 w tt h3)
