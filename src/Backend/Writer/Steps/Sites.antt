-- ===== src/Backend/Writer/Steps/Sites.antt =====
-- backend/i386/writer.cpp, `MakeStackFrame` and `MakeException`: the frame and the site that they make are
-- there from then on.
use joosc.Backend.Writer.{
  Context, Write, FuncWriter, StackFrame, ExceptionSite, ExceptionType, offset_to_line,
  make_stack_frame, make_exception,
}
use joosc.Backend.Writer.Refs.{Ref, refs, Bound, Known, site_frame}
use joosc.Backend.Writer.Steps.{
  Grown, Grown-Grown, All-Grown, Step, >>=-Step, plain_bind, if-Step, write_none-Step,
  write_first-Step, write_twice-Step, find_entry-Step, cur_stack-Step, expect-Step, check_that-Step,
  pure-Step, lift-Step, new_local_label-Step, wrong_nargs-Step,
}
use joosc.Common.{
  ℕ, ◌<◌, ◌≡◌, refl, sym, ap, ◌∙◌, subst, Bool, List, [], ◌∷◌, ◌++◌, length, length-append, concat,
  map, All, All-append, ok, thrown, Outcome, ok_injective, arith,
}
use joosc.Common.States.{◌>>=◌, ◌>>◌, pure, modify, gets, lift, >>=-eq-ok}

map-concat :
    (es : List ExceptionSite) (e : ExceptionSite)
    → map site_frame (concat es e) ≡ map site_frame es ++ site_frame e ∷ []
map-concat [] e = refl
map-concat (x ∷ es) e = ap (site_frame x ∷◌) (map-concat es e)

abbrev with_frame : FuncWriter → StackFrame → FuncWriter
with_frame s frame = record s { stack_frames = concat s.stack_frames frame }

abbrev with_site : FuncWriter → ExceptionSite → FuncWriter
with_site s site = record s { exceptions = concat s.exceptions site }

with_frame-Grown : (s : FuncWriter) (frame : StackFrame) → Grown s (with_frame s frame)
with_frame-Grown s frame = (omega arith, omega (arith, length-append s.stack_frames (frame ∷ [])))

with_frame-Known : (s : FuncWriter) (frame : StackFrame) → Known s → Known (with_frame s frame)
with_frame-Known s frame known = (
  All-Grown s (with_frame s frame) (refs s.out) (with_frame-Grown s frame) known.0,
  All-Grown s (with_frame s frame) (map site_frame s.exceptions) (with_frame-Grown s frame) known.1,
)

with_site-Grown : (s : FuncWriter) (site : ExceptionSite) → Grown s (with_site s site)
with_site-Grown s site = (omega (arith, length-append s.exceptions (site ∷ [])), omega arith)

with_site-Known :
    (s : FuncWriter) (site : ExceptionSite)
    → site.stack_frame_id < length s.stack_frames
    → Known s
    → Known (with_site s site)
with_site-Known s site bound known =
    let t = with_site s site in
    let grown = with_site-Grown s site in
    let sites =
      All-append (Bound t) (map site_frame s.exceptions) (site_frame site ∷ [])
        (All-Grown s t (map site_frame s.exceptions) grown known.1) (bound, tt) in
    (
      All-Grown s t (refs s.out) grown known.0,
      subst (All (Bound t)) (sym (map-concat s.exceptions site)) sites,
    )

-- What the two operations do to the state.
frame_made :
    (o : Outcome ℕ) (f : ℕ → StackFrame) (s s' : FuncWriter) (n : ℕ)
    → (lift o >>= λ line. gets (λ w. length w.stack_frames) >>= λ frame_idx.
          modify (λ w. record w { stack_frames = concat w.stack_frames (f line) })
          >> pure frame_idx)
        s
      ≡ ok (n, s')
    → (frame : StackFrame) × (length s.stack_frames ≡ n) × (with_frame s frame ≡ s')
unfolding lift gets modify pure ◌>>=◌
frame_made (ok line) f s s' n h =
    (f line, ap (λ p. p.0) (ok_injective h), ap (λ p. p.1) (ok_injective h))
frame_made (thrown e) f s s' n h = cc

site_made :
    (m : Write ℕ) (type : ExceptionType) (s s' : FuncWriter) (n : ℕ)
    → (gets (λ w. length w.exceptions) >>= λ id. m >>= λ stack_frame.
          modify (λ w. record w {
            exceptions = concat w.exceptions (record { type = type; stack_frame_id = stack_frame });
          })
          >> pure id)
        s
      ≡ ok (n, s')
    → (i : ℕ) × (s1 : FuncWriter) × (length s.exceptions ≡ n)
      × (m s ≡ ok (i, s1))
      × (with_site s1 (record { type = type; stack_frame_id = i }) ≡ s')
unfolding gets modify pure
site_made m type s s' n h =
    let (id, s0, e0, h0) = >>=-eq-ok (gets (λ w. length w.exceptions)) _ s s' n h in
    let (i, s1, e1, h1) = >>=-eq-ok m _ s0 s' n h0 in
    let (u, s2, e2, h2) =
      >>=-eq-ok
        (modify (λ w. record w {
          exceptions = concat w.exceptions (record { type = type; stack_frame_id = i });
        }))
        _ s1 s' n h1 in
    (
      i,
      s1,
      ap (λ p. p.0) (ok_injective e0) ∙ ap (λ p. p.0) (ok_injective h2),
      ap m (ap (λ p. p.1) (ok_injective e0)) ∙ e1,
      ap (λ p. p.1) (ok_injective e2) ∙ ap (λ p. p.1) (ok_injective h2),
    )

module _ (c : Context) where
  frame_of :
      (file_offset : ℕ) (s s' : FuncWriter) (n : ℕ)
      → make_stack_frame c file_offset s ≡ ok (n, s')
      → (frame : StackFrame) × (length s.stack_frames ≡ n) × (with_frame s frame ≡ s')
  unfolding make_stack_frame
  frame_of file_offset =
      frame_made (offset_to_line c file_offset) (λ line. record c.frame { line = line })

  site_of :
      (type : ExceptionType) (file_offset : ℕ) (s s' : FuncWriter) (n : ℕ)
      → make_exception c type file_offset s ≡ ok (n, s')
      → (frame : StackFrame) × (length s.exceptions ≡ n)
        × (with_site
              (with_frame s frame)
              (record { type = type; stack_frame_id = length s.stack_frames })
            ≡ s')
  unfolding make_exception
  site_of type file_offset s s' n h =
      let (i, s1, e0, e1, e2) = site_made (make_stack_frame c file_offset) type s s' n h in
      let (frame, e3, e4) = frame_of file_offset s s1 i e1 in
      (
        frame,
        e0,
        ap (λ j. with_site (with_frame s frame) (record { type = type; stack_frame_id = j })) e3
            ∙ (ap (λ t. with_site t (record { type = type; stack_frame_id = i })) e4 ∙ e2),
      )

  -- The frame that is made is there.
  pub make_stack_frame-Step :
      (file_offset : ℕ) (still : Bool) (before : List Ref)
      → Step still before (make_stack_frame c file_offset) (λ n. Ref.frame n ∷ [])
  make_stack_frame-Step file_offset still before = record {
    steps = λ s s' n known bound h.
        let (frame, e0, e) = frame_of file_offset s s' n h in
        let grown = with_frame-Grown s frame in
        (
          (
            subst Known e (with_frame-Known s frame known),
            (
              subst (λ w. n < length w.stack_frames) e
                  (omega (arith, e0, length-append s.stack_frames (frame ∷ []))),
              tt,
            ),
          ),
          (
            subst (Grown s) e grown,
            λ p. (ap (λ t. t.stack_map) e, ap (λ t. t.cur_offset) e, ap (λ t. t.stack) e),
          ),
        );
  }

  -- The exception that is made is there, and its frame.
  pub make_exception-Step :
      (type : ExceptionType) (file_offset : ℕ) (still : Bool) (before : List Ref)
      → Step still before (make_exception c type file_offset) (λ n. Ref.exception n ∷ [])
  make_exception-Step type file_offset still before = record {
    steps = λ s s' n known bound h.
        let (frame, e0, e) = site_of type file_offset s s' n h in
        let s1 = with_frame s frame in
        let site : ExceptionSite = record { type = type; stack_frame_id = length s.stack_frames } in
        let known1 = with_frame-Known s frame known in
        let known2 =
          with_site-Known s1 site (omega (arith, length-append s.stack_frames (frame ∷ [])))
            known1 in
        let grown =
          Grown-Grown s s1 (with_site s1 site) (with_frame-Grown s frame)
            (with_site-Grown s1 site) in
        (
          (
            subst Known e known2,
            (
              subst (λ w. n < length w.exceptions) e
                  (omega (arith, e0, length-append s.exceptions (site ∷ []))),
              tt,
            ),
          ),
          (
            subst (Grown s) e grown,
            λ p. (ap (λ t. t.stack_map) e, ap (λ t. t.cur_offset) e, ap (λ t. t.stack) e),
          ),
        );
  }

  -- The rest of a block, which may speak of it.
  pub make_stack_frame_bind :
      (file_offset : ℕ) {still : Bool} {B : Type 0} {before : List Ref} {k : ℕ → Write B}
      {last : B → List Ref}
      → ((n : ℕ) → Step still (Ref.frame n ∷ before) (k n) last)
      → Step still before (make_stack_frame c file_offset >>= k) last
  make_stack_frame_bind file_offset hk = >>=-Step _ (make_stack_frame-Step file_offset _ _) hk

  pub make_exception_bind :
      (type : ExceptionType) (file_offset : ℕ) {still : Bool} {B : Type 0} {before : List Ref}
      {k : ℕ → Write B} {last : B → List Ref}
      → ((n : ℕ) → Step still (Ref.exception n ∷ before) (k n) last)
      → Step still before (make_exception c type file_offset >>= k) last
  make_exception_bind type file_offset hk = >>=-Step _ (make_exception-Step type file_offset _ _) hk

pub ruleset steps_rules = (
  plain_bind, make_stack_frame_bind, make_exception_bind, write_none-Step, write_first-Step,
  write_twice-Step, find_entry-Step, cur_stack-Step, expect-Step, check_that-Step, pure-Step,
  lift-Step, new_local_label-Step, wrong_nargs-Step, if-Step,
)
