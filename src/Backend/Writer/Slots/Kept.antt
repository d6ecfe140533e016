-- ===== src/Backend/Writer/Slots/Kept.antt =====
-- backend/i386/writer.cpp, `FuncWriter`: where each operation of a method leaves the memories.
use joosc.Backend.Writer.{
  Context, Write, FuncWriter, StackFrame, StackEntry, setup_each, setup_params, write_prologue,
  write, wrong_nargs, expect, cur_stack,
}
use joosc.Backend.Writer.Func.{write_op, write_ops, new_writer}
use joosc.Backend.Writer.Steps.Func.{
  quiet_op-Step, write_op-Step, write_prologue-Step, setup_params-Step,
}
use joosc.Backend.Writer.Memory.{alloc_mem, erase_entry, pop_entry, dealloc_mem}
use joosc.Backend.Writer.Refs.{Known, refs}
use joosc.Backend.Writer.Slots.{
  IsLaid, param_slot, Apart, InFrame, IsLaid-Apart, IsLaid-InFrame, alloc-IsLaid, param-IsLaid,
  dealloc-IsLaid,
}
use joosc.Backend.Writer.Steps.{SameFrame}
use joosc.Common.{
  ℕ, suc, ◌≤◌, ◌≡◌, ◌≢◌, refl, sym, ap, subst, true, some, List, [], ◌∷◌, ◌==◌, ==_iff, ok, arith,
  slice,
}
use joosc.Common.Ends.{
  Ends, Ends-pure, Ends-gets, Ends-lift, Ends-modify, Ends-check_that, Ends->>=,
}
use joosc.Common.Integers.{ℤ, pos, negsuc, ◌-ℤ◌}
use joosc.Common.Maps.{get}
use joosc.Common.States.{◌>>◌}
use joosc.Ir.Size.{SizeClass}
use joosc.Ir.Stream.{OpType, Op, Stream}

abbrev pub Laid : FuncWriter → Type 0
Laid w = IsLaid w.stack_map w.cur_offset w.stack

Laid-Laid :
    (s s' : FuncWriter)
    → s.stack_map ≡ s'.stack_map
    → s.cur_offset ≡ s'.cur_offset
    → s.stack ≡ s'.stack
    → Laid s
    → Laid s'
Laid-Laid s s' e e1 e2 laid =
    subst (λ l. IsLaid s'.stack_map s'.cur_offset l) e2
      (subst (λ o. IsLaid s'.stack_map o s.stack) e1
        (subst (λ m. IsLaid m s.cur_offset s.stack) e laid))

SameFrame-Laid : (s s' : FuncWriter) → SameFrame true s s' → Laid s → Laid s'
SameFrame-Laid s s' same = Laid-Laid s s' (same refl).0 (same refl).1 (same refl).2

alloc_mem-Laid :
    (args : List ℕ) (s : FuncWriter) → Laid s → Ends (alloc_mem args) s (λ _ s'. Laid s')
unfolding alloc_mem cur_stack write wrong_nargs
alloc_mem-Laid (memid ∷ size_index ∷ is_immutable ∷ []) s laid = Ends->>= _ _ s _ (
    Ends-lift _ s _ (λ size e. Ends->>= _ _ s _ (
      Ends-gets _ s _ (
        Ends->>= _ _ s _ (
          Ends-modify _ s _ (
            Ends->>= _ _ _ _ (
              Ends-modify _ _ _ (
                Ends->>= _ _ _ _ (
                  Ends-gets _ _ _ (
                    Ends->>= _ _ _ _ (
                      Ends-lift _ _ _ (λ stack_map' new.
                        Ends-modify _ _ _ (alloc-IsLaid memid _ laid refl refl new)))))))))))))
alloc_mem-Laid _ s laid = search (Ends-lift)

-- Freeing takes the entry on top, and checks that it is the memory's.
popped-Laid :
    (memid : ℕ) (stack : List StackEntry) (s : FuncWriter)
    → stack ≡ s.stack
    → Laid s
    → Ends (pop_entry stack) s (λ entry s1.
      entry.id ≡ memid → IsLaid (erase_entry memid s1.stack_map) (s1.cur_offset -ℤ 4) s1.stack)
unfolding pop_entry
popped-Laid memid [] s same laid = Ends-lift _ s _ (λ a e. cc)
popped-Laid memid (entry ∷ stack) s same laid = Ends->>= _ _ s _ (
    Ends-modify _ s _ (
      Ends-pure entry _ _ (λ same_id.
        dealloc-IsLaid memid entry (subst (IsLaid s.stack_map s.cur_offset) (sym same) laid)
          same_id)))

dealloc_mem-Laid :
    (args : List ℕ) (s : FuncWriter) → Laid s → Ends (dealloc_mem args) s (λ _ s'. Laid s')
unfolding dealloc_mem expect write wrong_nargs
dealloc_mem-Laid (memid ∷ []) s laid = Ends->>= _ _ s _ (
    Ends-gets _ s _ (
      Ends->>= _ _ s _ (record {
        at_end = λ entry s1 e. Ends->>= _ _ s1 _ (
            Ends-check_that _ s1 _ (λ same. Ends->>= _ _ s1 _ (
              Ends-modify _ s1 _ (
                Ends->>= _ _ _ _ (
                  Ends-check_that _ _ _ (λ nonnegative. Ends-modify _ _ _ (
                    (popped-Laid memid s.stack s refl laid).at_end entry s1 e
                      ((==_iff entry.id memid).0 same))))))));
      })))
dealloc_mem-Laid _ s laid = search Ends-lift

write_op-Laid :
    (c : Context) (type : OpType) (args : List ℕ) (s : FuncWriter)
    → Known s
    → Laid s
    → Ends (write_op c type args) s (λ _ s'. Laid s')
unfolding write_op
write_op-Laid c OpType.alloc_mem args s known laid = alloc_mem-Laid args s laid
write_op-Laid c OpType.dealloc_mem args s known laid = dealloc_mem-Laid args s laid
write_op-Laid c type args s known laid = record {
  at_end = λ u s' e.
      SameFrame-Laid s s' ((quiet_op-Step c type args refl true []).steps s s' u known tt e).1.1
        laid;
}

pub write_ops-Laid :
    (c : Context) (args : List ℕ) (ops : List Op) (s : FuncWriter)
    → Known s
    → Laid s
    → Ends (write_ops c args ops) s (λ _ s'. Laid s')
unfolding write_ops
write_ops-Laid c args [] s known laid = Ends-pure tt s _ laid
write_ops-Laid c args (op ∷ ops) s known laid = Ends->>= _ _ s _ (record {
  at_end = λ u s1 e.
      write_ops-Laid c args ops s1
        ((write_op-Step c op.type (slice args op.begin op.end) []).steps s s1 u known tt e).0.0
        ((write_op-Laid c op.type (slice args op.begin op.end) s known laid).at_end u s1 e);
})

setup_each-Laid :
    (params : List SizeClass) (i : ℕ) (offset : ℤ) (s : FuncWriter)
    → 1 ≤ i
    → offset ≡ param_slot i
    → Laid s
    → Ends (setup_each params i offset) s (λ _ s'. Laid s')
unfolding setup_each ◌-ℤ◌
setup_each-Laid [] i offset s from at laid = Ends-pure tt s _ laid
setup_each-Laid (size ∷ params) i offset s from at laid = Ends->>= _ _ s _ (
    Ends-gets _ s _ (
      Ends->>= _ _ s _ (
        Ends-lift _ s _ (λ stack_map' new. Ends->>= _ _ s _ (
          Ends-modify _ s _ (
            setup_each-Laid params (suc i) (offset -ℤ 4) _ (omega (arith, from)) (next i at)
              (param-IsLaid i _ laid from refl at new)))))))
  where
    next : (i : ℕ) → offset ≡ param_slot i → offset -ℤ 4 ≡ param_slot (suc i)
    next i at = rw at (ap negsuc (omega arith))

-- The code of a method up to one of its operations.
abbrev pub write_until : Context → Stream → List Op → Write (Unit {0})
write_until c stream ops = do
  write_prologue stream
  setup_params stream
  write_ops c stream.args ops

write_until-Laid :
    (c : Context) (stream : Stream) (ops : List Op) (stack_frames : List StackFrame)
    → Ends (write_until c stream ops) (new_writer stack_frames []) (λ _ s'. Laid s')
unfolding refs setup_params
write_until-Laid c stream ops stack_frames =
    let s0 = new_writer stack_frames [] in
    Ends->>= _ _ s0 _ (record {
      at_end = λ u1 s1 e1.
          let ((known1, _), (_, same)) =
            (write_prologue-Step stream true []).steps s0 s1 u1 (tt, tt) tt e1 in
          Ends->>= _ _ s1 _ (record {
            at_end = λ u2 s2 e2.
                write_ops-Laid c stream.args ops s2
                  ((setup_params-Step stream []).steps s1 s2 u2 known1 tt e2).0.0
                  ((setup_each-Laid stream.params 1 (negsuc 11) s1 (omega arith) refl
                      (SameFrame-Laid s0 s1 same nothing)).at_end
                    u2 s2 e2);
          });
    })
  where
    nothing : IsLaid [] (pos 0) []
    nothing = record { depth = 0; at_depth = refl; piled = refl; placed = λ k e found. cc }

-- Whatever operations of a method were written, two memories that are live then have slots of four bytes
-- apart, and each slot lies among the bytes in use below the frame pointer, or in the caller's frame above
-- the frame pointer, the return address and the stack frame's address.
pub write_until-Apart :
    (c : Context) (stream : Stream) (ops : List Op) (stack_frames : List StackFrame)
    (w : FuncWriter) (k j : ℕ) (e f : StackEntry)
    → write_until c stream ops (new_writer stack_frames []) ≡ ok (tt, w)
    → get ◌==◌ k w.stack_map ≡ some e
    → get ◌==◌ j w.stack_map ≡ some f
    → k ≢ j
    → Apart e.offset f.offset × InFrame w.cur_offset e.offset
write_until-Apart c stream ops stack_frames w k j e f run at_k at_j differ =
    let laid = (write_until-Laid c stream ops stack_frames).at_end tt w run in
    (IsLaid-Apart laid k j e f at_k at_j differ, IsLaid-InFrame laid k e at_k)
