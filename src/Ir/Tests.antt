-- ===== src/Ir/Tests.antt =====
-- The builder on a few calls.
use joosc.Common.{◌≡◌, refl, true, false, List, [], ◌∷◌, ok, thrown, Exn, All}
use joosc.Ir.Builder.{Builder, Mem, new_builder, contains, is_valid}
use joosc.Ir.Script.{Call, perform}
use joosc.Ir.Script.Refusing.{Names}
use joosc.Ir.Script.Written.{writes, perform-written_twice}
use joosc.Ir.Script.Unassigned.{reads, perform-unassigned}
use joosc.Ir.Script.Built.{stream_of, Readable, build-refines, build-Readable}
use joosc.Ir.Script.Draft.{Within, listing, draft_steps, new_draft}
use joosc.Common.States.{◌>>=◌, check_that, modify, gets, pure}
use joosc.Ir.Size.{SizeClass, class_index}
use joosc.Ir.Stream.{OpType, Stream}

abbrev param : Mem
param = record { id = 1; size = SizeClass.int; immutable = false }

abbrev temp : Mem
temp = record { id = 2; size = SizeClass.bool; immutable = true }

-- bool differs(int x) { return x != x; }
abbrev calls : List Call
calls =
    Call.alloc_params (SizeClass.int ∷ [])
    ∷ Call.alloc_temp SizeClass.bool
    ∷ Call.neq temp param param
    ∷ []

abbrev stream : Stream
stream = record {
  is_entry_point = false;
  tid = 20;
  mid = 5;
  args = 2 ∷ 0 ∷ 1 ∷ 3 ∷ 0 ∷ 1 ∷ 3 ∷ 1 ∷ 1 ∷ 2 ∷ 3 ∷ 3 ∷ [];
  ops =
      record { type = OpType.alloc_mem; begin = 0; end = 3 }
      ∷ record { type = OpType.alloc_mem; begin = 3; end = 6 }
      ∷ record { type = OpType.eq; begin = 6; end = 9 }
      ∷ record { type = OpType.not; begin = 9; end = 11 }
      ∷ record { type = OpType.dealloc_mem; begin = 11; end = 12 }
      ∷ [];
  params = SizeClass.int ∷ [];
}

abbrev final : Builder
final = record {
  unassigned = [];
  args = stream.args;
  ops = stream.ops;
  params_initialized = true;
  params = SizeClass.int ∷ [];
  next_mem = 4;
  next_label = 0;
}

calls-stream : stream_of calls false 20 5 new_builder ≡ ok (stream, final)
unfolding stream_of ◌>>=◌ check_that modify gets pure class_index
calls-stream = refl

build-refines_example :
    All (Within stream.args) stream.ops
    × (listing stream.args stream.ops ≡ (draft_steps calls new_draft).code)
build-refines_example = build-refines calls false 20 5 stream final calls-stream

build-Readable_example : Readable (listing stream.args stream.ops)
build-Readable_example = build-Readable calls false 20 5 stream final calls-stream

-- The temporary is allocated, and nothing is written to it.
abbrev before : Builder
before = record {
  unassigned = 2 ∷ [];
  args = 2 ∷ 0 ∷ 1 ∷ [];
  ops = record { type = OpType.alloc_mem; begin = 0; end = 3 } ∷ [];
  params_initialized = true;
  params = SizeClass.int ∷ [];
  next_mem = 3;
  next_label = 0;
}

perform-unassigned_example : perform (Call.mov param temp) before ≡ thrown Exn.check_failed
unfolding reads contains
perform-unassigned_example =
    perform-unassigned (Call.mov param temp) 2 before (Names.here refl) (λ u. elim u [ ]) refl

perform-written_twice_example :
    perform
      (Call.static_call temp 20 6 (param ∷ []) (record { fileid = 0; begin = 7; end = 9 }))
      final
    ≡ thrown Exn.check_failed
unfolding writes contains is_valid
perform-written_twice_example =
    perform-written_twice
      (Call.static_call temp 20 6 (param ∷ []) (record { fileid = 0; begin = 7; end = 9 })) temp
      final refl refl refl refl
