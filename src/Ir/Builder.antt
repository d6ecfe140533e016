-- ===== src/Ir/Builder.antt =====
-- ir/stream_builder.h, ir/stream_builder.cpp, ir/mem.h, ir/mem.cpp, ir/mem_impl.h, ir/mem_impl.cpp: the
-- builder of a method's intermediate code. A `Mem` is its id, size and kind; its destructor is the
-- call of `dealloc_mem` where the last copy goes out of scope. The set `unassigned_` is a list.
pub mod Operations
pub mod Calls
use joosc.Ast.Ids.{TypeId}
use joosc.Base.{PosRange}
use joosc.Common.{
  ℕ, zero, suc, ◌+◌, ◌-◌, ◌%◌, ◌^◌, Bool, true, false, ◌&&◌, ◌||◌, List, [], ◌∷◌, ◌++◌, ltb, leb,
  ◌==◌, if◌then◌else◌, length, concat, map,
}
use joosc.Common.States.{Stateful, ◌>>=◌, ◌>>◌, pure, check_that, modify, gets}
use joosc.Ir.Size.{SizeClass, class_index}
use joosc.Ir.Stream.{OpType, Op, Stream}

abbrev pub invalid_mem_id : ℕ
invalid_mem_id = 0

abbrev pub first_mem_id : ℕ
first_mem_id = 1

pub record Mem : Type 0 where
  pub id : ℕ
  pub size : SizeClass
  pub immutable : Bool

unfoldable pub is_valid : Mem → Bool
is_valid m = if m.id == invalid_mem_id then false else true

abbrev pub same_size : SizeClass → SizeClass → Bool
same_size a b = class_index a == class_index b

pub record Builder : Type 0 where
  pub unassigned : List ℕ
  pub args : List ℕ
  pub ops : List Op
  pub params_initialized : Bool
  pub params : List SizeClass
  pub next_mem : ℕ
  pub next_label : ℕ

abbrev pub new_builder : Builder
new_builder = record {
  unassigned = [];
  args = [];
  ops = [];
  params_initialized = false;
  params = [];
  next_mem = first_mem_id;
  next_label = 0;
}

abbrev pub Build : Type 0 → Type 0
Build A = Stateful Builder A

abbrev pub u64 : ℕ → ℕ
u64 n = n % 2 ^ 64

abbrev pub bool_arg : Bool → ℕ
bool_arg true = 1
bool_arg false = 0

-- `std::set<u64>`: whether an id is there, and the set without it.
unfoldable pub contains : List ℕ → ℕ → Bool
contains [] i = false
contains (j ∷ s) i = i == j || contains s i

unfoldable pub erase : List ℕ → ℕ → List ℕ
erase [] i = []
erase (j ∷ s) i = let rest = erase s i in if i == j then rest else j ∷ rest

-- The loop of `AppendOp`, which pushes the arguments.
unfoldable pub push_args : List ℕ → Build (Unit {0})
push_args [] = pure tt
push_args (val ∷ vals) = do modify (λ b. record b { args = concat b.args val }); push_args vals

unfoldable pub push_op : OpType → ℕ → Build (Unit {0})
push_op type begin = modify (λ b. record b {
  ops = concat b.ops (record { type = type; begin = begin; end = length b.args });
})

unfoldable pub append_op : OpType → List ℕ → Build (Unit {0})
unfolding push_args push_op
append_op type args = do begin ← gets (λ b. length b.args); push_args args; push_op type begin

unfoldable pub assert_assigned : List Mem → Build (Unit {0})
unfolding contains
assert_assigned [] = pure tt
assert_assigned (mem ∷ mems) = do
  check_that (λ b. if contains b.unassigned mem.id then false else true)
  assert_assigned mems

unfoldable pub set_assigned : List Mem → Build (Unit {0})
unfolding contains erase is_valid
set_assigned [] = pure tt
set_assigned (mem ∷ mems) = do
  check_that (λ b. is_valid mem)
  written ← gets (λ b. if contains b.unassigned mem.id then false else true)
  modify (λ b. record b { unassigned = erase b.unassigned mem.id })
  check_that (λ b. if mem.immutable && written then false else true)
  set_assigned mems

-- `unassigned_.insert(mid)` with the check that `mid` is new.
unfoldable pub insert_unassigned : ℕ → Build (Unit {0})
unfolding contains
insert_unassigned mid = do
  check_that (λ b. if contains b.unassigned mid then false else true)
  modify (λ b. record b { unassigned = mid ∷ b.unassigned })

unfoldable pub alloc_mem : SizeClass → Bool → Build Mem
unfolding insert_unassigned append_op
alloc_mem size immutable = do
  check_that (λ b. b.params_initialized)
  mid ← gets (λ b. b.next_mem)
  modify (λ b. record b { next_mem = u64 (suc b.next_mem) })
  insert_unassigned mid
  append_op OpType.alloc_mem (mid ∷ class_index size ∷ bool_arg immutable ∷ [])
  pure (record { id = mid; size = size; immutable = immutable })

unfoldable pub dealloc_assigned : ℕ → Build (Unit {0})
unfolding contains append_op
dealloc_assigned mid = do
  check_that (λ b. if contains b.unassigned mid then false else true)
  append_op OpType.dealloc_mem (mid ∷ [])

unfoldable pub dealloc_mem : ℕ → Build (Unit {0})
unfolding dealloc_assigned
dealloc_mem mid = do
  count ← gets (λ b. length b.params)
  if leb mid count then pure tt else dealloc_assigned mid

unfoldable pub alloc_temp : SizeClass → Build Mem
unfolding alloc_mem
alloc_temp size = alloc_mem size true

unfoldable pub alloc_dummy : Build Mem
alloc_dummy = pure (record { id = invalid_mem_id; size = SizeClass.bool; immutable = true })

unfoldable pub alloc_local : SizeClass → Build Mem
unfolding alloc_mem
alloc_local size = alloc_mem size false

-- The loop of `AllocParams`.
unfoldable pub alloc_each : List SizeClass → Build (List Mem)
alloc_each [] = pure []
alloc_each (size ∷ sizes) = do
  mid ← gets (λ b. b.next_mem)
  modify (λ b. record b { next_mem = u64 (suc b.next_mem) })
  out ← alloc_each sizes
  pure (record { id = mid; size = size; immutable = false } ∷ out)

unfoldable pub alloc_params : List SizeClass → Build (List Mem)
unfolding alloc_each
alloc_params sizes = do
  check_that (λ b. if b.params_initialized then false else true)
  modify (λ b. record b { params_initialized = true })
  out ← alloc_each sizes
  modify (λ b. record b { params = sizes })
  check_that (λ b. b.next_mem == suc (length b.params))
  pure out

unfoldable pub alloc_label : Build ℕ
alloc_label = do
  lid ← gets (λ b. b.next_label)
  modify (λ b. record b { next_label = u64 (suc b.next_label) })
  pure lid

-- `Build`.
unfoldable pub build : Bool → ℕ → ℕ → Build Stream
build is_entry_point tid mid = do
  check_that (λ b. b.params_initialized)
  gets (λ b. record {
    is_entry_point = is_entry_point;
    tid = tid;
    mid = mid;
    args = b.args;
    ops = b.ops;
    params = b.params;
  })
