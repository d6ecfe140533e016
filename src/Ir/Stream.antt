-- ===== src/Ir/Stream.antt =====
-- ir/stream.h: the intermediate code of a method. The arguments of all operations stand in one vector,
-- of which an operation names its part.
use joosc.Common.{ℕ, Bool, List}
use joosc.Ir.Size.{SizeClass}

pub data OpType : Type 0 where
  alloc_mem dealloc_mem alloc_heap alloc_array label const const_str : OpType
  mov mov_addr mov_to_addr field_deref field_addr array_deref array_addr : OpType
  add sub mul div modulo jmp jmp_if lt leq eq not neg and or xor extend truncate : OpType
  instance_of cast_exception_if_false check_array_store static_call dynamic_call ret : OpType

-- `begin` and `end` are indices into the vector of arguments.
pub record Op : Type 0 where
  pub type : OpType
  pub begin : ℕ
  pub end : ℕ

pub record Stream : Type 0 where
  pub is_entry_point : Bool
  pub tid : ℕ
  pub mid : ℕ
  pub args : List ℕ
  pub ops : List Op
  pub params : List SizeClass
