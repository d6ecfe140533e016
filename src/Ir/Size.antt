-- ===== src/Ir/Size.antt =====
-- ir/size.h, ir/size.cpp: how much memory a value takes.
use joosc.Ast.Ids.{TypeId, simple, same_type, bool_base, byte_base, short_base, char_base, int_base}
use joosc.Common.{ℕ, if◌then◌else◌}

pub data SizeClass : Type 0 where
  bool byte short char int ptr : SizeClass

-- The enumerator's value.
unfoldable pub class_index : SizeClass → ℕ
class_index SizeClass.bool = 0
class_index SizeClass.byte = 1
class_index SizeClass.short = 2
class_index SizeClass.char = 3
class_index SizeClass.int = 4
class_index SizeClass.ptr = 5

unfoldable pub size_class_from : TypeId → SizeClass
unfolding same_type
size_class_from tid =
    if same_type tid (simple bool_base)
    then SizeClass.bool
    else if same_type tid (simple byte_base)
    then SizeClass.byte
    else if same_type tid (simple short_base)
    then SizeClass.short
    else if same_type tid (simple char_base)
    then SizeClass.char
    else if same_type tid (simple int_base)
    then SizeClass.int
    else SizeClass.ptr

unfoldable pub byte_size_from : SizeClass → ℕ → ℕ
byte_size_from SizeClass.bool ptr_size = 1
byte_size_from SizeClass.byte ptr_size = 1
byte_size_from SizeClass.short ptr_size = 2
byte_size_from SizeClass.char ptr_size = 2
byte_size_from SizeClass.int ptr_size = 4
byte_size_from SizeClass.ptr ptr_size = ptr_size
