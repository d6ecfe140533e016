-- ===== src/Base/Tests.antt =====
-- A file of two lines.
use joosc.Base.{File, index_to_line_col}
use joosc.Base.Lines.{index_to_line_col-newlines}
use joosc.Common.{◌≡◌, codes, ok, arith}

abbrev two_lines : File
two_lines = codes "ab\ncd"

index_to_line_col-newlines_example : index_to_line_col two_lines 4 ≡ ok (1, 1)
index_to_line_col-newlines_example = index_to_line_col-newlines two_lines 4 (omega arith)
