-- ===== src/Backend/Writer/Steps/Memory.antt =====
-- backend/i386/writer.cpp, `FuncWriter`: the references of allocation, labels, constants, moves, fields and
-- arrays.
use joosc.Ast.Ids.{simple}
use joosc.Backend.Asm.{Arg, Line}
use joosc.Backend.Writer.{Context, StackEntry}
use joosc.Backend.Writer.Memory.{
  alloc_heap, element_type, alloc_array, field_static, field_of, field_impl, array_null,
  array_access_impl, mov_to_addr, label, const, const_str, mov_impl,
}
use joosc.Backend.Writer.Refs.{refs}
use joosc.Backend.Writer.Steps.Sites.{steps_rules}
use joosc.Backend.Writer.Steps.{Plain}
use joosc.Common.{ℕ, Bool, true, false, List, [], ◌∷◌, String, ◌≡◌, refl, if◌then◌else◌}
use joosc.Types.Conversions.{is_primitive}

module _ (c : Context) where
  pub alloc_heap-Step : (args : List ℕ) → Plain (alloc_heap c args)
  unfolding alloc_heap refs
  alloc_heap-Step (dst ∷ tid ∷ []) still before = search steps_rules fits 4000 depth 40
  alloc_heap-Step _ still before = search steps_rules fits 4000 depth 40

  refs-if :
      (b : Bool) (xs ys : List Line)
      → refs xs ≡ []
      → refs ys ≡ []
      → refs (if b then xs else ys) ≡ []
  refs-if true xs ys h k = h
  refs-if false xs ys h k = k

  refs-element_type : (elemtype : ℕ) → refs (element_type c elemtype) ≡ []
  unfolding refs element_type
  refs-element_type elemtype = refs-if (is_primitive (simple elemtype)) _ _ refl refl

  pub alloc_array-Step : (args : List ℕ) → Plain (alloc_array c args)
  unfolding alloc_array refs
  alloc_array-Step (dst ∷ elemtype ∷ len ∷ file_offset ∷ []) still before =
      search (steps_rules, refs-element_type) fits 4000 depth 40
  alloc_array-Step _ still before = search steps_rules fits 4000 depth 40

  pub field_static-Step :
      (child_tid fid : ℕ) (dst_e : StackEntry) (sized_reg : Arg) (src_prefix instr : String)
      → Plain (field_static c child_tid fid dst_e sized_reg src_prefix instr)
  unfolding field_static refs
  field_static-Step child_tid fid dst_e sized_reg src_prefix instr still before =
      search steps_rules fits 4000 depth 40

  pub field_of-Step :
      (src fid file_offset : ℕ) (dst_e : StackEntry) (sized_reg : Arg) (src_prefix instr : String)
      → Plain (field_of c src fid file_offset dst_e sized_reg src_prefix instr)
  unfolding field_of refs
  field_of-Step src fid file_offset dst_e sized_reg src_prefix instr still before =
      search steps_rules fits 4000 depth 40

  pub field_impl-Step : (args : List ℕ) (addr : Bool) → Plain (field_impl c args addr)
  unfolding field_impl refs
  field_impl-Step (dst ∷ src ∷ child_tid ∷ fid ∷ file_offset ∷ []) addr still before =
      search (steps_rules, field_static-Step, field_of-Step) fits 4000 depth 40
  field_impl-Step _ addr still before = search steps_rules fits 4000 depth 40

  pub array_null-Step :
      (addr : Bool) (dst_e : StackEntry) (sized_reg : Arg) (local_label file_offset : ℕ)
      → Plain (array_null c addr dst_e sized_reg local_label file_offset)
  unfolding array_null refs
  array_null-Step true dst_e sized_reg local_label file_offset still before =
      search steps_rules fits 4000 depth 40
  array_null-Step false dst_e sized_reg local_label file_offset still before =
      search steps_rules fits 4000 depth 40

  pub array_access_impl-Step : (args : List ℕ) (addr : Bool) → Plain (array_access_impl c args addr)
  unfolding array_access_impl refs
  array_access_impl-Step (dst ∷ src ∷ idx ∷ size ∷ file_offset ∷ []) addr still before =
      search (steps_rules, array_null-Step) fits 4000 depth 40
  array_access_impl-Step _ addr still before = search steps_rules fits 4000 depth 40

  pub mov_to_addr-Step : (args : List ℕ) → Plain (mov_to_addr c args)
  unfolding mov_to_addr refs
  mov_to_addr-Step (dst ∷ src ∷ file_offset ∷ []) still before =
      search steps_rules fits 4000 depth 40
  mov_to_addr-Step _ still before = search steps_rules fits 4000 depth 40

pub label-Step : (args : List ℕ) → Plain (label args)
unfolding label refs
label-Step (lid ∷ []) still before = search steps_rules fits 4000 depth 40
label-Step _ still before = search steps_rules fits 4000 depth 40

pub const-Step : (args : List ℕ) → Plain (const args)
unfolding const refs
const-Step (memid ∷ size_index ∷ value ∷ []) still before = search steps_rules fits 4000 depth 40
const-Step _ still before = search steps_rules fits 4000 depth 40

pub const_str-Step : (args : List ℕ) → Plain (const_str args)
unfolding const_str refs
const_str-Step (memid ∷ strid ∷ []) still before = search steps_rules fits 4000 depth 40
const_str-Step _ still before = search steps_rules fits 4000 depth 40

pub mov_impl-Step : (args : List ℕ) (addr : Bool) → Plain (mov_impl args addr)
unfolding mov_impl refs
mov_impl-Step (dst ∷ src ∷ []) addr still before = search steps_rules fits 4000 depth 40
mov_impl-Step _ addr still before = search steps_rules fits 4000 depth 40
