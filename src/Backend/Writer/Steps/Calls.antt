-- ===== src/Backend/Writer/Steps/Calls.antt =====
-- backend/i386/writer.cpp, `FuncWriter`: the references of run-time type tests, calls and returns.
use joosc.Ast.Modifiers.{TypeKind}
use joosc.Backend.Writer.{Context, StackEntry}
use joosc.Backend.Writer.Calls.{
  instance_of_impl, element_test, instance_of_case, instance_of, cast_exception_if_false,
  check_array_store, push_args, move_result, move_native, native, joos_call, call_label,
  static_call, call_method, dynamic_call, ret,
}
use joosc.Backend.Writer.Refs.{refs}
use joosc.Backend.Writer.Steps.Sites.{steps_rules}
use joosc.Backend.Writer.Steps.{Plain}
use joosc.Common.{ℕ, Bool, true, false, List, [], ◌∷◌, Option, some, none, ◌≡◌, refl}

module _ (c : Context) where
  pub instance_of_impl-Step : Plain (instance_of_impl c)
  unfolding instance_of_impl refs
  instance_of_impl-Step still before = search steps_rules fits 4000 depth 40

  pub element_test-Step :
      (primitive : Bool) (dst_tid local_label : ℕ)
      → Plain (element_test c primitive dst_tid local_label)
  unfolding element_test refs
  element_test-Step true dst_tid local_label still before = search steps_rules fits 4000 depth 40
  element_test-Step false dst_tid local_label still before =
      search (steps_rules, instance_of_impl-Step) fits 4000 depth 40

  pub instance_of_case-Step :
      (dst_array src_array : Bool) (dst_tid : ℕ) (dst_e src_e : StackEntry)
      → Plain (instance_of_case c dst_array src_array dst_tid dst_e src_e)
  unfolding instance_of_case refs
  instance_of_case-Step true true dst_tid dst_e src_e still before =
      search (steps_rules, instance_of_impl-Step) fits 4000 depth 40
  instance_of_case-Step true false dst_tid dst_e src_e still before =
      search (steps_rules, element_test-Step) fits 4000 depth 40
  instance_of_case-Step false true dst_tid dst_e src_e still before =
      search steps_rules fits 4000 depth 40
  instance_of_case-Step false false dst_tid dst_e src_e still before =
      search (steps_rules, instance_of_impl-Step) fits 4000 depth 40

  pub instance_of-Step : (args : List ℕ) → Plain (instance_of c args)
  unfolding instance_of refs
  instance_of-Step (dst ∷ src ∷ dst_tid ∷ dst_array ∷ src_tid ∷ src_array ∷ []) still before =
      search (steps_rules, instance_of_case-Step) fits 4000 depth 40
  instance_of-Step _ still before = search steps_rules fits 4000 depth 40

  pub cast_exception_if_false-Step : (args : List ℕ) → Plain (cast_exception_if_false c args)
  unfolding cast_exception_if_false refs
  cast_exception_if_false-Step (cond ∷ file_offset ∷ []) still before =
      search steps_rules fits 4000 depth 40
  cast_exception_if_false-Step _ still before = search steps_rules fits 4000 depth 40

  pub check_array_store-Step : (args : List ℕ) → Plain (check_array_store c args)
  unfolding check_array_store refs
  check_array_store-Step (array ∷ elem ∷ file_offset ∷ []) still before =
      search (steps_rules, instance_of_impl-Step) fits 4000 depth 40
  check_array_store-Step _ still before = search steps_rules fits 4000 depth 40

  pub push_args-Step : (args : List ℕ) → Plain (push_args c args)
  unfolding push_args refs
  push_args-Step [] still before = search steps_rules fits 4000 depth 40
  push_args-Step (arg ∷ args) still before =
      search (steps_rules, push_args-Step args) fits 4000 depth 40

  pub move_result-Step : (dst : ℕ) → Plain (move_result c dst)
  unfolding move_result refs
  move_result-Step dst still before = search steps_rules fits 4000 depth 40

  pub move_native-Step : (dst : ℕ) → Plain (move_native c dst)
  unfolding move_native refs
  move_native-Step dst still before = search steps_rules fits 4000 depth 40

  pub native-Step : (dst : ℕ) (label : List ℕ) (args : List ℕ) → Plain (native c dst label args)
  unfolding native refs
  native-Step dst label (src ∷ []) still before =
      search (steps_rules, move_native-Step) fits 4000 depth 40
  native-Step dst label _ still before = search steps_rules fits 4000 depth 40

  pub joos_call-Step :
      (dst tid mid file_offset : ℕ) (args : List ℕ)
      → Plain (joos_call c dst tid mid file_offset args)
  unfolding joos_call refs
  joos_call-Step dst tid mid file_offset args still before =
      search (steps_rules, push_args-Step, move_result-Step) fits 4000 depth 40

  pub call_label-Step :
      (label : Option (List ℕ)) (dst tid mid file_offset : ℕ) (args : List ℕ)
      → Plain (call_label c label dst tid mid file_offset args)
  unfolding call_label
  call_label-Step (some label) dst tid mid file_offset args still before =
      native-Step dst label args still before
  call_label-Step none dst tid mid file_offset args still before =
      joos_call-Step dst tid mid file_offset args still before

  pub static_call-Step : (args : List ℕ) → Plain (static_call c args)
  unfolding static_call
  static_call-Step (dst ∷ tid ∷ mid ∷ file_offset ∷ nargs ∷ args) still before =
      search (steps_rules, call_label-Step) fits 4000 depth 40
  static_call-Step _ still before = search steps_rules fits 4000 depth 40

  refs-call_method : (kind : TypeKind) (offset : ℕ) → refs (call_method c kind offset) ≡ []
  unfolding refs
  refs-call_method TypeKind.class_kind offset = refl
  refs-call_method TypeKind.interface_kind offset = refl

  pub dynamic_call-Step : (args : List ℕ) → Plain (dynamic_call c args)
  unfolding dynamic_call refs
  dynamic_call-Step (dst ∷ this_ptr ∷ mid ∷ file_offset ∷ nargs ∷ args) still before =
      search (steps_rules, push_args-Step, move_result-Step, refs-call_method) fits 4000 depth 40
  dynamic_call-Step _ still before = search steps_rules fits 4000 depth 40

pub ret-Step : (args : List ℕ) → Plain (ret args)
unfolding ret refs
ret-Step [] still before = search steps_rules fits 4000 depth 40
ret-Step (value ∷ []) still before = search steps_rules fits 4000 depth 40
ret-Step _ still before = search steps_rules fits 4000 depth 40
