-- ===== src/Backend/Writer/Steps/Arithmetic.antt =====
-- backend/i386/writer.cpp, `FuncWriter`: the references of arithmetic, comparisons, jumps and conversions.
use joosc.Backend.Writer.{Context}
use joosc.Backend.Writer.Arithmetic.{
  add_sub, mul, div_mod, jmp, jmp_if, rel_impl, eq, not, neg, bool_op_impl, extend, truncate,
}
use joosc.Backend.Writer.Refs.{refs}
use joosc.Backend.Writer.Steps.Sites.{steps_rules}
use joosc.Backend.Writer.Steps.{Plain}
use joosc.Common.{ℕ, Bool, List, [], ◌∷◌, String}

pub add_sub-Step : (args : List ℕ) (add : Bool) → Plain (add_sub args add)
unfolding add_sub refs
add_sub-Step (dst ∷ lhs ∷ rhs ∷ []) add still before = search steps_rules fits 4000 depth 40
add_sub-Step _ add still before = search steps_rules fits 4000 depth 40

pub mul-Step : (args : List ℕ) → Plain (mul args)
unfolding mul refs
mul-Step (dst ∷ lhs ∷ rhs ∷ []) still before = search steps_rules fits 4000 depth 40
mul-Step _ still before = search steps_rules fits 4000 depth 40

pub div_mod-Step : (c : Context) (args : List ℕ) (div : Bool) → Plain (div_mod c args div)
unfolding div_mod refs
div_mod-Step c (dst ∷ lhs ∷ rhs ∷ file_offset ∷ []) div still before =
    search steps_rules fits 4000 depth 40
div_mod-Step c _ div still before = search steps_rules fits 4000 depth 40

pub jmp-Step : (args : List ℕ) → Plain (jmp args)
unfolding jmp refs
jmp-Step (lid ∷ []) still before = search steps_rules fits 4000 depth 40
jmp-Step _ still before = search steps_rules fits 4000 depth 40

pub jmp_if-Step : (args : List ℕ) → Plain (jmp_if args)
unfolding jmp_if refs
jmp_if-Step (lid ∷ cond ∷ []) still before = search steps_rules fits 4000 depth 40
jmp_if-Step _ still before = search steps_rules fits 4000 depth 40

pub rel_impl-Step :
    (args : List ℕ) (relation instruction : String) → Plain (rel_impl args relation instruction)
unfolding rel_impl refs
rel_impl-Step (dst ∷ lhs ∷ rhs ∷ []) relation instruction still before =
    search steps_rules fits 4000 depth 40
rel_impl-Step _ relation instruction still before = search steps_rules fits 4000 depth 40

pub eq-Step : (args : List ℕ) → Plain (eq args)
unfolding eq refs
eq-Step (dst ∷ lhs ∷ rhs ∷ []) still before = search steps_rules fits 4000 depth 40
eq-Step _ still before = search steps_rules fits 4000 depth 40

pub not-Step : (args : List ℕ) → Plain (not args)
unfolding not refs
not-Step (dst ∷ src ∷ []) still before = search steps_rules fits 4000 depth 40
not-Step _ still before = search steps_rules fits 4000 depth 40

pub neg-Step : (args : List ℕ) → Plain (neg args)
unfolding neg refs
neg-Step (dst ∷ src ∷ []) still before = search steps_rules fits 4000 depth 40
neg-Step _ still before = search steps_rules fits 4000 depth 40

pub extend-Step : (args : List ℕ) → Plain (extend args)
unfolding extend refs
extend-Step (dst ∷ src ∷ []) still before = search steps_rules fits 4000 depth 40
extend-Step _ still before = search steps_rules fits 4000 depth 40

pub truncate-Step : (args : List ℕ) → Plain (truncate args)
unfolding truncate refs
truncate-Step (dst ∷ src ∷ []) still before = search steps_rules fits 4000 depth 40
truncate-Step _ still before = search steps_rules fits 4000 depth 40

pub bool_op_impl-Step :
    (args : List ℕ) (op_str instr : String) → Plain (bool_op_impl args op_str instr)
unfolding bool_op_impl refs
bool_op_impl-Step (dst ∷ lhs ∷ rhs ∷ []) op_str instr still before =
    search steps_rules fits 4000 depth 40
bool_op_impl-Step _ op_str instr still before = search steps_rules fits 4000 depth 40
