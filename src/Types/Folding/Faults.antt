-- ===== src/Types/Folding/Faults.antt =====
-- types/constant_folding.cpp: bitwise operators on boolean constants, and casts to `byte`.
use joosc.Ast.Ids.{TypeId, simple, bool_base, byte_base, int_base}
use joosc.Ast.Tree.{bool_lit, int_lit, bin, cast, const}
use joosc.Common.{
  ℕ, ◌+◌, ◌-◌, ◌%◌, ◌^◌, ◌≤◌, ◌≡◌, ◌≢◌, refl, Bool, true, false, ltb, if◌then◌else◌, ok, arith,
}
use joosc.Lexer.TokenType.{TokenType}
use joosc.Types.Folding.{StringMap, ◌>>=◌, lift, rewrite}

abbrev pub is_bitwise : TokenType → Bool
is_bitwise TokenType.band = true
is_bitwise TokenType.bor = true
is_bitwise TokenType.xor = true
is_bitwise _ = false

-- A byte as an `int`: bit 7 is repeated upwards.
abbrev pub sign_extended : ℕ → ℕ
sign_extended n = if ltb (n % 2 ^ 8) (2 ^ 7) then n % 2 ^ 8 else 2 ^ 32 - 2 ^ 8 + n % 2 ^ 8

not_sign_extended : (n : ℕ) → 2 ^ 7 ≤ n % 2 ^ 8 → n % 2 ^ 8 ≢ sign_extended n
not_sign_extended n h same = ground arith

module _ (string_type : TypeId) where
  -- `&`, `|` and `^` of two boolean literals fold to `false`, whatever the literals are.
  pub rewrite_bitwise :
      (op : TokenType) (a b : Bool) (s : StringMap)
      → is_bitwise op ≡ true
      → rewrite string_type (bin (bool_lit a) op (bool_lit b) (simple bool_base)) s
        ≡ ok (const (bool_lit false) (bin (bool_lit a) op (bool_lit b) (simple bool_base)), s)
  unfolding rewrite lift ◌>>=◌
  rewrite_bitwise TokenType.band a b s h = refl
  rewrite_bitwise TokenType.bor a b s h = refl
  rewrite_bitwise TokenType.xor a b s h = refl
  rewrite_bitwise op a b s h = cc

  -- `(int)(byte)n` folds to the last 8 bits of `n` without their sign, which is another `int` than
  -- the byte when bit 7 is set.
  pub rewrite_byte_cast :
      (n : ℕ) (s : StringMap)
      → 2 ^ 7 ≤ n % 2 ^ 8
      → (rewrite string_type
            (cast (cast (int_lit n (simple int_base)) (simple byte_base)) (simple int_base))
            s
          ≡ ok (
            const
                (int_lit (n % 2 ^ 8) (simple int_base))
                (cast (cast (int_lit n (simple int_base)) (simple byte_base)) (simple int_base)),
            s,
          ))
        × (n % 2 ^ 8 ≢ sign_extended n)
  unfolding rewrite lift ◌>>=◌
  rewrite_byte_cast n s h = (refl, not_sign_extended n h)
