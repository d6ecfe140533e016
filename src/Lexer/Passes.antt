-- ===== src/Lexer/Passes.antt =====
-- lexer/lexer.cpp: `StripSkippableTokens` against the list without comments and white space.
use joosc.Common.{◌≡◌, refl, Bool, true, false, List, [], ◌∷◌, if◌then◌else◌, ok, ◌>>=◌, arith}
use joosc.Lexer.Run.{strip_skippable_tokens}
use joosc.Lexer.State.{Token}
use joosc.Lexer.TokenType.{TokenType, from_token_type, is_skippable}

abbrev pub is_trivia : TokenType → Bool
is_trivia TokenType.line_comment = true
is_trivia TokenType.block_comment = true
is_trivia TokenType.whitespace = true
is_trivia _ = false

abbrev pub without_trivia : List Token → List Token
without_trivia [] = []
without_trivia (t ∷ ts) = if is_trivia t.type then without_trivia ts else t ∷ without_trivia ts

skippable-is_trivia :
    (t : TokenType) → (from_token_type t >>= λ info. ok (is_skippable info)) ≡ ok (is_trivia t)
unfolding from_token_type
skippable-is_trivia TokenType.line_comment = refl
skippable-is_trivia _ = refl

-- Stripping never throws, and drops exactly the comments and the white space.
pub strip_skippable_tokens-without_trivia :
    (ts : List Token) → strip_skippable_tokens ts ≡ ok (without_trivia ts)
unfolding strip_skippable_tokens
strip_skippable_tokens-without_trivia [] = refl
strip_skippable_tokens-without_trivia (t ∷ ts) =
    ground (arith, skippable-is_trivia t.type, strip_skippable_tokens-without_trivia ts)
