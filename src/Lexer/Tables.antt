-- ===== src/Lexer/Tables.antt =====
-- lexer/lexer.cpp: the table `kEntries`, and the loop over it of `MatchKeywords`.
use mathlib.Core.Bool.{and-eq-true_iff}
use mathlib.Core.List.{Memᴰ}
use joosc.Common.{
  ℕ, suc, ◌≡◌, refl, sym, ◌∙◌, ap, ◌⊎◌, inl, inr, ◌↔◌, Bool, true, false, not, ◌&&◌, ◌||◌, some,
  none, List, [], ◌∷◌, length, get_elem?, ◌==◌, all, all-mem, Bool-cases, arith, Outcome, ok,
  thrown, Exn, implies_mp, ◌≢◌, ==_iff,
}
use joosc.Base.{File, PosRange}
use joosc.Lexer.State.{matches_at}
use joosc.Lexer.Step.{pos_range_string_matches, match_keywords_in, match_keywords}
use joosc.Lexer.TokenType.{TokenType, TokenTypeInfo, index, k_entries, is_keyword, from_token_type}

-- The entry at a type's value describes that type.
pub from_token_type-type :
    (t : TokenType) → (info : TokenTypeInfo) × (from_token_type t ≡ ok info) × (info.type ≡ t)
unfolding from_token_type
from_token_type-type TokenType.line_comment = (_, refl, refl)
from_token_type-type _ = (_, refl, refl)

pub same_text : List ℕ → List ℕ → Bool
same_text [] [] = true
same_text (x ∷ xs) (y ∷ ys) = x == y && same_text xs ys
same_text _ _ = false

same_text→eq : (xs ys : List ℕ) → same_text xs ys ≡ true → xs ≡ ys
unfolding same_text
same_text→eq [] [] h = refl
same_text→eq [] (y ∷ ys) h = cc
same_text→eq (x ∷ xs) [] h = cc
same_text→eq (x ∷ xs) (y ∷ ys) h = ground (arith, same_text→eq xs ys)

same_text_refl : (xs : List ℕ) → same_text xs xs ≡ true
unfolding same_text
same_text_refl [] = refl
same_text_refl (x ∷ xs) = ground (arith, same_text_refl xs)

-- Two entries of one spelling are one keyword, and a keyword is no identifier.
abbrev one_keyword : TokenTypeInfo → TokenTypeInfo → Bool
one_keyword a b =
    not (is_keyword a && is_keyword b && same_text a.value b.value) || index a.type == index b.type

abbrev one_type : TokenTypeInfo → TokenTypeInfo → Bool
one_type a b = not (index a.type == index b.type) || same_text a.value b.value

keywords_distinct :
    all (λ a. not (is_keyword a) || all (λ b. one_keyword a b && one_type a b) k_entries) k_entries
    ≡ true
unfolding k_entries index same_text
keywords_distinct = refl

keywords_no_identifier :
    all (λ a. not (is_keyword a && index a.type == index TokenType.identifier)) k_entries ≡ true
unfolding k_entries index
keywords_no_identifier = refl

same_entry : (a b : TokenType) → index a ≡ index b → from_token_type a ≡ from_token_type b
unfolding from_token_type
same_entry a b h =
    ap
      (λ (n : ℕ).
        let o : Outcome TokenTypeInfo = elim (get_elem? k_entries n) [
          | some info ↦ ok info
          | none ↦ thrown Exn.check_failed
        ] in
        o)
      h

index_injective : (a b : TokenType) → index a ≡ index b → a ≡ b
index_injective a b h =
    let (ia, ea, ta) = from_token_type-type a in
    let (ib, eb, tb) = from_token_type-type b in
    let same : ia ≡ ib = cc (same_entry a b h) in
    sym ta ∙ ap (λ (i : TokenTypeInfo). i.type) same ∙ tb

-- Where the loop ends: at a keyword whose spelling is the text, or behind the whole table.
-- No keyword of the list is spelled as the range.
abbrev pub NoneSpelled : File → PosRange → List TokenTypeInfo → Type 0
NoneSpelled file r infos =
    (info : TokenTypeInfo)
    → Memᴰ info infos
    → is_keyword info ≡ true
    → pos_range_string_matches file r info.value ≡ false

skip_non_keyword :
    (file : File) (r : PosRange) (i : TokenTypeInfo) (infos : List TokenTypeInfo)
    → is_keyword i ≡ false
    → NoneSpelled file r infos
    → NoneSpelled file r (i ∷ infos)
skip_non_keyword file r i infos other missing info (Memᴰ.head same) key =
    let clash : is_keyword i ≡ true = rw (← same) key in absurd (cc)
skip_non_keyword file r i infos other missing info (Memᴰ.tail m) key = missing info m key

skip_other_text :
    (file : File) (r : PosRange) (i : TokenTypeInfo) (infos : List TokenTypeInfo)
    → pos_range_string_matches file r i.value ≡ false
    → NoneSpelled file r infos
    → NoneSpelled file r (i ∷ infos)
skip_other_text file r i infos differs missing info (Memᴰ.head same) key = rw same differs
skip_other_text file r i infos differs missing info (Memᴰ.tail m) key = missing info m key

match_keywords_in-cases :
    (infos : List TokenTypeInfo) (file : File) (r : PosRange)
    → ((info : TokenTypeInfo) × Memᴰ info infos
        × (is_keyword info ≡ true)
        × (pos_range_string_matches file r info.value ≡ true)
        × (match_keywords_in infos file r ≡ info.type))
      ⊎ ((match_keywords_in infos file r ≡ TokenType.identifier) × NoneSpelled file r infos)
unfolding match_keywords_in
match_keywords_in-cases [] file r = inr (refl, λ info m. elim m [ ])
match_keywords_in-cases (i ∷ infos) file r = elim (Bool-cases (is_keyword i)) [
  | inr other ↦ elim (match_keywords_in-cases infos file r) [
    | inl (info, m, key, text, eq) ↦ inl (info, Memᴰ.tail m, key, text, rw other eq)
    | inr (eq, missing) ↦ inr (rw other eq, skip_non_keyword file r i infos other missing)
  ]
  | inl keyword ↦ elim (Bool-cases (pos_range_string_matches file r i.value)) [
    | inl text ↦ inl (i, Memᴰ.head refl, keyword, text, rw (keyword, text))
    | inr differs ↦ elim (match_keywords_in-cases infos file r) [
      | inl (info, m, key, text, eq) ↦ inl (info, Memᴰ.tail m, key, text, rw (keyword, differs) eq)
      | inr (eq, missing) ↦
          inr (rw (keyword, differs) eq, skip_other_text file r i infos differs missing)
    ]
  ]
]

-- Two spellings that stand at one place, as long as one another, are the same.
matches_at-same :
    (file : File) (i : ℕ) (xs ys : List ℕ)
    → matches_at file i xs ≡ true
    → matches_at file i ys ≡ true
    → length xs ≡ length ys
    → same_text xs ys ≡ true
unfolding matches_at same_text
matches_at-same file i [] [] h k l = refl
matches_at-same file i [] (y ∷ ys) h k l = absurd (omega arith)
matches_at-same file i (x ∷ xs) [] h k l = absurd (omega arith)
matches_at-same file i (x ∷ xs) (y ∷ ys) h k l = ground (arith, matches_at-same file (suc i) xs ys)

range_matches-same :
    (file : File) (r : PosRange) (xs ys : List ℕ)
    → pos_range_string_matches file r xs ≡ true
    → pos_range_string_matches file r ys ≡ true
    → same_text xs ys ≡ true
unfolding pos_range_string_matches
range_matches-same file r xs ys h k = ground (arith, matches_at-same file r.begin xs ys)

keyword_pair :
    (a b : TokenTypeInfo)
    → Memᴰ a k_entries
    → Memᴰ b k_entries
    → is_keyword a ≡ true
    → (one_keyword a b && one_type a b) ≡ true
keyword_pair a b ma mb key =
    all-mem (λ (y : TokenTypeInfo). one_keyword a y && one_type a y) k_entries
      (implies_mp (is_keyword a)
        (all (λ (y : TokenTypeInfo). one_keyword a y && one_type a y) k_entries) key
        (all-mem
          (λ (x : TokenTypeInfo).
            not (is_keyword x)
            || all (λ (y : TokenTypeInfo). one_keyword x y && one_type x y) k_entries)
          k_entries keywords_distinct ma))
      mb

keyword_type :
    (a b : TokenTypeInfo)
    → Memᴰ a k_entries
    → Memᴰ b k_entries
    → is_keyword a ≡ true
    → is_keyword b ≡ true
    → same_text a.value b.value ≡ true
    → a.type ≡ b.type
keyword_type a b ma mb ka kb same =
    let test =
      ((and-eq-true_iff (one_keyword a b) (one_type a b)).0 (keyword_pair a b ma mb ka)).0 in
    let equal : (index a.type == index b.type) ≡ true = rw (ka, kb, same) at test in
    index_injective a.type b.type ((==_iff (index a.type) (index b.type)).0 equal)

keyword_text :
    (a b : TokenTypeInfo)
    → Memᴰ a k_entries
    → Memᴰ b k_entries
    → is_keyword a ≡ true
    → a.type ≡ b.type
    → a.value ≡ b.value
keyword_text a b ma mb ka same =
    let test =
      ((and-eq-true_iff (one_keyword a b) (one_type a b)).0 (keyword_pair a b ma mb ka)).1 in
    let equal : (index a.type == index b.type) ≡ true =
      (==_iff (index a.type) (index b.type)).1 (ap index same) in
    let text : same_text a.value b.value ≡ true = rw equal at test in
    same_text→eq a.value b.value text

keyword-ne-identifier :
    (a : TokenTypeInfo) → Memᴰ a k_entries → is_keyword a ≡ true → a.type ≢ TokenType.identifier
keyword-ne-identifier a m key same =
    let test =
      all-mem
        (λ (x : TokenTypeInfo). not (is_keyword x && index x.type == index TokenType.identifier))
        k_entries keywords_no_identifier m in
    let equal : (index a.type == index TokenType.identifier) ≡ true =
      (==_iff (index a.type) (index TokenType.identifier)).1 (ap index same) in
    let clash : false ≡ true = rw (key, equal) at test in cc

-- A word is a keyword of the table exactly when the keyword's spelling is the whole word.
pub match_keywords-keyword :
    (file : File) (r : PosRange) (info : TokenTypeInfo)
    → Memᴰ info k_entries
    → is_keyword info ≡ true
    → (match_keywords file r ≡ info.type) ↔ (pos_range_string_matches file r info.value ≡ true)
unfolding match_keywords
match_keywords-keyword file r info m key = elim (match_keywords_in-cases k_entries file r) [
  | inl (found, m', key', text, eq) ↦ (
    λ same.
        let spelled : found.value ≡ info.value =
          keyword_text found info m' m key' (sym eq ∙ same) in
        rw (← spelled) text,
    λ text'.
        eq
        ∙ keyword_type found info m' m key' key
            (range_matches-same file r found.value info.value text text'),
  )
  | inr (eq, missing) ↦ (
    λ same. absurd (keyword-ne-identifier info m key (sym same ∙ eq)),
    λ text. let clash : true ≡ false = sym text ∙ missing info m key in absurd (cc),
  )
]

-- A word is an identifier exactly when it is spelled as no keyword of the table.
pub match_keywords-identifier :
    (file : File) (r : PosRange)
    → (match_keywords file r ≡ TokenType.identifier) ↔ NoneSpelled file r k_entries
unfolding match_keywords
match_keywords-identifier file r = elim (match_keywords_in-cases k_entries file r) [
  | inl (found, m, key, text, eq) ↦ (
    λ same. absurd (keyword-ne-identifier found m key (sym eq ∙ same)),
    λ missing. let clash : true ≡ false = sym text ∙ missing found m key in absurd (cc),
  )
  | inr (eq, missing) ↦ (λ _. missing, λ _. eq)
]
