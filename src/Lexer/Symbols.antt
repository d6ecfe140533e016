-- ===== src/Lexer/Symbols.antt =====
-- lexer/lexer.cpp: the symbols of the table `kEntries`, and the loop over them of `Start`.
use mathlib.Core.Bool.{and-eq-true_iff}
use mathlib.Core.List.{Memᴰ}
use joosc.Common.{
  ℕ, ◌-◌, zero, suc, ◌+◌, ◌≤◌, ◌≡◌, refl, Option-cases, sym, ◌∙◌, ◌⊎◌, inl, inr, Bool, true, false,
  not, ◌&&◌, ◌||◌, some, none, List, [], ◌∷◌, length, get_elem?, ◌==◌, leb, all, all-mem,
  Bool-cases, arith, some_injective, implies_mp, leb→le,
}
use native.Mathlib.Decide.{dec_le}
use native.Mathlib.Nat.{le_refl}
use joosc.Base.{File}
use joosc.Lexer.Lexeme.{StandsAt, SymbolAt}
use joosc.Lexer.Loops.{get_elem?_lt}
use joosc.Lexer.State.{LexState, matches_at, has_prefix}
use joosc.Lexer.Step.{match_symbol_in}
use joosc.Lexer.TokenType.{TokenTypeInfo, k_entries, is_symbol}

-- A test of each entry against those behind it.
abbrev pairs : (TokenTypeInfo → TokenTypeInfo → Bool) → List TokenTypeInfo → Bool
pairs p [] = true
pairs p (x ∷ xs) = all (p x) xs && pairs p xs

abbrev starts_with : List ℕ → List ℕ → Bool
starts_with xs [] = true
starts_with [] (y ∷ ys) = false
starts_with (x ∷ xs) (y ∷ ys) = x == y && starts_with xs ys

-- No symbol is a proper prefix of a later one.
abbrev longest_first : TokenTypeInfo → TokenTypeInfo → Bool
longest_first a b =
    not (is_symbol a && is_symbol b && starts_with b.value a.value)
    || leb (length b.value) (length a.value)

symbols_longest_first : pairs longest_first k_entries ≡ true
unfolding k_entries
symbols_longest_first = refl

pub has_prefix-matches :
    (str : List ℕ) (s : LexState)
    → has_prefix str s ≡ true
    → (matches_at s.file s.end str ≡ true) × (length str ≤ length s.file - s.end)
unfolding has_prefix
has_prefix-matches str s h = ground arith

StandsAt-tail :
    (x : ℕ) (text : List ℕ) (file : File) (i : ℕ)
    → StandsAt (x ∷ text) file i
    → StandsAt text file (suc i)
StandsAt-tail x text file i h j c at_j =
    let same : i + suc j ≡ suc i + j = omega arith in rw (← same) (h (suc j) c at_j)

StandsAt-matches :
    (text : List ℕ) (file : File) (i : ℕ) → StandsAt text file i → matches_at file i text ≡ true
unfolding matches_at
StandsAt-matches [] file i h = refl
StandsAt-matches (x ∷ text) file i h =
    let same : i + 0 ≡ i = omega arith in
    let here : get_elem? file i ≡ some x = rw same at (h 0 x refl) in
    ground (arith, StandsAt-matches text file (suc i) (StandsAt-tail x text file i h))

pub StandsAt-fits :
    (text : List ℕ) (file : File) (i : ℕ) → StandsAt text file i → length text ≤ length file - i
StandsAt-fits [] file i h = omega arith
StandsAt-fits (x ∷ text) file i h = omega (
  arith,
  StandsAt-fits text file (suc i) (StandsAt-tail x text file i h),
  get_elem?_lt file (i + 0) (h 0 x refl),
)

pub StandsAt-has_prefix :
    (text : List ℕ) (s : LexState) → StandsAt text s.file s.end → has_prefix text s ≡ true
unfolding has_prefix
StandsAt-has_prefix text s h =
    ground (arith, StandsAt-fits text s.file s.end h, StandsAt-matches text s.file s.end h)

match_symbol_in-none :
    (infos : List TokenTypeInfo) (s : LexState) (info : TokenTypeInfo)
    → match_symbol_in infos s ≡ none
    → Memᴰ info infos
    → is_symbol info ≡ true
    → has_prefix info.value s ≡ false
unfolding match_symbol_in
match_symbol_in-none [] s info h m symbol = elim m [ ]
match_symbol_in-none (i ∷ infos) s info h (Memᴰ.head same) symbol =
    let first : is_symbol i ≡ true = rw (← same) symbol in
    elim (Bool-cases (has_prefix i.value s)) [
      | inr differs ↦ rw same differs
      | inl matches ↦ let clash : some i ≡ none = rw (first, matches) at h in cc
    ]
match_symbol_in-none (i ∷ infos) s info h (Memᴰ.tail m) symbol =
    match_symbol_in-none infos s info (ground arith) m symbol

match_symbol_in-some :
    (infos : List TokenTypeInfo) (s : LexState) (info : TokenTypeInfo)
    → match_symbol_in infos s ≡ some info
    → Memᴰ info infos × (is_symbol info ≡ true) × (has_prefix info.value s ≡ true)
unfolding match_symbol_in
match_symbol_in-some [] s info h = cc
match_symbol_in-some (i ∷ infos) s info h = elim (Bool-cases (is_symbol i)) [
  | inr other ↦
      let (m, sym, pre) = match_symbol_in-some infos s info (rw other at h) in
      (Memᴰ.tail m, sym, pre)
  | inl symbol ↦ elim (Bool-cases (has_prefix i.value s)) [
    | inl matches ↦
        let same : i ≡ info = some_injective (rw (symbol, matches) at h) in
        (Memᴰ.head (sym same), rw (← same) symbol, rw (← same) matches)
    | inr differs ↦
        let (m, sym, pre) = match_symbol_in-some infos s info (rw (symbol, differs) at h) in
        (Memᴰ.tail m, sym, pre)
  ]
]

starts_with-nil : (ys : List ℕ) → starts_with ys [] ≡ true
starts_with-nil [] = refl
starts_with-nil (y ∷ ys) = refl

matches_at-starts :
    (file : File) (i : ℕ) (xs ys : List ℕ)
    → matches_at file i xs ≡ true
    → matches_at file i ys ≡ true
    → length xs ≤ length ys
    → starts_with ys xs ≡ true
unfolding matches_at
matches_at-starts file i [] ys h k l = starts_with-nil ys
matches_at-starts file i (x ∷ xs) [] h k l = absurd (omega arith)
matches_at-starts file i (x ∷ xs) (y ∷ ys) h k l =
    ground (arith, matches_at-starts file (suc i) xs ys)

first_longest :
    (i : TokenTypeInfo) (infos : List TokenTypeInfo) (s : LexState) (other : TokenTypeInfo)
    → all (longest_first i) infos ≡ true
    → is_symbol i ≡ true
    → has_prefix i.value s ≡ true
    → Memᴰ other (i ∷ infos)
    → is_symbol other ≡ true
    → has_prefix other.value s ≡ true
    → length other.value ≤ length i.value
first_longest i infos s other test sym_i prefix_i (Memᴰ.head same) symbol prefix =
    rw same (le_refl (length i.value))
first_longest i infos s other test sym_i prefix_i (Memᴰ.tail m) symbol prefix =
    elim (dec_le (length i.value) (length other.value)) [
      | no longer ↦ omega arith
      | yes shorter ↦
          let starts =
            matches_at-starts s.file s.end i.value other.value
              (has_prefix-matches i.value s prefix_i).0 (has_prefix-matches other.value s prefix).0
              shorter in
          let passes = all-mem (longest_first i) infos test m in
          leb→le (length other.value) (length i.value) (
            implies_mp (is_symbol i && is_symbol other && starts_with other.value i.value)
              (leb (length other.value) (length i.value)) (rw (sym_i, symbol, starts)) passes)
    ]

match_symbol_in-skip :
    (i : TokenTypeInfo) (infos : List TokenTypeInfo) (s : LexState)
    → (is_symbol i && has_prefix i.value s) ≡ false
    → match_symbol_in infos s ≡ match_symbol_in (i ∷ infos) s
unfolding match_symbol_in
match_symbol_in-skip i infos s later = elim (Bool-cases (is_symbol i)) [
  | inr other ↦ rw other
  | inl symbol ↦
      let differs : has_prefix i.value s ≡ false = rw symbol at later in rw (symbol, differs)
]

not_head :
    (i : TokenTypeInfo) (infos : List TokenTypeInfo) (s : LexState) (other : TokenTypeInfo)
    → (is_symbol i && has_prefix i.value s) ≡ false
    → Memᴰ other (i ∷ infos)
    → is_symbol other ≡ true
    → has_prefix other.value s ≡ true
    → Memᴰ other infos
not_head i infos s other later (Memᴰ.tail m) symbol prefix = m
not_head i infos s other later (Memᴰ.head same) symbol prefix =
    let both : (is_symbol i && has_prefix i.value s) ≡ true = rw (← same, symbol, prefix) in
    absurd (cc)

-- A list that passes the pairs test, and the first symbol of it that matches.
longest_in :
    (infos : List TokenTypeInfo) (s : LexState) (info other : TokenTypeInfo)
    → pairs longest_first infos ≡ true
    → match_symbol_in infos s ≡ some info
    → Memᴰ other infos
    → is_symbol other ≡ true
    → has_prefix other.value s ≡ true
    → length other.value ≤ length info.value
unfolding match_symbol_in
longest_in [] s info other test found m symbol prefix = elim m [ ]
longest_in (i ∷ infos) s info other test found m symbol prefix =
    elim (Bool-cases (is_symbol i && has_prefix i.value s)) [
      | inl first ↦
          let (sym_i, prefix_i) = (and-eq-true_iff (is_symbol i) (has_prefix i.value s)).0 first in
          let same : i ≡ info = some_injective (rw (sym_i, prefix_i) at found) in
          rw (← same) (
            first_longest i infos s other
              ((and-eq-true_iff (all (longest_first i) infos) (pairs longest_first infos)).0 test).0
              sym_i prefix_i m symbol prefix)
      | inr later ↦
          longest_in infos s info other
            ((and-eq-true_iff (all (longest_first i) infos) (pairs longest_first infos)).0 test).1
            (match_symbol_in-skip i infos s later ∙ found)
            (not_head i infos s other later m symbol prefix) symbol prefix
    ]

matches_at-StandsAt :
    (text : List ℕ) (file : File) (i : ℕ) → matches_at file i text ≡ true → StandsAt text file i
unfolding matches_at
matches_at-StandsAt [] file i h j c at_j = cc
matches_at-StandsAt (x ∷ text) file i h zero c at_j = elim (Option-cases (get_elem? file i)) [
  | inl past ↦ ground arith
  | inr (y, here) ↦ ground arith
]
matches_at-StandsAt (x ∷ text) file i h (suc j) c at_j =
    let rest : matches_at file (suc i) text ≡ true = ground arith in
    let same : suc i + j ≡ i + suc j = omega arith in
    rw (← same) (matches_at-StandsAt text file (suc i) rest j c at_j)

-- If `Start` takes a symbol, it is one of the table that stands at the cursor, and no other one that
-- stands there is longer; if it takes none, none of the table stands there.
pub match_symbol_in-longest :
    (s : LexState)
    → ((info : TokenTypeInfo) × (match_symbol_in k_entries s ≡ some info)
        × SymbolAt s.file s.end info
        × ((other : TokenTypeInfo)
            → SymbolAt s.file s.end other
            → length other.value ≤ length info.value))
      ⊎ ((match_symbol_in k_entries s ≡ none)
          × ((other : TokenTypeInfo) → ¬ (SymbolAt s.file s.end other)))
match_symbol_in-longest s = elim (Option-cases (match_symbol_in k_entries s)) [
  | inl nothing ↦ inr (
    nothing,
    λ other (m, symbol, stands).
        let clash : true ≡ false =
          sym (StandsAt-has_prefix other.value s stands)
          ∙ match_symbol_in-none k_entries s other nothing m symbol in
        cc,
  )
  | inr (info, found) ↦
      let (m, symbol, prefix) = match_symbol_in-some k_entries s info found in
      inl (
        info,
        found,
        (
          m,
          symbol,
          matches_at-StandsAt info.value s.file s.end (has_prefix-matches info.value s prefix).0,
        ),
        λ other (m', symbol', stands).
            longest_in k_entries s info other symbols_longest_first found m' symbol'
              (StandsAt-has_prefix other.value s stands),
      )
]
