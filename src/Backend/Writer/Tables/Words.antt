-- ===== src/Backend/Writer/Tables/Words.antt =====
-- backend/i386/writer.cpp, `WriteItable`: what stands at an offset of an itable.
use text.Mathlib.Text.{◌==◌ as str_eq}
use joosc.Ast.Ids.{TypeId}
use joosc.Backend.Asm.{Arg, Line}
use joosc.Backend.Offsets.Interfaces.{Itable}
use joosc.Backend.Writer.Tables.{u64_sub, padding, itable_lines}
use joosc.Common.{
  ℕ, zero, suc, ◌+◌, ◌-◌, ◌*◌, ◌/◌, ◌≤◌, ◌≡◌, refl, sym, ap, ◌∙◌, subst, Bool-cases, inl, inr, true,
  Option, some, none, List, [], ◌∷◌, ◌++◌, append_assoc, append-nil, length, length-append,
  get_elem?, leb, ◌==◌, if◌then◌else◌, All, arith,
}

-- A word of an assembled table: a method's address by the type and the method, or 0.
abbrev pub Word : Type 0
Word = Option (ℕ × ℕ)

abbrev pub zeros : ℕ → List Word
zeros zero = []
zeros (suc n) = none ∷ zeros n

abbrev method_word : List Arg → List Word
method_word (Arg.num tid ∷ Arg.num mid ∷ []) = some (tid, mid) ∷ []
method_word _ = []

abbrev zero_words : List Arg → List Word
zero_words (Arg.num n ∷ []) = zeros n
zero_words _ = []

unfoldable pub words_of : Line → List Word
words_of line =
    if str_eq line.fmt "dd _t%v_m%v"
    then method_word line.args
    else if str_eq line.fmt "times %v dd 0"
    then zero_words line.args
    else []

-- The words that the lines put one behind the other.
unfoldable pub words : List Line → List Word
unfolding words_of
words [] = []
words (line ∷ lines) = words_of line ++ words lines

words-append : (xs ys : List Line) → words (xs ++ ys) ≡ words xs ++ words ys
unfolding words
words-append [] ys = refl
words-append (x ∷ xs) ys =
    ap (words_of x ++◌) (words-append xs ys) ∙ sym (append_assoc (words_of x) (words xs) (words ys))

-- The entries stand at different words, in their order, from the word `c` on.
abbrev pub Spaced : ℕ → Itable → Type 0
Spaced c [] = Unit
Spaced c (entry ∷ itable) = (q : ℕ) × (entry.0 ≡ 4 * q) × (c ≤ q) × Spaced (suc q) itable

-- The word at the entry's offset is the address of its method.
abbrev pub StandsIn : List Word → ℕ × (TypeId × ℕ) → Type 0
StandsIn ws (offset, (type, mid)) =
    (q : ℕ) × (offset ≡ 4 * q) × (get_elem? ws q ≡ some (some (type.base, mid)))

words-padding : (c q : ℕ) → c ≤ q → words (padding (4 * c) (4 * q)) ≡ zeros (q - c)
unfolding words words_of padding u64_sub
words-padding c q le = elim (Bool-cases (4 * c == 4 * q)) [
  | inl p ↦ rw p (ap zeros (sym (same p)))
  | inr p ↦ rw (p, below) (append-nil _ ∙ ap zeros quarter)
]
  where
    same : (4 * c == 4 * q) ≡ true → q - c ≡ 0
    same p = ground arith

    below : leb (4 * c) (4 * q) ≡ true
    below = ground arith

    quarter : (4 * q - 4 * c) / 4 ≡ q - c
    quarter = omega (arith, le)

get_elem?-length :
    {A : Type 0} (xs : List A) (y : A) (ys : List A) → get_elem? (xs ++ y ∷ ys) (length xs) ≡ some y
get_elem?-length [] y ys = refl
get_elem?-length (x ∷ xs) y ys = get_elem?-length xs y ys

length-zeros : (n : ℕ) → length (zeros n) ≡ n
length-zeros zero = refl
length-zeros (suc n) = ap suc (length-zeros n)

stands_behind :
    (before : List Word) (c : ℕ) (itable : Itable)
    → length before ≡ c
    → Spaced c itable
    → All (StandsIn (before ++ words (itable_lines (4 * c) itable))) itable
unfolding itable_lines words words_of
stands_behind before c [] e spaced = tt
stands_behind before c ((offset, (type, mid)) ∷ itable) e (q, at, le, spaced) =
    let word = some (type.base, mid) in
    let pad = zeros (q - c) in
    let rest = words (itable_lines (4 * suc q) itable) in
    let next : 4 * q + 4 ≡ 4 * suc q = omega arith in
    let lines : words (itable_lines (4 * c) ((offset, (type, mid)) ∷ itable)) ≡ pad ++ word ∷ rest =
      words-append (padding (4 * c) offset) _
      ∙ (ap (λ o. words (padding (4 * c) o) ++ word ∷ words (itable_lines (o + 4) itable)) at
          ∙ (ap (λ ws. ws ++ word ∷ words (itable_lines (4 * q + 4) itable)) (words-padding c q le)
              ∙ ap (λ o. pad ++ word ∷ words (itable_lines o itable)) next)) in
    let here : before ++ words (itable_lines (4 * c) ((offset, (type, mid)) ∷ itable))
        ≡ (before ++ pad) ++ word ∷ rest =
      ap (before ++◌) lines ∙ sym (append_assoc before pad (word ∷ rest)) in
    let behind : (before ++ pad) ++ word ∷ rest ≡ ((before ++ pad) ++ word ∷ []) ++ rest =
      sym (append_assoc (before ++ pad) (word ∷ []) rest) in
    let full : length (before ++ pad) ≡ q =
      omega (arith, length-append before pad, length-zeros (q - c), e, le) in
    let more : length ((before ++ pad) ++ word ∷ []) ≡ suc q =
      omega (arith, length-append (before ++ pad) (word ∷ []), full) in
    let found : get_elem? ((before ++ pad) ++ word ∷ rest) q ≡ some word =
      subst (λ n. get_elem? ((before ++ pad) ++ word ∷ rest) n ≡ some word) full
        (get_elem?-length (before ++ pad) word rest) in
    let others = stands_behind ((before ++ pad) ++ word ∷ []) (suc q) itable more spaced in
    (
      (q, at, subst (λ ws. get_elem? ws q ≡ some word) (sym here) found),
      subst (λ ws. All (StandsIn ws) itable) (sym (here ∙ behind)) others,
    )

-- Where the offsets of an itable ascend and are multiples of four, the word that `WriteItable` puts at the
-- offset of an entry is the address of the entry's method.
pub itable_lines-StandsIn :
    (itable : Itable) → Spaced 0 itable → All (StandsIn (words (itable_lines 0 itable))) itable
itable_lines-StandsIn itable spaced = stands_behind [] 0 itable refl spaced
