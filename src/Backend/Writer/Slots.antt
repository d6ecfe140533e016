-- ===== src/Backend/Writer/Slots.antt =====
-- backend/i386/writer.cpp, `FuncWriter`: where the memories lie in the frame of a method.
pub mod Kept
use joosc.Backend.Writer.{StackEntry}
use joosc.Backend.Writer.Memory.{erase_entry}
use joosc.Common.{
  ℕ, suc, ◌+◌, ◌*◌, ◌≤◌, ◌≡◌, ◌≢◌, ◌⊎◌, inl, inr, refl, sym, ap, ◌∙◌, subst, Bool-cases, some,
  some_injective, List, [], ◌∷◌, Memᴰ, ◌==◌, ==_iff, ok, arith,
}
use joosc.Common.Integers.{ℤ, pos, negsuc, ◌+ℤ◌, ◌-ℤ◌}
use joosc.Common.Maps.{get, insert_new, insert_new-ok}

-- The memories that were allocated and not freed, the last one first, fill the bytes below `n`, four each.
abbrev pub Piled : List StackEntry → ℕ → Type 0
Piled [] n = n ≡ 0
Piled (e ∷ stack) n = (m : ℕ) × (e.offset ≡ pos m) × (n ≡ m + 4) × Piled stack m

-- The slot that the caller fills for the parameter `k`.
abbrev pub param_slot : ℕ → ℤ
param_slot k = negsuc (4 * k + 7)

abbrev pub Placed : ℕ → StackEntry → List StackEntry → Type 0
Placed k e stack = (e.id ≡ k) × (Memᴰ e stack ⊎ ((1 ≤ k) × (e.offset ≡ param_slot k)))

pub record IsLaid (stack_map : List (ℕ × StackEntry)) (cur_offset : ℤ) (stack : List StackEntry)
    : Type 0 where
  pub depth : ℕ
  pub at_depth : cur_offset ≡ pos depth
  pub piled : Piled stack depth
  pub placed : (k : ℕ) (e : StackEntry) → get ◌==◌ k stack_map ≡ some e → Placed k e stack

-- Four bytes of one memory and four of another have none in common.
abbrev pub Apart : ℤ → ℤ → Type 0
Apart (pos m) (pos n) = (m + 4 ≤ n) ⊎ (n + 4 ≤ m)
Apart (pos m) (negsuc n) = 4 ≤ m + suc n
Apart (negsuc m) (pos n) = 4 ≤ n + suc m
Apart (negsuc m) (negsuc n) = (m + 4 ≤ n) ⊎ (n + 4 ≤ m)

-- A slot lies among the bytes in use, or above the frame pointer, the return address and the caller's
-- stack frame.
abbrev pub InFrame : ℤ → ℤ → Type 0
InFrame (pos n) (pos m) = m + 4 ≤ n
InFrame (pos n) (negsuc k) = 11 ≤ k
InFrame (negsuc n) o = ⊥

Piled-mem :
    (stack : List StackEntry) (n : ℕ) (e : StackEntry)
    → Piled stack n
    → Memᴰ e stack
    → (m : ℕ) × (e.offset ≡ pos m) × (m + 4 ≤ n)
Piled-mem [] n e piled mem = elim mem [ ]
Piled-mem (x ∷ stack) n e (m, at, top, below) (Memᴰ.head same) =
    (m, ap (λ y. y.offset) same ∙ at, omega (arith, top))
Piled-mem (x ∷ stack) n e (m, at, top, below) (Memᴰ.tail later) =
    let (m', at', under) = Piled-mem stack m e below later in (m', at', omega (arith, under, top))

-- Of two that were allocated, one came first.
Piled-Apart :
    (stack : List StackEntry) (n : ℕ) (e f : StackEntry)
    → Piled stack n
    → Memᴰ e stack
    → Memᴰ f stack
    → e.id ≢ f.id
    → Apart e.offset f.offset
Piled-Apart [] n e f piled mem mem' differ = elim mem [ ]
Piled-Apart (x ∷ stack) n e f (m, at, top, below) (Memᴰ.head he) (Memᴰ.head hf) differ =
    absurd (differ (ap (λ y. y.id) (he ∙ sym hf)))
Piled-Apart (x ∷ stack) n e f (m, at, top, below) (Memᴰ.head he) (Memᴰ.tail hf) differ =
    let (m', at', under) = Piled-mem stack m f below hf in
    rw (ap (λ y. y.offset) he ∙ at, at') (inr under)
Piled-Apart (x ∷ stack) n e f (m, at, top, below) (Memᴰ.tail he) (Memᴰ.head hf) differ =
    let (m', at', under) = Piled-mem stack m e below he in
    rw (at', ap (λ y. y.offset) hf ∙ at) (inl under)
Piled-Apart (x ∷ stack) n e f (m, at, top, below) (Memᴰ.tail he) (Memᴰ.tail hf) differ =
    Piled-Apart stack m e f below he hf differ

-- Two memories that are live have slots apart.
pub IsLaid-Apart :
    {stack_map : List (ℕ × StackEntry)} {o : ℤ} {stack : List StackEntry}
    → IsLaid stack_map o stack
    → (k j : ℕ) (e f : StackEntry) → get ◌==◌ k stack_map ≡ some e
    → get ◌==◌ j stack_map ≡ some f
    → k ≢ j
    → Apart e.offset f.offset
IsLaid-Apart {stack_map} {o} {stack} laid k j e f at_k at_j differ =
    let (id_e, place_e) = laid.placed k e at_k in
    let (id_f, place_f) = laid.placed j f at_j in
    both place_e place_f (λ same. differ (sym id_e ∙ (same ∙ id_f)))
  where
    params : k ≢ j → (4 * k + 7 + 4 ≤ 4 * j + 7) ⊎ (4 * j + 7 + 4 ≤ 4 * k + 7)
    params h = ground arith

    both :
        (Memᴰ e stack ⊎ ((1 ≤ k) × (e.offset ≡ param_slot k)))
        → (Memᴰ f stack ⊎ ((1 ≤ j) × (f.offset ≡ param_slot j)))
        → e.id ≢ f.id
        → Apart e.offset f.offset
    both (inl he) (inl hf) h = Piled-Apart stack laid.depth e f laid.piled he hf h
    both (inl he) (inr (from, hf)) h =
        let (m, at, under) = Piled-mem stack laid.depth e laid.piled he in rw (at, hf) (omega arith)
    both (inr (from, he)) (inl hf) h =
        let (m, at, under) = Piled-mem stack laid.depth f laid.piled hf in rw (at, he) (omega arith)
    both (inr (from, he)) (inr (from', hf)) h = rw (he, hf) (params differ)

pub IsLaid-InFrame :
    {stack_map : List (ℕ × StackEntry)} {o : ℤ} {stack : List StackEntry}
    → IsLaid stack_map o stack
    → (k : ℕ) (e : StackEntry) → get ◌==◌ k stack_map ≡ some e
    → InFrame o e.offset
IsLaid-InFrame {stack_map} {o} {stack} laid k e at_k = place (laid.placed k e at_k).1
  where
    place : (Memᴰ e stack ⊎ ((1 ≤ k) × (e.offset ≡ param_slot k))) → InFrame o e.offset
    place (inl he) =
        let (m, at, under) = Piled-mem stack laid.depth e laid.piled he in
        rw (laid.at_depth, at) under
    place (inr (from, he)) = rw (laid.at_depth, he) (omega (arith, from))

-- A map with an entry in front.
Placed-cons :
    (k j : ℕ) (x e : StackEntry) (stack_map : List (ℕ × StackEntry)) (stack : List StackEntry)
    → get ◌==◌ j ((k, x) ∷ stack_map) ≡ some e
    → Placed k x stack
    → (get ◌==◌ j stack_map ≡ some e → Placed j e stack)
    → Placed j e stack
Placed-cons k j x e stack_map stack h new old = elim (Bool-cases (j == k)) [
  | inl here ↦
      subst (λ i. Placed i e stack) (sym ((==_iff j k).0 here))
        (subst (λ y. Placed k y stack) (some_injective (rw here at h)) new)
  | inr other ↦ old (rw other at h)
]

Placed-tail :
    (k : ℕ) (e x : StackEntry) (stack : List StackEntry) → Placed k e stack → Placed k e (x ∷ stack)
Placed-tail k e x stack (same_id, inl mem) = (same_id, inl (Memᴰ.tail mem))
Placed-tail k e x stack (same_id, inr param) = (same_id, inr param)

Placed-rest :
    (k : ℕ) (e x : StackEntry) (stack : List StackEntry)
    → k ≢ x.id
    → Placed k e (x ∷ stack)
    → Placed k e stack
Placed-rest k e x stack differ (same_id, inl (Memᴰ.head same)) =
    absurd (differ (sym same_id ∙ ap (λ y. y.id) same))
Placed-rest k e x stack differ (same_id, inl (Memᴰ.tail mem)) = (same_id, inl mem)
Placed-rest k e x stack differ (same_id, inr param) = (same_id, inr param)

pub alloc-IsLaid :
    {stack_map stack_map' : List (ℕ × StackEntry)} {o : ℤ} {stack : List StackEntry} (k : ℕ)
    (x : StackEntry)
    → IsLaid stack_map o stack
    → x.id ≡ k
    → x.offset ≡ o
    → insert_new ◌==◌ k x stack_map ≡ ok stack_map'
    → IsLaid stack_map' (o +ℤ 4) (x ∷ stack)
unfolding ◌+ℤ◌
alloc-IsLaid {stack_map} {stack_map'} {o} {stack} k x laid same_id at h = record {
  depth = laid.depth + 4;
  at_depth = rw laid.at_depth refl;
  piled = (laid.depth, at ∙ laid.at_depth, refl, laid.piled);
  placed = λ j e found.
      Placed-cons k j x e stack_map (x ∷ stack)
        (subst (λ m. get ◌==◌ j m ≡ some e) (insert_new-ok ◌==◌ ==_iff k x stack_map stack_map' h).1
          found)
        (same_id, inl (Memᴰ.head refl)) (λ old. Placed-tail j e x stack (laid.placed j e old));
}

pub param-IsLaid :
    {stack_map stack_map' : List (ℕ × StackEntry)} {o : ℤ} {stack : List StackEntry} (k : ℕ)
    (x : StackEntry)
    → IsLaid stack_map o stack
    → 1 ≤ k
    → x.id ≡ k
    → x.offset ≡ param_slot k
    → insert_new ◌==◌ k x stack_map ≡ ok stack_map'
    → IsLaid stack_map' o stack
param-IsLaid {stack_map} {stack_map'} {o} {stack} k x laid from same_id at h = record {
  depth = laid.depth;
  at_depth = laid.at_depth;
  piled = laid.piled;
  placed = λ j e found.
      Placed-cons k j x e stack_map stack
        (subst (λ m. get ◌==◌ j m ≡ some e) (insert_new-ok ◌==◌ ==_iff k x stack_map stack_map' h).1
          found)
        (same_id, inr (from, at)) (laid.placed j e);
}

get-erase_entry :
    (memid j : ℕ) (e : StackEntry) (m : List (ℕ × StackEntry))
    → get ◌==◌ j (erase_entry memid m) ≡ some e
    → (j ≢ memid) × (get ◌==◌ j m ≡ some e)
unfolding erase_entry
get-erase_entry memid j e [] h = cc
get-erase_entry memid j e ((id, x) ∷ m) h = ground (arith, get-erase_entry memid j e m)

pub dealloc-IsLaid :
    {stack_map : List (ℕ × StackEntry)} {o : ℤ} {stack : List StackEntry} (memid : ℕ)
    (x : StackEntry)
    → IsLaid stack_map o (x ∷ stack)
    → x.id ≡ memid
    → IsLaid (erase_entry memid stack_map) (o -ℤ 4) stack
unfolding ◌-ℤ◌
dealloc-IsLaid {stack_map} {o} {stack} memid x laid same_id =
    let (m, at, top, below) = laid.piled in
    record {
      depth = m;
      at_depth = rw (laid.at_depth, top) (ground arith);
      piled = below;
      placed = λ j e found.
          let (differ, old) = get-erase_entry memid j e stack_map found in
          Placed-rest j e x stack (λ same. differ (same ∙ same_id)) (laid.placed j e old);
    }
