-- ===== src/Telemetry/Stream/Assembly.antt =====
-- What `assemble` computes: on a complete stream the payloads in the order of their indices, with
-- none missing, whatever the order in which the segments came or the map is walked.
use ufo_observation_command.Base.{
  ℕ, zero, suc, ◌+◌, ℤ, pos, negsuc, pos_part, neg_part, ◌≤ℤ◌, ◌<ℤ◌, ◌<◌, eq_of_parts, ◌≡◌, ◌≢◌,
  refl, ap, ap₂, subst, ◌∙◌, none, List, [], ◌∷◌, All, length, Dict, get, Distinct, int_key,
  Bool-cases, ==ℤ_iff, ◌==ℤ◌, leb_ℤ, inl, inr, arith,
}
use ufo_observation_command.Telemetry.Types.{Stream}
use ufo_observation_command.Telemetry.Stream.{
  insert_int, sort_ints, keys, concat_payloads, assemble,
}
use ufo_observation_command.Telemetry.Stream.Invariant.{StreamIsValid, SegmentIsValid}

abbrev StrictAbove : ℤ → List ℤ → Type 0
StrictAbove lo [] = Unit
StrictAbove lo (x ∷ xs) = (lo <ℤ x) × StrictAbove x xs

abbrev NotIn : ℤ → List ℤ → Type 0
NotIn i = All (λ j. i ≢ j)

-- a, a + 1, ..., n of them.
abbrev pub indices : ℕ → ℕ → List ℤ
indices a zero = []
indices a (suc n) = pos a ∷ indices (suc a) n

lt_of_le_ne : (a b : ℤ) → a ≤ℤ b → a ≢ b → a <ℤ b
lt_of_le_ne a b l d = elim (Bool-cases (a ==ℤ b)) [
  | inl e ↦ absurd (d ((==ℤ_iff a b).0 e))
  | inr e ↦ ground arith
]

insert_int-StrictAbove :
    (lo i : ℤ) (xs : List ℤ)
    → lo <ℤ i
    → NotIn i xs
    → StrictAbove lo xs
    → StrictAbove lo (insert_int i xs)
unfolding insert_int
insert_int-StrictAbove lo i [] h n s = (h, tt)
insert_int-StrictAbove lo i (x ∷ xs) h n s = elim (Bool-cases (leb_ℤ i x)) [
  | inl t ↦ rw t (h, (lt_of_le_ne i x (ground arith) n.0, s.1))
  | inr t ↦ rw t (s.0, insert_int-StrictAbove x i xs (ground arith) n.1 s.1)
]

insert_int-All {ℓ} :
    (P : ℤ → Type ℓ) (i : ℤ) (xs : List ℤ) → P i → All P xs → All P (insert_int i xs)
unfolding insert_int
insert_int-All P i [] h hs = (h, hs)
insert_int-All P i (x ∷ xs) h hs = elim (Bool-cases (leb_ℤ i x)) [
  | inl t ↦ rw t (h, hs)
  | inr t ↦ rw t (hs.0, insert_int-All P i xs h hs.1)
]

length-insert_int : (i : ℤ) (xs : List ℤ) → length (insert_int i xs) ≡ suc (length xs)
unfolding insert_int
length-insert_int i [] = refl
length-insert_int i (x ∷ xs) = ground (arith, length-insert_int i xs)

sort_ints-All {ℓ} : (P : ℤ → Type ℓ) (xs : List ℤ) → All P xs → All P (sort_ints xs)
unfolding sort_ints
sort_ints-All P [] h = tt
sort_ints-All P (x ∷ xs) h = insert_int-All P x (sort_ints xs) h.0 (sort_ints-All P xs h.1)

length-sort_ints : (xs : List ℤ) → length (sort_ints xs) ≡ length xs
unfolding sort_ints
length-sort_ints [] = refl
length-sort_ints (x ∷ xs) = length-insert_int x (sort_ints xs) ∙ ap suc (length-sort_ints xs)

abbrev DistinctInts : List ℤ → Type 0
DistinctInts [] = Unit
DistinctInts (x ∷ xs) = NotIn x xs × DistinctInts xs

sort_ints-StrictAbove :
    (lo : ℤ) (xs : List ℤ) → All (λ x. lo <ℤ x) xs → DistinctInts xs → StrictAbove lo (sort_ints xs)
unfolding sort_ints
sort_ints-StrictAbove lo [] h d = tt
sort_ints-StrictAbove lo (x ∷ xs) h d =
    insert_int-StrictAbove lo x (sort_ints xs) h.0 (sort_ints-All (λ j. x ≢ j) xs d.0)
      (sort_ints-StrictAbove lo xs h.1 d.1)

module _ {ℓ} {V : Type ℓ} where
  length-keys : (m : Dict ℤ V) → length (keys m) ≡ length m
  length-keys [] = refl
  length-keys (e ∷ m) = ap suc (length-keys m)

  absent-NotIn : (i : ℤ) (m : Dict ℤ V) → get m i ≡ none → NotIn i (keys m)
  unfolding get
  absent-NotIn i [] h = tt
  absent-NotIn i ((j, v) ∷ m) h = elim (Bool-cases (j ==ℤ i)) [
    | inl e ↦ absurd (ground arith)
    | inr e ↦ (λ p. absurd (ground arith), absent-NotIn i m (ground arith))
  ]

  keys-Distinct : (m : Dict ℤ V) → Distinct m → DistinctInts (keys m)
  keys-Distinct [] h = tt
  keys-Distinct ((i, v) ∷ m) h = (absent-NotIn i m h.0, keys-Distinct m h.1)

  keys-All {κ} :
      (P : ℤ × V → Type κ) (Q : ℤ → Type κ) (m : Dict ℤ V)
      → ((e : ℤ × V) → P e → Q e.0)
      → All P m
      → All Q (keys m)
  keys-All P Q [] f h = tt
  keys-All P Q ((i, v) ∷ m) f h = (f (i, v) h.0, keys-All P Q m f h.1)

-- Strictly growing numbers below `hi` are few.
few :
    (lo hi : ℤ) (xs : List ℤ)
    → lo <ℤ hi
    → StrictAbove lo xs
    → All (λ x. x <ℤ hi) xs
    → pos_part lo + length xs + neg_part hi < pos_part hi + neg_part lo
few lo hi [] h s b = omega arith
few lo hi (x ∷ xs) h s b = omega (arith, few x hi xs b.0 s.1 b.1)

abbrev below : ℕ → ℤ
below zero = negsuc 0
below (suc a) = pos a

first_index :
    (a : ℕ) (x : ℤ) (xs : List ℤ)
    → StrictAbove (below a) (x ∷ xs)
    → All (λ y. y <ℤ pos (a + length (x ∷ xs))) (x ∷ xs)
    → x ≡ pos a
first_index zero x xs s b =
    eq_of_parts _ _ (omega (arith, few x (pos (0 + length (x ∷ xs))) xs b.0 s.1 b.1))
first_index (suc a) x xs s b =
    eq_of_parts _ _ (omega (arith, few x (pos (suc a + length (x ∷ xs))) xs b.0 s.1 b.1))

-- As many as there is room for are all of them.
exactly :
    (a : ℕ) (xs : List ℤ)
    → StrictAbove (below a) xs
    → All (λ x. x <ℤ pos (a + length xs)) xs
    → xs ≡ indices a (length xs)
exactly a [] s b = refl
exactly a (x ∷ xs) s b =
    let first : x ≡ pos a = first_index a x xs s b in
    ap₂ ◌∷◌ first (
      exactly (suc a) xs (subst (λ y. StrictAbove y xs) first s.1)
        (subst (λ n. All (λ y. y <ℤ pos n) xs) (omega arith) b.1))

-- On a complete stream the sorted keys are 0, 1, ..., n - 1.
sorted_keys :
    (s : Stream)
    → StreamIsValid s
    → pos (length s.segments) ≡ s.expected_segments
    → sort_ints (keys s.segments) ≡ indices 0 (length s.segments)
sorted_keys s v l =
    let n : length (sort_ints (keys s.segments)) ≡ length s.segments =
      length-sort_ints (keys s.segments) ∙ length-keys s.segments in
    exactly 0 (sort_ints (keys s.segments))
      (sort_ints-StrictAbove (negsuc 0) (keys s.segments)
        (keys-All (SegmentIsValid s.expected_segments) (λ x. negsuc 0 <ℤ x) s.segments
          (λ e p. omega arith) v.segments)
        (keys-Distinct s.segments v.distinct))
      (sort_ints-All _ (keys s.segments) (
        keys-All (SegmentIsValid s.expected_segments) _ s.segments
          (λ e p. omega (arith, n, ap pos_part l, ap neg_part l)) v.segments))
    ∙ ap (indices 0) n

-- On a complete stream the payload is the concatenation of all payloads by index.
pub assemble_complete :
    (s : Stream)
    → StreamIsValid s
    → pos (length s.segments) ≡ s.expected_segments
    → assemble s ≡ concat_payloads s.segments (indices 0 (length s.segments))
unfolding assemble
assemble_complete s v l = ap (concat_payloads s.segments) (sorted_keys s v l)
