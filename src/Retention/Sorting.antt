-- ===== src/Retention/Sorting.antt =====
-- The order of the segments of a manifest (runeguard/audit_compliance.py), and which one is last.
use runeguard.Prelude.{
  true, false, List, [], ◌∷◌, All, some, ◌≡◌, ◌⊎◌, inl, inr, refl, sym, ap, ◌∙◌, arith, Bool-cases,
}
use runeguard.Prelude.Int.{ℤ, pos, negsuc}
use runeguard.Retention.{Segment, le_ℤ, insert_by, sorted_by, replaces, put_segment}
use runeguard.Retention.Directory.{last_segment, last_seq_of}

le_ℤ-refl : (a : ℤ) → le_ℤ a a ≡ true
unfolding le_ℤ
le_ℤ-refl (pos a) = ground arith
le_ℤ-refl (negsuc a) = ground arith

le_ℤ-total : (a b : ℤ) → le_ℤ a b ≡ false → le_ℤ b a ≡ true
unfolding le_ℤ
le_ℤ-total (pos a) (pos b) h = ground arith
le_ℤ-total (pos a) (negsuc b) h = refl
le_ℤ-total (negsuc a) (pos b) h = cc
le_ℤ-total (negsuc a) (negsuc b) h = ground arith

-- The segment is one of the list.
abbrev pub Has : Segment → List Segment → Type 0
Has s [] = ⊥
Has s (t ∷ segments) = (t ≡ s) ⊎ Has s segments

module _ (key : Segment → ℤ) where
  insert_by-All :
      (Q : Segment → Type 0) (t : Segment) (segments : List Segment)
      → Q t
      → All Q segments
      → All Q (insert_by key t segments)
  unfolding insert_by
  insert_by-All Q t [] q all = (q, tt)
  insert_by-All Q t (u ∷ segments) q (first, rest) = elim (Bool-cases (le_ℤ (key t) (key u))) [
    | inl e ↦ rw e (q, (first, rest))
    | inr e ↦ rw e (first, insert_by-All Q t segments q rest)
  ]

  pub sorted_by-All :
      (Q : Segment → Type 0) (segments : List Segment)
      → All Q segments
      → All Q (sorted_by key segments)
  unfolding sorted_by
  sorted_by-All Q [] all = tt
  sorted_by-All Q (t ∷ segments) (first, rest) =
      insert_by-All Q t (sorted_by key segments) first (sorted_by-All Q segments rest)

  insert_by-Has :
      (s t : Segment) (segments : List Segment)
      → (t ≡ s) ⊎ Has s segments
      → Has s (insert_by key t segments)
  unfolding insert_by
  insert_by-Has s t [] has = has
  insert_by-Has s t (u ∷ segments) has = elim (Bool-cases (le_ℤ (key t) (key u))) [
    | inl e ↦ rw e has
    | inr e ↦ rw e (elim has [
      | inl same ↦ inr (insert_by-Has s t segments (inl same))
      | inr (inl same) ↦ inl same
      | inr (inr later) ↦ inr (insert_by-Has s t segments (inr later))
    ])
  ]

  pub sorted_by-Has :
      (s : Segment) (segments : List Segment) → Has s segments → Has s (sorted_by key segments)
  unfolding sorted_by
  sorted_by-Has s (t ∷ segments) (inl same) = insert_by-Has s t (sorted_by key segments) (inl same)
  sorted_by-Has s (t ∷ segments) (inr later) =
      insert_by-Has s t (sorted_by key segments) (inr (sorted_by-Has s segments later))
  sorted_by-Has s [] has = elim has [ ]

  module _ (s : Segment) where
    abbrev pub IsBelow : Segment → Type 0
    IsBelow t = le_ℤ (key s) (key t) ≡ false

    abbrev pub IsWithin : Segment → Type 0
    IsWithin t = (t ≡ s) ⊎ IsBelow t

    IsWithin-le : (t : Segment) → IsWithin t → le_ℤ (key t) (key s) ≡ true
    IsWithin-le t (inl same) = rw same (le_ℤ-refl (key s))
    IsWithin-le t (inr lower) = le_ℤ-total (key s) (key t) lower

    last-cons :
        (t : Segment) (segments : List Segment)
        → last_segment segments ≡ some s
        → last_segment (t ∷ segments) ≡ some s
    unfolding last_segment
    last-cons t [] h = cc
    last-cons t (u ∷ segments) h = h

    insert_by-last :
        (t : Segment) (segments : List Segment)
        → IsWithin t
        → last_segment segments ≡ some s
        → last_segment (insert_by key t segments) ≡ some s
    unfolding insert_by last_segment
    insert_by-last t [] within h = cc
    insert_by-last t (u ∷ []) within h =
        let same : u ≡ s = cc in
        let low = IsWithin-le t within in
        let lower : le_ℤ (key t) (key u) ≡ true = rw same low in rw lower h
    insert_by-last t (u ∷ v ∷ segments) within h = elim (Bool-cases (le_ℤ (key t) (key u))) [
      | inl e ↦ rw e h
      | inr e ↦
          rw e (
            last-cons u (insert_by key t (v ∷ segments)) (insert_by-last t (v ∷ segments) within h))
    ]

    insert_by-top :
        (segments : List Segment)
        → All IsBelow segments
        → last_segment (insert_by key s segments) ≡ some s
    unfolding insert_by last_segment
    insert_by-top [] all = refl
    insert_by-top (t ∷ segments) (lower, rest) =
        rw lower (last-cons t (insert_by key s segments) (insert_by-top segments rest))

    sorted_by-cases :
        (segments : List Segment)
        → All IsWithin segments
        → (last_segment (sorted_by key segments) ≡ some s) ⊎ All IsBelow (sorted_by key segments)
    unfolding sorted_by
    sorted_by-cases [] all = inr tt
    sorted_by-cases (t ∷ segments) (within, rest) = elim (sorted_by-cases segments rest) [
      | inl top ↦ inl (insert_by-last t (sorted_by key segments) within top)
      | inr low ↦ elim within [
        | inl same ↦ inl (rw same (insert_by-top (sorted_by key segments) low))
        | inr lower ↦ inr (insert_by-All IsBelow t (sorted_by key segments) lower low)
      ]
    ]

    Has-not_below : (segments : List Segment) → Has s segments → All IsBelow segments → ⊥
    Has-not_below (t ∷ segments) (inl same) (lower, rest) =
        let same_order = ap (λ u. le_ℤ (key s) (key u)) same in
        let high = le_ℤ-refl (key s) in
        let absurd_order : true ≡ false = sym high ∙ sym same_order ∙ lower in cc
    Has-not_below (t ∷ segments) (inr later) (lower, rest) = Has-not_below segments later rest
    Has-not_below [] has low = has

    -- The last of a sorted list is a segment of it that is above every other.
    pub sorted_by-last :
        (segments : List Segment)
        → All IsWithin segments
        → Has s segments
        → last_segment (sorted_by key segments) ≡ some s
    sorted_by-last segments within has = elim (sorted_by-cases segments within) [
      | inl top ↦ top
      | inr low ↦
          elim (Has-not_below (sorted_by key segments) (sorted_by-Has s segments has) low) [ ]
    ]

-- Every segment ends before the given one does, but for the one that it replaces.
unfoldable pub EndsLast : Segment → List Segment → Type 0
EndsLast s [] = Unit
EndsLast s (t ∷ segments) =
    ((replaces s t ≡ true) × All (IsBelow last_seq_of s) segments)
    ⊎ ((replaces s t ≡ false) × IsBelow last_seq_of s t × EndsLast s segments)

IsBelow-IsWithin :
    (s : Segment) (segments : List Segment)
    → All (IsBelow last_seq_of s) segments
    → All (IsWithin last_seq_of s) segments
IsBelow-IsWithin s [] all = tt
IsBelow-IsWithin s (t ∷ segments) (lower, rest) = (inr lower, IsBelow-IsWithin s segments rest)

pub put_segment-IsWithin :
    (s : Segment) (segments : List Segment)
    → EndsLast s segments
    → All (IsWithin last_seq_of s) (put_segment s segments)
unfolding put_segment EndsLast
put_segment-IsWithin s [] ends = (inl refl, tt)
put_segment-IsWithin s (t ∷ segments) (inl (replaced, low)) =
    rw replaced (inl refl, IsBelow-IsWithin s segments low)
put_segment-IsWithin s (t ∷ segments) (inr (kept, lower, ends)) =
    rw kept (inr lower, put_segment-IsWithin s segments ends)

pub put_segment-Has : (s : Segment) (segments : List Segment) → Has s (put_segment s segments)
unfolding put_segment
put_segment-Has s [] = inl refl
put_segment-Has s (t ∷ segments) = elim (Bool-cases (replaces s t)) [
  | inl e ↦ rw e (inl refl)
  | inr e ↦ rw e (inr (put_segment-Has s segments))
]
