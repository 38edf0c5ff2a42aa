-- ===== src/Sqlite/AuditLog/Latest.antt =====
-- crates/zerolease-store-rusqlite/src/audit.rs: the order in which the queries answer.
use zerolease.Prelude.{
  ◌≡◌, refl, ap, ◌∙◌, inl, inr, Bool, true, false, List, [], ◌∷◌, Text, arith, filter, ◌==◌,
  text_eq, text_beq, text_beq_iff, Bool-cases, if◌then◌else◌,
}
use zerolease.Sqlite.AuditLog.{text_le}
use zerolease.Sqlite.AuditLog.Queries.{place_latest, newest_first}

text_le_refl : (s : Text) → text_le s s ≡ true
unfolding text_le
text_le_refl [] = refl
text_le_refl (c ∷ s) = ground (arith, text_le_refl s)

text_le_trans : (s t u : Text) → text_le s t ≡ true → text_le t u ≡ true → text_le s u ≡ true
unfolding text_le
text_le_trans [] t u h k = refl
text_le_trans (c ∷ s) [] u h k = absurd (ground arith)
text_le_trans (c ∷ s) (d ∷ t) [] h k = absurd (ground arith)
text_le_trans (c ∷ s) (d ∷ t) (e ∷ u) h k = ground (arith, text_le_trans s t u)

text_le_total : (s t : Text) → text_le s t ≡ false → text_le t s ≡ true
unfolding text_le
text_le_total [] t h = absurd (ground arith)
text_le_total (c ∷ s) [] h = refl
text_le_total (c ∷ s) (d ∷ t) h = ground (arith, text_le_total s t)

module _ {A : Type 0} (key : A → Text) where
  -- Nothing in the list is later than the time.
  abbrev UpTo : Text → List A → Type 0
  UpTo time [] = Unit {0}
  UpTo time (a ∷ l) = (text_le (key a) time ≡ true) × UpTo time l

  -- Nothing is later than what stands before it.
  abbrev pub Descending : List A → Type 0
  Descending [] = Unit {0}
  Descending (a ∷ l) = UpTo (key a) l × Descending l

  abbrev pub is_at : Text → A → Bool
  is_at time a = key a == time

  -- The answer has the latest first, and at each time what the list has of that time, in the order
  -- of the list.
  pub record LatestFirst (from answer : List A) : Type 0 where
    pub descends : Descending answer
    pub stable : (time : Text) → filter (is_at time) answer ≡ filter (is_at time) from

  UpTo-weaken : (s t : Text) (l : List A) → text_le s t ≡ true → UpTo s l → UpTo t l
  UpTo-weaken s t [] h u = tt
  UpTo-weaken s t (a ∷ l) h (le, u) = (text_le_trans (key a) s t le h, UpTo-weaken s t l h u)

  place_latest-UpTo :
      (time : Text) (a : A) (l : List A)
      → text_le (key a) time ≡ true
      → UpTo time l
      → UpTo time (place_latest key a l)
  unfolding place_latest
  place_latest-UpTo time a [] h u = (h, tt)
  place_latest-UpTo time a (s ∷ l) h (le, u) = elim (Bool-cases (text_le (key s) (key a))) [
    | inl before ↦ rw (place_latest, before) (h, (le, u))
    | inr after ↦ rw (place_latest, after) (le, place_latest-UpTo time a l h u)
  ]

  place_latest-Descending : (a : A) (l : List A) → Descending l → Descending (place_latest key a l)
  unfolding place_latest
  place_latest-Descending a [] d = (tt, tt)
  place_latest-Descending a (s ∷ l) (u, d) = elim (Bool-cases (text_le (key s) (key a))) [
    | inl before ↦
        rw (place_latest, before) ((before, UpTo-weaken (key s) (key a) l before u), (u, d))
    | inr after ↦
        let le = text_le_total (key s) (key a) after in
        rw (place_latest, after) (place_latest-UpTo (key s) a l le u, place_latest-Descending a l d)
  ]

  place_latest-stable :
      (time : Text) (a : A) (l : List A)
      → filter (is_at time) (place_latest key a l) ≡ filter (is_at time) (a ∷ l)
  unfolding place_latest filter
  place_latest-stable time a [] = refl
  place_latest-stable time a (s ∷ l) =
      let rest = place_latest-stable time a l in
      elim (Bool-cases (text_le (key s) (key a))) [
        | inl before ↦ rw (place_latest, before) refl
        | inr after ↦ elim (Bool-cases (is_at time s)) [
          | inr other ↦ rw (place_latest, after, filter, other, rest) refl
          | inl here ↦ elim (Bool-cases (is_at time a)) [
            | inr other ↦ rw (place_latest, after, filter, here, rest, filter, other) refl
            | inl both ↦
                let e = (text_beq_iff (key s) time).0 here in
                let f = (text_beq_iff (key a) time).0 both in
                let le : text_le (key s) (key a) ≡ true = rw (e, f) (text_le_refl time) in
                absurd (ground arith)
          ]
        ]
      ]

  pub newest_first-LatestFirst : (l : List A) → LatestFirst l (newest_first key l)
  unfolding newest_first filter text_beq
  newest_first-LatestFirst [] = record { descends = tt; stable = λ time. refl }
  newest_first-LatestFirst (a ∷ l) =
      let rest = newest_first-LatestFirst l in
      let placed = newest_first key l in
      record {
        descends = place_latest-Descending a placed rest.descends;
        stable = λ time.
            place_latest-stable time a placed
            ∙ ap (λ k. if is_at time a then a ∷ k else k) (rest.stable time);
      }
