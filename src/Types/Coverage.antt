-- ===== src/Types/Coverage.antt =====
-- crates/zerolease-types/src/identity.rs: what a domain scope covers, said without the matcher.
use zerolease.Prelude.{
  ℕ, ◌≡◌, refl, sym, ap, ◌∙◌, ◌≢◌, ◌↔◌, ◌⊎◌, inl, inr, true, some, [], ◌∷◌, ◌++◌, append_assoc,
  arith, Text, length, length-append, text_eq, text_beq, text_beq_iff, strip_prefix, strip_suffix,
  ends_with_byte, Bool-cases, Option-cases,
}
use zerolease.Types.Identity.{DomainScope, dot, wildcard, is_subdomain, matches}

-- The pattern is the host, or `*.suffix` where the host is `label.suffix` with a label.
abbrev pub Covers : DomainScope → Text → Type 0
Covers pattern host =
    (pattern ≡ host)
    ⊎ ((suffix : Text) × (label : Text) × (pattern ≡ wildcard ++ suffix)
        × (label ≢ [])
        × (host ≡ label ++ (dot ∷ suffix)))

strip_prefix-eq : (s p r : Text) → strip_prefix s p ≡ some r → s ≡ p ++ r
unfolding strip_prefix
strip_prefix-eq s [] r h = ground arith
strip_prefix-eq [] (c ∷ p) r h = ground arith
strip_prefix-eq (d ∷ s) (c ∷ p) r h = ground (arith, strip_prefix-eq s p r)

strip_prefix-append : (p r : Text) → strip_prefix (p ++ r) p ≡ some r
unfolding strip_prefix
strip_prefix-append [] r = refl
strip_prefix-append (c ∷ p) r = ground (arith, strip_prefix-append p r)

strip_suffix-eq : (s p : Text) {r : Text} → strip_suffix s p ≡ some r → s ≡ r ++ p
unfolding strip_suffix
strip_suffix-eq [] p h = ground (arith, text_beq_iff [] p)
strip_suffix-eq (c ∷ s) p {r} h = elim (Bool-cases (text_beq (c ∷ s) p)) [
  | inl e ↦ ground (arith, text_beq_iff (c ∷ s) p)
  | inr e ↦ elim (Option-cases (strip_suffix s p)) [
    | inl n ↦ ground arith
    | inr (t, f) ↦ ground (arith, strip_suffix-eq s p f)
  ]
]

append-ne : (c : ℕ) (r p : Text) → (c ∷ (r ++ p)) ≢ p
append-ne c r p e = absurd (omega (arith, ap length e, length-append r p))

strip_suffix-append : (r p : Text) → strip_suffix (r ++ p) p ≡ some r
unfolding strip_suffix
strip_suffix-append [] [] = ground (arith, text_beq_iff [] [])
strip_suffix-append [] (c ∷ p) = ground (arith, text_beq_iff (c ∷ p) (c ∷ p))
strip_suffix-append (c ∷ r) p = elim (Bool-cases (text_beq (c ∷ (r ++ p)) p)) [
  | inl e ↦ absurd (append-ne c r p ((text_beq_iff _ _).0 e))
  | inr e ↦ rw (e, strip_suffix-append r p)
]

ends_with_byte-eq :
    (s : Text) (c : ℕ) → ends_with_byte s c ≡ true → (r : Text) × (s ≡ r ++ (c ∷ []))
unfolding ends_with_byte
ends_with_byte-eq [] c h = ([], ground arith)
ends_with_byte-eq (d ∷ []) c h = ([], ground arith)
ends_with_byte-eq (d ∷ e ∷ s) c h =
    let (r, q) = ends_with_byte-eq (e ∷ s) c h in (d ∷ r, ap (◌∷◌ d) q)

ends_with_byte-append : (r : Text) (c : ℕ) → ends_with_byte (r ++ (c ∷ [])) c ≡ true
unfolding ends_with_byte
ends_with_byte-append [] c = ground arith
ends_with_byte-append (d ∷ []) c = ground arith
ends_with_byte-append (d ∷ e ∷ r) c = ends_with_byte-append (e ∷ r) c

is_subdomain-eq :
    (rest : Text)
    → is_subdomain rest ≡ true
    → (label : Text) × (label ≢ []) × (rest ≡ label ++ (dot ∷ []))
unfolding is_subdomain
is_subdomain-eq rest h =
    let (r, q) = ends_with_byte-eq rest dot (ground arith) in (r, (λ e. absurd (short r q e)), q)
  where
    short : (r : Text) → rest ≡ r ++ (dot ∷ []) → r ≡ [] → ⊥
    short r q e = ground (arith, ap length q, length-append r (dot ∷ []), ap length e)

is_subdomain-append : (label : Text) → label ≢ [] → is_subdomain (label ++ (dot ∷ [])) ≡ true
unfolding is_subdomain
is_subdomain-append [] h = absurd (h refl)
is_subdomain-append (c ∷ l) h =
    ground (arith, ends_with_byte-append (c ∷ l) dot, length-append (c ∷ l) (dot ∷ []))

matches-Covers : (p h : Text) → matches p h ≡ true → Covers p h
unfolding matches
matches-Covers p h m = elim (Bool-cases (text_beq p h)) [
  | inl e ↦ inl ((text_beq_iff p h).0 e)
  | inr e ↦ elim (Option-cases (strip_prefix p wildcard)) [
    | inl n ↦ ground arith
    | inr (suffix, f) ↦ elim (Option-cases (strip_suffix h suffix)) [
      | inl n ↦ ground arith
      | inr (rest, g) ↦
          let (label, long, q) = is_subdomain-eq rest (ground arith) in
          inr (
            suffix,
            label,
            strip_prefix-eq p wildcard suffix f,
            long,
            strip_suffix-eq h suffix g
                ∙ ap (λ (r : Text). r ++ suffix) q
                ∙ append_assoc label (dot ∷ []) suffix,
          )
    ]
  ]
]

Covers-matches : (p h : Text) → Covers p h → matches p h ≡ true
unfolding matches
Covers-matches p h (inl e) = rw ((text_beq_iff p h).1 e)
Covers-matches p h (inr (suffix, label, e, long, f)) = elim (Bool-cases (text_beq p h)) [
  | inl same ↦ rw same
  | inr other ↦ rw (other, tail, front) (is_subdomain-append label long)
]
  where
    tail : strip_prefix p wildcard ≡ some suffix
    tail = rw e (strip_prefix-append wildcard suffix)

    front : strip_suffix h suffix ≡ some (label ++ (dot ∷ []))
    front = rw f (rw (← append_assoc label (dot ∷ []) suffix) (strip_suffix-append _ suffix))

-- `DomainScope::matches` answers true exactly when the scope covers the host: the two are equal,
-- or the scope is `*.suffix` and the host is `label.suffix` with a label that is not empty.
pub matches_iff : (p h : Text) → (matches p h ≡ true) ↔ Covers p h
matches_iff p h = (matches-Covers p h, Covers-matches p h)

Covers-trans : (p q h : Text) → Covers p q → Covers q h → Covers p h
Covers-trans p q h (inl e) c = rw e c
Covers-trans p q h (inr c) (inl e) = rw (← e) (inr c)
Covers-trans p q h (inr (s, [], e, long, f)) (inr d) = absurd (long refl)
Covers-trans p q h (inr (s, x ∷ [], e, long, f)) (inr (t, l, e', long', f')) =
    inr (s, l, e, long', f' ∙ ap (λ (u : Text). l ++ (dot ∷ u)) (cc))
Covers-trans p q h (inr (s, x ∷ y ∷ k, e, long, f)) (inr (t, l, e', long', f')) = inr (
  s,
  l ++ (dot ∷ k),
  e,
  (λ n. absurd (omega (arith, ap length n, length-append l (dot ∷ k)))),
  f' ∙ ap (λ (u : Text). l ++ (dot ∷ u)) (cc) ∙ sym (append_assoc l (dot ∷ k) (dot ∷ s)),
)

-- A scope that another scope covers reaches no host which that other does not cover.
pub matches_trans : (p q h : Text) → matches p q ≡ true → matches q h ≡ true → matches p h ≡ true
matches_trans p q h m n =
    Covers-matches p h (Covers-trans p q h (matches-Covers p q m) (matches-Covers q h n))
