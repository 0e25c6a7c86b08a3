-- ===== src/Redaction/Fragments.antt =====
-- The fragments in a key's text.
use dos_amigos_ops.Base.{
  ==_iff, ==_refl, Bool, Bool-cases, List, Text, [], any, ap, arith, if◌then◌else◌, inl, inr, map,
  refl, starts_with, text_eq, text_eq_refl, text_eq→eq, true, ℕ, ◌++◌, ◌==◌, ◌∷◌, ◌≡◌,
}
use dos_amigos_ops.Redaction.Sensitive.{contains, dashes_to_underscores}

starts_with_sound : (p s : Text) → starts_with p s ≡ true → (after : Text) × (s ≡ p ++ after)
unfolding starts_with
starts_with_sound [] s h = (s, refl)
starts_with_sound (c ∷ p) [] h = cc
starts_with_sound (c ∷ p) (d ∷ s) h =
    let (after, e) = starts_with_sound p s (ground (arith, h)) in
    let same : c ≡ d = (==_iff c d).0 (ground (arith, h)) in
    (after, rw same (ap (λ (t : Text). d ∷ t) e))

starts_with_complete : (p after : Text) → starts_with p (p ++ after) ≡ true
unfolding starts_with
starts_with_complete [] after = refl
starts_with_complete (c ∷ p) after = rw (==_refl c, starts_with_complete p after) refl

pub contains_sound :
    (p s : Text)
    → contains p s ≡ true
    → (before : Text) × (after : Text) × (s ≡ before ++ p ++ after)
unfolding contains
contains_sound p [] h = let (after, e) = starts_with_sound p [] h in ([], after, e)
contains_sound p (c ∷ s) h = elim (Bool-cases (starts_with p (c ∷ s))) [
  | inl here ↦ let (after, e) = starts_with_sound p (c ∷ s) here in ([], after, e)
  | inr later ↦
      let (before, after, e) = contains_sound p s (rw later at h) in
      (c ∷ before, after, ap (λ (t : Text). c ∷ t) e)
]

contains_start : (p s : Text) → starts_with p s ≡ true → contains p s ≡ true
unfolding contains
contains_start p [] h = h
contains_start p (c ∷ s) h = rw h refl

contains_later : (c : ℕ) (p s : Text) → contains p s ≡ true → contains p (c ∷ s) ≡ true
unfolding contains
contains_later c p s h = ground (arith, h)

pub contains_complete : (before p after : Text) → contains p (before ++ p ++ after) ≡ true
contains_complete [] p after = contains_start p (p ++ after) (starts_with_complete p after)
contains_complete (c ∷ before) p after =
    contains_later c p (before ++ p ++ after) (contains_complete before p after)

pub any_sound :
    (f : Text → Bool) (xs : List Text)
    → any f xs ≡ true
    → (x : Text) × (any (text_eq x) xs ≡ true) × (f x ≡ true)
unfolding any
any_sound f [] h = cc
any_sound f (x ∷ xs) h = elim (Bool-cases (f x)) [
  | inl holds ↦ (x, rw (text_eq_refl x) refl, holds)
  | inr fails ↦
      let (y, listed, holds) = any_sound f xs (rw fails at h) in (y, ground (arith, listed), holds)
]

pub any_complete :
    (f : Text → Bool) (x : Text) (xs : List Text)
    → any (text_eq x) xs ≡ true
    → f x ≡ true
    → any f xs ≡ true
unfolding any
any_complete f x [] h k = cc
any_complete f x (y ∷ xs) h k = elim (Bool-cases (text_eq x y)) [
  | inl same ↦ rw (← text_eq→eq x y same, k) refl
  | inr other ↦ ground (arith, any_complete f x xs)
]

pub dashes_to_underscores-map :
    (s : Text) → dashes_to_underscores s ≡ map (λ c. if c == 45 then 95 else c) s
unfolding dashes_to_underscores
dashes_to_underscores-map [] = refl
dashes_to_underscores-map (c ∷ s) =
    ap (λ (t : Text). (if c == 45 then 95 else c) ∷ t) (dashes_to_underscores-map s)
