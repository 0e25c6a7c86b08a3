-- ===== src/Base/Rows.antt =====
-- Lemmas on the look-ups and updates of rows.
use mathlib.Core.Path.{◌≡◌, refl}
use mathlib.Core.Bool.{Bool, true, false}
use mathlib.Core.List.{List, [], ◌∷◌, ◌++◌}
use mathlib.Core.Option.{none, some}
use native.Mathlib.Omega.{arith}
use dos_amigos_ops.Base.Lists.{find, update_where}

module _ {ℓ} {A : Type ℓ} where
  -- A row that is found meets the condition.
  pub find_sound : (p : A → Bool) (xs : List A) {y : A} → find p xs ≡ some y → p y ≡ true
  unfolding find
  find_sound p [] h = cc
  find_sound p (x ∷ xs) {y} h = ground (arith, find_sound p xs {y = y})

  -- Rows written over with one that the query does not select.
  pub find-update_ne :
      (p q : A → Bool) (r : A) (xs : List A)
      → ((x : A) → p x ≡ true → q x ≡ false)
      → q r ≡ false
      → find q (update_where p (λ _. r) xs) ≡ find q xs
  unfolding find update_where
  find-update_ne p q r [] h k = refl
  find-update_ne p q r (x ∷ xs) h k = ground (arith, find-update_ne p q r xs h k, h x)

  pub find-update_self :
      (p : A → Bool) (r : A) (xs : List A) {y : A}
      → p r ≡ true
      → find p xs ≡ some y
      → find p (update_where p (λ _. r) xs) ≡ some r
  unfolding find update_where
  find-update_self p r [] k h = cc
  find-update_self p r (x ∷ xs) {y} k h = ground (arith, find-update_self p r xs {y = y} k)

  pub find-append :
      (p : A → Bool) (xs ys : List A) {y : A} → find p xs ≡ some y → find p (xs ++ ys) ≡ some y
  unfolding find
  find-append p [] ys h = cc
  find-append p (x ∷ xs) ys {y} h = ground (arith, find-append p xs ys {y = y})

  pub find-append_none :
      (p : A → Bool) (xs ys : List A) → find p xs ≡ none → find p (xs ++ ys) ≡ find p ys
  unfolding find
  find-append_none p [] ys h = refl
  find-append_none p (x ∷ xs) ys h = ground (arith, find-append_none p xs ys)
