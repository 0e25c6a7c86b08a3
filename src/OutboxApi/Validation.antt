-- ===== src/OutboxApi/Validation.antt =====
-- What `validate_recipient_keys` accepts, and what it makes of it.
use dos_amigos_ops.Base.{
  Bool, Bool-cases, List, Text, [], all, any, arith, false, inl, inr, is_some, leb, length, none,
  refl, some, sym, text_eq, text_eq_iff, text_eq→eq, true, ◌&&◌, ◌++◌, ◌||◌, ◌∙◌, ◌∷◌, ◌≡◌,
}
use dos_amigos_ops.OutboxApi.Requests.{dedupe_keys, is_recipient_key, validate_recipient_keys}

-- No key is there twice.
abbrev pub Distinct : List Text → Type 0
Distinct [] = Unit
Distinct (key ∷ keys) = (any (text_eq key) keys ≡ false) × Distinct keys

any-append : (p : Text → Bool) (xs ys : List Text) → any p (xs ++ ys) ≡ (any p xs || any p ys)
unfolding any
any-append p [] ys = refl
any-append p (x ∷ xs) ys = ground (arith, any-append p xs ys)

text_eq_sym : (a b : Text) → text_eq a b ≡ text_eq b a
text_eq_sym a b = ground (arith, text_eq_iff a b, text_eq_iff b a)

snoc-Distinct :
    (keys : List Text) (key : Text)
    → Distinct keys
    → any (text_eq key) keys ≡ false
    → Distinct (keys ++ key ∷ [])
unfolding any
snoc-Distinct [] key h k = (refl, tt)
snoc-Distinct (x ∷ keys) key (h, rest) k = (
  any-append (text_eq x) keys (key ∷ []) ∙ ground (arith, text_eq_sym x key),
  snoc-Distinct keys key rest (ground arith),
)

any-text_eq :
    (p : Text → Bool) (key : Text) (keys : List Text)
    → any (text_eq key) keys ≡ true
    → p key ≡ true
    → any p keys ≡ true
unfolding any
any-text_eq p key [] h k = cc
any-text_eq p key (x ∷ keys) h k = ground (arith, any-text_eq p key keys, text_eq_iff key x)

all-snoc :
    (p : Text → Bool) (xs : List Text) (x : Text)
    → all p xs ≡ true
    → p x ≡ true
    → all p (xs ++ x ∷ []) ≡ true
unfolding all
all-snoc p [] x h k = ground arith
all-snoc p (y ∷ xs) x h k = ground (arith, all-snoc p xs x)

-- The loop, from the keys that it has.
record Deduped (deduped keys valid : List Text) : Type 0 where
  distinct : Distinct valid
  keys_valid : all is_recipient_key valid ≡ true
  same :
      (key : Text) → any (text_eq key) valid ≡ (any (text_eq key) deduped || any (text_eq key) keys)

any_seen :
    (key x : Text) (deduped keys : List Text)
    → any (text_eq x) deduped ≡ true
    → (any (text_eq key) deduped || any (text_eq key) keys)
      ≡ (any (text_eq key) deduped || any (text_eq key) (x ∷ keys))
any_seen key x deduped keys seen = elim (Bool-cases (text_eq key x)) [
  | inl e ↦ rw (text_eq→eq key x e, seen) refl
  | inr e ↦ unfold any in rw e refl
]

any_added :
    (key x : Text) (deduped keys : List Text)
    → (any (text_eq key) (deduped ++ x ∷ []) || any (text_eq key) keys)
      ≡ (any (text_eq key) deduped || any (text_eq key) (x ∷ keys))
any_added key x deduped keys =
    rw (any-append (text_eq key) deduped (x ∷ [])) (unfold any in ground arith)

module _ (deduped : List Text) (key : Text) (keys : List Text) where
  refused : is_recipient_key key ≡ false → dedupe_keys deduped (key ∷ keys) ≡ none
  refused bad = unfold dedupe_keys in rw bad

  kept :
      is_recipient_key key ≡ true
      → any (text_eq key) deduped ≡ true
      → dedupe_keys deduped (key ∷ keys) ≡ dedupe_keys deduped keys
  kept good seen = unfold dedupe_keys in ground arith

  added :
      is_recipient_key key ≡ true
      → any (text_eq key) deduped ≡ false
      → dedupe_keys deduped (key ∷ keys) ≡ dedupe_keys (deduped ++ key ∷ []) keys
  added good new = unfold dedupe_keys in ground arith

dedupe_keys_lem :
    (deduped keys valid : List Text)
    → Distinct deduped
    → all is_recipient_key deduped ≡ true
    → dedupe_keys deduped keys ≡ some valid
    → Deduped deduped keys valid
dedupe_keys_lem deduped [] valid d v h =
    let e : valid ≡ deduped = unfold dedupe_keys in cc in
    rw e (record { distinct = d; keys_valid = v; same = λ key. unfold any in ground arith })
dedupe_keys_lem deduped (key ∷ keys) valid d v h = elim (Bool-cases (is_recipient_key key)) [
  | inr bad ↦ cc (refused deduped key keys bad)
  | inl good ↦ elim (Bool-cases (any (text_eq key) deduped)) [
    | inl seen ↦
        let rest =
          dedupe_keys_lem deduped keys valid d v (sym (kept deduped key keys good seen) ∙ h) in
        record {
          distinct = rest.distinct;
          keys_valid = rest.keys_valid;
          same = λ k. rest.same k ∙ any_seen k key deduped keys seen;
        }
    | inr new ↦
        let rest =
          dedupe_keys_lem (deduped ++ key ∷ []) keys valid (snoc-Distinct deduped key d new)
            (all-snoc is_recipient_key deduped key v good)
            (sym (added deduped key keys good new) ∙ h) in
        record {
          distinct = rest.distinct;
          keys_valid = rest.keys_valid;
          same = λ k. rest.same k ∙ any_added k key deduped keys;
        }
  ]
]

is_some-dedupe_keys :
    (deduped keys : List Text) → is_some (dedupe_keys deduped keys) ≡ all is_recipient_key keys
unfolding all
is_some-dedupe_keys deduped [] = unfold dedupe_keys in refl
is_some-dedupe_keys deduped (key ∷ keys) = elim (Bool-cases (is_recipient_key key)) [
  | inr bad ↦ rw (refused deduped key keys bad, bad)
  | inl good ↦ elim (Bool-cases (any (text_eq key) deduped)) [
    | inl seen ↦ rw (kept deduped key keys good seen, good) (is_some-dedupe_keys deduped keys)
    | inr new ↦
        rw (added deduped key keys good new, good) (is_some-dedupe_keys (deduped ++ key ∷ []) keys)
  ]
]

-- A list is accepted exactly if it has from 1 to 100 keys and each of them is 64 small hexadecimal
-- digits.
pub validate_recipient_keys-accepts :
    (keys : List Text)
    → is_some (validate_recipient_keys keys)
      ≡ (leb 1 (length keys) && leb (length keys) 100 && all is_recipient_key keys)
validate_recipient_keys-accepts keys =
    unfold validate_recipient_keys in ground (arith, is_some-dedupe_keys [] keys)

-- An accepted list keeps its keys, each once.
pub validate_recipient_keys-keeps :
    (keys valid : List Text)
    → validate_recipient_keys keys ≡ some valid
    → Distinct valid × ((key : Text) → any (text_eq key) valid ≡ any (text_eq key) keys)
validate_recipient_keys-keeps keys valid h =
    let d =
      dedupe_keys_lem [] keys valid tt (unfold all in refl)
        (unfold validate_recipient_keys in ground arith) in
    (d.distinct, λ key. d.same key ∙ (unfold any in refl))
