-- ===== src/OutboxApi/Access.antt =====
-- The internal token in front of every route.
use dos_amigos_ops.Base.{
  Bool, Bool-cases, Option, Text, [], all, codes, false, inl, inr, none, not, refl, some, text_eq,
  text_eq_refl, text_eq→eq, true, ◌&&◌, ◌++◌, ◌∷◌, ◌≡◌, ◌≢◌,
}
use dos_amigos_ops.Base.Action.{Result, err, http_exception, ok, raise_if, ◌>>=◌, ◌>>◌}
use dos_amigos_ops.Models.{DbAction, Session}
use dos_amigos_ops.OutboxApi.Recipients.{guarded}
use dos_amigos_ops.OutboxApi.Requests.{compare_digest, is_ascii, not_ascii}

-- A text compared with itself, and with another one, where both are ASCII.
compare_digest_same : (a : Text) → all is_ascii a ≡ true → compare_digest a a ≡ ok true
unfolding compare_digest
compare_digest_same a h = rw (h, text_eq_refl a) refl

compare_digest_other :
    (a b : Text)
    → all is_ascii a ≡ true
    → all is_ascii b ≡ true
    → a ≢ b
    → compare_digest a b ≡ ok false
unfolding compare_digest
compare_digest_other a b h k n = elim (Bool-cases (text_eq a b)) [
  | inl same ↦ absurd (n (text_eq→eq a b same))
  | inr other ↦ rw (h, k, other) refl
]

compare_digest_refused :
    (a b : Text) → (all is_ascii a && all is_ascii b) ≡ false → compare_digest a b ≡ err not_ascii
unfolding compare_digest
compare_digest_refused a b h = rw h refl

-- Without a token every request is answered 503, and without a header 401. A header is compared
-- with `Bearer <token>`: where both are ASCII the route runs, as it would alone, if they are the
-- same, and the answer is 401 if they are not; where one of them is not ASCII, even if they are
-- the same, the comparison raises a TypeError. Unless the route runs the session is as it was.
pub guarded_access :
    {A : Type 0} (token header : Text) (route : DbAction A) (s : Session)
    → let expected = codes "Bearer " ++ token in
      (token ≡ []
        → (authorization : Option Text)
        → guarded token authorization route s
          ≡ (err (http_exception 503 (codes "internal API not configured")), s))
      × (token ≢ []
          → guarded token none route s
            ≡ (err (http_exception 401 (codes "invalid internal token")), s))
      × (token ≢ []
          → header ≡ expected
          → all is_ascii expected ≡ true
          → guarded token (some header) route s ≡ route s)
      × (token ≢ []
          → header ≢ expected
          → all is_ascii header ≡ true
          → all is_ascii expected ≡ true
          → guarded token (some header) route s
            ≡ (err (http_exception 401 (codes "invalid internal token")), s))
      × (token ≢ []
          → (all is_ascii header && all is_ascii expected) ≡ false
          → guarded token (some header) route s ≡ (err not_ascii, s))
unfolding guarded
guarded_access [] header route s = (
  λ h authorization. refl,
  λ h. absurd (h refl),
  λ h. absurd (h refl),
  λ h. absurd (h refl),
  λ h. absurd (h refl),
)
guarded_access (c ∷ token) header route s =
    let expected = codes "Bearer " ++ c ∷ token in
    (
      λ e. cc,
      λ h. refl,
      λ h e a. rw e (rw (compare_digest_same expected a) refl),
      λ h n a b. rw (compare_digest_other header expected a b n) refl,
      λ h a. rw (compare_digest_refused header expected a) refl,
    )

abbrev pub checked : {A : Type 0} → Result Bool → DbAction A → DbAction A
checked r route =
    (λ s. (r, s))
    >>= (λ same. raise_if (not same) (http_exception 401 (codes "invalid internal token")))
    >> route

checked-cases {ℓ} :
    (P : Session → Type ℓ) {A : Type 0} (r : Result Bool) (route : DbAction A) (s : Session)
    → P s
    → P (route s).1
    → P (checked r route s).1
checked-cases P (err e) route s h k = h
checked-cases P (ok true) route s h k = k
checked-cases P (ok false) route s h k = h

checked_ok :
    {A : Type 0} (r : Result Bool) (route : DbAction A) (s : Session) (a : A)
    → (checked r route s).0 ≡ ok a
    → (route s).0 ≡ ok a
checked_ok (err e) route s a h = cc
checked_ok (ok true) route s a h = h
checked_ok (ok false) route s a h = cc

-- Behind the token the session is what the route leaves, or what it was.
pub guarded-cases {ℓ} :
    (P : Session → Type ℓ) {A : Type 0} (token : Text) (authorization : Option Text)
    (route : DbAction A) (s : Session)
    → P s
    → P (route s).1
    → P (guarded token authorization route s).1
unfolding guarded
guarded-cases P [] authorization route s h k = h
guarded-cases P (c ∷ token) none route s h k = h
guarded-cases P (c ∷ token) (some header) route s h k =
    checked-cases P (compare_digest header (codes "Bearer " ++ c ∷ token)) route s h k

-- Behind the token an answer that is no error is the route's.
pub guarded_ok :
    {A : Type 0} (token : Text) (authorization : Option Text) (route : DbAction A) (s : Session)
    (a : A)
    → (guarded token authorization route s).0 ≡ ok a
    → (route s).0 ≡ ok a
unfolding guarded
guarded_ok [] authorization route s a h = cc
guarded_ok (c ∷ token) none route s a h = cc
guarded_ok (c ∷ token) (some header) route s a h =
    checked_ok (compare_digest header (codes "Bearer " ++ c ∷ token)) route s a h
