-- ===== src/Base/Action.antt =====
-- Methods that change a state and may raise. What was written before a raise stays written, so
-- the state comes back beside the exception too.
use mathlib.Core.Bool.{Bool}
use mathlib.Core.Path.{◌≡◌, ap, refl}
use mathlib.Core.Option.{Option, none, some}
use Prim.Native.Nat.{ℕ}
use dos_amigos_ops.Base.Tests.{if◌then◌else◌}
use dos_amigos_ops.Base.Texts.{Text, codes}

-- A raised exception: `HTTPException` with its status and detail, or another one with the name
-- of its class and its message.
pub data Exn : Type 0 where
  http_exception : ℕ → Text → Exn
  exception : Text → Text → Exn

-- `type(exc).__name__`
unfoldable pub type_name : Exn → Text
type_name (http_exception _ _) = codes "HTTPException"
type_name (exception name _) = name

-- `str(exc)`
unfoldable pub exn_message : Exn → Text
exn_message (http_exception _ detail) = detail
exn_message (exception _ message) = message

pub data Result {ℓ} (A : Type ℓ) : Type ℓ where
  ok : A → Result A
  err : Exn → Result A

abbrev pub Action : Type 0 → Type 0 → Type 0
Action S A = S → Result A × S

module _ {S A : Type 0} where
  abbrev pub pure : A → Action S A
  pure a s = (ok a, s)

  abbrev pub raise : Exn → Action S A
  raise e s = (err e, s)

  abbrev pub gets : (S → A) → Action S A
  gets f s = (ok (f s), s)

  abbrev pub or_raise : Option A → Exn → Action S A
  or_raise none e = raise e
  or_raise (some a) _ = pure a

  -- `try: m except Exception as exc: handler(exc)`
  abbrev pub try_except : Action S A → (Exn → Action S A) → Action S A
  try_except m handler s = let (r, s') = m s in elim r [ ok a ↦ (ok a, s') | err e ↦ handler e s' ]

  -- `try: m finally: cleanup`, for a cleanup that does not raise
  abbrev pub try_finally : Action S A → (S → S) → Action S A
  try_finally m cleanup s = let (r, s') = m s in (r, cleanup s')

abbrev pub modify : {S : Type 0} → (S → S) → Action S (Unit {0})
modify f s = (ok tt, f s)

infixl 5 ◌>>=◌ ◌>>◌
abbrev pub ◌>>=◌ : {S A B : Type 0} → Action S A → (A → Action S B) → Action S B
◌>>=◌ m f s = let (r, s') = m s in elim r [ ok a ↦ f a s' | err e ↦ (err e, s') ]

abbrev pub ◌>>◌ : {S A B : Type 0} → Action S A → Action S B → Action S B
m >> k = m >>= λ _. k

abbrev pub raise_if : {S : Type 0} → Bool → Exn → Action S (Unit {0})
raise_if c e s = (if c then err e else ok tt, s)

-- A step that returns is followed by the rest.
pub bind_ok :
    {S A B : Type 0} (m : Action S A) (f : A → Action S B) (s t : S) (a : A)
    → m s ≡ (ok a, t)
    → ◌>>=◌ m f s ≡ f a t
bind_ok {S} {A} {B} m f s t a h = ap (λ (p : Result A × S). ◌>>=◌ (λ (_ : S). p) f s) h

answer_of_bind :
    {S A B : Type 0} (r : Result A) (f : A → Action S B) (s t : S) (b : B)
    → (◌>>=◌ (λ (_ : S). (r, t)) f s).0 ≡ ok b
    → (a : A) × (r ≡ ok a) × ((f a t).0 ≡ ok b) × ((◌>>=◌ (λ (_ : S). (r, t)) f s).1 ≡ (f a t).1)
answer_of_bind (ok a) f s t b h = (a, refl, h, refl)
answer_of_bind (err e) f s t b h = cc

-- Where two steps answer, the first one answers what the second starts from, and the second ends.
pub bind_answer :
    {S A B : Type 0} (m : Action S A) (f : A → Action S B) (s : S) (b : B)
    → (◌>>=◌ m f s).0 ≡ ok b
    → (a : A) × ((m s).0 ≡ ok a) × ((f a (m s).1).0 ≡ ok b) × ((◌>>=◌ m f s).1 ≡ (f a (m s).1).1)
bind_answer m f s b h = answer_of_bind (m s).0 f s (m s).1 b h
