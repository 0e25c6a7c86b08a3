-- ===== src/Base/Keeps.antt =====
-- What an action does to the state, whether it returns or raises, put together from its steps.
use dos_amigos_ops.Base.{Bool, false, true}
use dos_amigos_ops.Base.Action.{
  Action, Exn, Result, err, gets, modify, ok, pure, try_except, ◌>>=◌, ◌>>◌,
}
use dos_amigos_ops.Base.Tests.{if◌then◌else◌}

-- The state after `m` is related to the one before.
pub record Keeps {S A : Type 0} (R : S → S → Type 0) (m : Action S A) : Type 0 where
  pub at : (s : S) → R s (m s).1

module _ {S : Type 0} (R : S → S → Type 0) (R-refl : (s : S) → R s s)
    (R-trans : (s t v : S) → R s t → R t v → R s v) where
  pub Keeps-pure : {A : Type 0} (a : A) → Keeps R (pure {S = S} a)
  Keeps-pure a = record { at = R-refl }

  pub Keeps-result : {A : Type 0} (r : Result A) → Keeps {S = S} R (λ s. (r, s))
  Keeps-result r = record { at = R-refl }

  pub Keeps-gets : {A : Type 0} (f : S → A) → Keeps R (gets f)
  Keeps-gets f = record { at = R-refl }

  pub Keeps-modify : (f : S → S) → ((s : S) → R s (f s)) → Keeps R (modify f)
  Keeps-modify f h = record { at = h }

  bind_result :
      {A B : Type 0} (r : Result A) (f : A → Action S B) (s t : S)
      → R s t
      → ((a : A) → Keeps R (f a))
      → R s (◌>>=◌ (λ (_ : S). (r, t)) f s).1
  bind_result (ok a) f s t h k = R-trans s t (f a t).1 h ((k a).at t)
  bind_result (err e) f s t h k = h

  pub Keeps-bind :
      {A B : Type 0} (m : Action S A) (f : A → Action S B)
      → Keeps R m
      → ((a : A) → Keeps R (f a))
      → Keeps R (m >>= f)
  Keeps-bind m f h k = record { at = λ s. bind_result (m s).0 f s (m s).1 (h.at s) k }

  pub Keeps-then :
      {A B : Type 0} (m : Action S A) (n : Action S B) → Keeps R m → Keeps R n → Keeps R (m >> n)
  Keeps-then m n h k = Keeps-bind m (λ _. n) h (λ _. k)

  except_result :
      {A : Type 0} (r : Result A) (handler : Exn → Action S A) (s t : S)
      → R s t
      → ((e : Exn) → Keeps R (handler e))
      → R s (try_except (λ (_ : S). (r, t)) handler s).1
  except_result (ok a) handler s t h k = h
  except_result (err e) handler s t h k = R-trans s t (handler e t).1 h ((k e).at t)

  pub Keeps-try_except :
      {A : Type 0} (m : Action S A) (handler : Exn → Action S A)
      → Keeps R m
      → ((e : Exn) → Keeps R (handler e))
      → Keeps R (try_except m handler)
  Keeps-try_except m handler h k = record {
    at = λ s. except_result (m s).0 handler s (m s).1 (h.at s) k;
  }

  pub Keeps-if :
      {A : Type 0} (b : Bool) (m n : Action S A)
      → Keeps R m
      → Keeps R n
      → Keeps R (if b then m else n)
  Keeps-if true m n h k = h
  Keeps-if false m n h k = k

  pub if_at :
      {A : Type 0} (b : Bool) (x y : A × S) (s : S) → R s x.1 → R s y.1 → R s (if b then x else y).1
  if_at true x y s h k = h
  if_at false x y s h k = k
