-- ===== src/Sender/Messages.antt =====
-- What a delivery adds to the messages sent and to the record of the recipients.
use dos_amigos_ops.Base.{
  All, All-append, Bool, Bool-cases, List, Text, [], any, ap, append-nil, append_assoc, arith,
  false, inl, inr, map, refl, some, sym, text_eq, text_eq_iff, text_eq→eq, true, ◌++◌, ◌∙◌, ◌∷◌,
  ◌≡◌,
}
use dos_amigos_ops.Models.{DeliveryStatus, HermesReportRecipientDelivery, Session}
use dos_amigos_ops.OutboxApi.{Statuses}
use dos_amigos_ops.OutboxApi.Lookup.{recipient}
use dos_amigos_ops.OutboxApi.Registration.{Answers}
use dos_amigos_ops.Sender.Run.{Pass, set_delivered, status_delivered}

-- The messages added from `p` to `q`, each with the property.
abbrev pub Adds : (Text × Text → Type 0) → Pass → Pass → Type 0
Adds P p q = (new : List (Text × Text)) × (q.sent ≡ p.sent ++ new) × All P new

pub Adds-refl : (P : Text × Text → Type 0) (p q : Pass) → q.sent ≡ p.sent → Adds P p q
Adds-refl P p q e = ([], e ∙ sym (append-nil p.sent), tt)

Adds-trans : (P : Text × Text → Type 0) (p q r : Pass) → Adds P p q → Adds P q r → Adds P p r
Adds-trans P p q r (xs, e, h) (ys, e', k) = (
  xs ++ ys,
  e' ∙ ap (λ (l : List (Text × Text)). l ++ ys) e ∙ append_assoc p.sent xs ys,
  All-append P xs ys h k,
)

All-weaken :
    (P Q : Text × Text → Type 0) (xs : List (Text × Text))
    → ((m : Text × Text) → P m → Q m)
    → All P xs
    → All Q xs
All-weaken P Q [] f h = tt
All-weaken P Q (x ∷ xs) f (h, rest) = (f x h, All-weaken P Q xs f rest)

pub Adds-weaken :
    (P Q : Text × Text → Type 0) (p q : Pass)
    → ((m : Text × Text) → P m → Q m)
    → Adds P p q
    → Adds Q p q
Adds-weaken P Q p q f (xs, e, h) = (xs, e, All-weaken P Q xs f h)

-- What is recorded as delivered stays so.
abbrev pub Grows : Statuses → Statuses → Type 0
Grows a b = (key : Text) → status_delivered key a ≡ true → status_delivered key b ≡ true

pub set_delivered-Grows : (key : Text) (a : Statuses) → Grows a (set_delivered key a)
unfolding status_delivered set_delivered
set_delivered-Grows key [] k h = cc
set_delivered-Grows key ((j, status) ∷ a) k h = ground (arith, set_delivered-Grows key a k)

not_true : (b c : Bool) → (b ≡ true → c ≡ true) → c ≡ false → b ≡ false
not_true true c f h = cc (f refl)
not_true false c f h = refl

-- `sent` grows by messages to one chat, and the record grows.
pub record To (chat : Text) (p q : Pass) : Type 0 where
  pub adds : Adds (λ m. m.0 ≡ chat) p q
  pub grows : Grows p.recipient_statuses q.recipient_statuses

pub To-same :
    (chat : Text) (p q : Pass)
    → q.sent ≡ p.sent
    → q.recipient_statuses ≡ p.recipient_statuses
    → To chat p q
To-same chat p q e e' = record { adds = Adds-refl (λ m. m.0 ≡ chat) p q e; grows = λ k h. rw e' h }

pub To-refl : (chat : Text) (p : Pass) → To chat p p
To-refl chat p = To-same chat p p refl refl

pub To-trans : (chat : Text) (p q r : Pass) → To chat p q → To chat q r → To chat p r
To-trans chat p q r h k = record {
  adds = Adds-trans (λ m. m.0 ≡ chat) p q r h.adds k.adds;
  grows = λ key e. k.grows key (h.grows key e);
}

-- The messages that a pass may add from here: to chats on the list whose delivery is not recorded.
abbrev pub Due : (Text → Bool) → (Text → Text) → Pass → Text × Text → Type 0
Due allowed keys p m =
    (allowed m.0 ≡ true) × (status_delivered (keys m.0) p.recipient_statuses ≡ false)

-- `sent` grows by messages that are due, and the record grows.
pub record Steps (allowed : Text → Bool) (keys : Text → Text) (p q : Pass) : Type 0 where
  pub adds : Adds (Due allowed keys p) p q
  pub grows : Grows p.recipient_statuses q.recipient_statuses

module _ (allowed : Text → Bool) (keys : Text → Text) where
  pub Steps-same :
      (p q : Pass)
      → q.sent ≡ p.sent
      → q.recipient_statuses ≡ p.recipient_statuses
      → Steps allowed keys p q
  Steps-same p q e e' = record {
    adds = Adds-refl (Due allowed keys p) p q e;
    grows = λ k h. rw e' h;
  }

  pub Steps-refl : (p : Pass) → Steps allowed keys p p
  Steps-refl p = Steps-same p p refl refl

  pub Steps-trans :
      (p q r : Pass) → Steps allowed keys p q → Steps allowed keys q r → Steps allowed keys p r
  Steps-trans p q r h k = record {
    adds = Adds-trans (Due allowed keys p) p q r h.adds (
        Adds-weaken (Due allowed keys q) (Due allowed keys p) q r
          (λ m e. (
            e.0,
            not_true (status_delivered (keys m.0) p.recipient_statuses)
                (status_delivered (keys m.0) q.recipient_statuses) (h.grows (keys m.0)) e.1,
          ))
          k.adds);
    grows = λ key e. k.grows key (h.grows key e);
  }

  -- Messages to one chat are due if its delivery is not recorded.
  pub To-Steps :
      (chat : Text) (p q : Pass)
      → allowed chat ≡ true
      → status_delivered (keys chat) p.recipient_statuses ≡ false
      → To chat p q
      → Steps allowed keys p q
  To-Steps chat p q listed missing h = record {
    adds =
        Adds-weaken (λ m. m.0 ≡ chat) (Due allowed keys p) p q (λ m e. (rw e listed, rw e missing))
          h.adds;
    grows = h.grows;
  }

-- A record that holds the rows' statuses says so of a delivered recipient.
pub status_delivered-Answers :
    (id key : Text) (l : Statuses) (t : Session) (row : HermesReportRecipientDelivery)
    → All (Answers id t) l
    → any (text_eq key) (map (λ (a : Text × DeliveryStatus). a.0) l) ≡ true
    → recipient id key t.working ≡ some row
    → row.delivery_status ≡ DeliveryStatus.delivered
    → status_delivered key l ≡ true
unfolding status_delivered any
status_delivered-Answers id key [] t row h listed found d = cc
status_delivered-Answers id key ((k, status) ∷ l) t row ((row', known, same), h) listed found d =
    elim (Bool-cases (text_eq k key)) [
      | inl hit ↦
          let at_key : recipient id key t.working ≡ some row' = rw (← text_eq→eq k key hit) known in
          let e : row' ≡ row = cc in rw (hit, ← same, e, d) refl
      | inr miss ↦ rw miss (
          status_delivered-Answers id key l t row h
            (ground (arith, text_eq_iff k key, text_eq_iff key k)) found d)
    ]
