-- ===== src/Server/Queue/Delivery.antt =====
-- What `enqueue_message` stores is what `pull_messages` returns.
use upmessenger.Base.{
  ℕ, ◌≡◌, refl, sym, ap, not→false, true, false, not, none, List, [], ◌∷◌, ◌++◌, map, inl, inr,
  arith, Text, str_eq, str_eq_refl, ok, find_first, select, Bool-cases,
}
use mathlib.Core.List.Memᴰ
use mathlib.Core.List.{Memᴰ}
use upmessenger.Base.Members.{Member-select, select-Member}
use upmessenger.Protocol.{MessageEnvelope, encode_hex}
use upmessenger.Server.{Database, Envelope, before}
use upmessenger.Server.Queue.{
  queued, waits_for, row, insert_message, enqueue_message, by_creation, order_by_creation,
  QueuedEnvelope, queued_envelope, pull_messages,
}

Member-by_creation_head : (e : Envelope) (xs : List Envelope) → Memᴰ e (by_creation e xs)
unfolding by_creation
Member-by_creation_head e [] = Memᴰ.head refl
Member-by_creation_head e (x ∷ xs) = elim (Bool-cases (before x.created_at e.created_at)) [
  | inl h ↦ rw h (Memᴰ.tail (Member-by_creation_head e xs))
  | inr h ↦ rw h (Memᴰ.head refl)
]

Member-by_creation :
    (e : Envelope) {a : Envelope} (xs : List Envelope) → Memᴰ a xs → Memᴰ a (by_creation e xs)
unfolding by_creation
Member-by_creation e [] m = absurd (Memᴰ.not-nil m)
Member-by_creation e (x ∷ xs) m = elim (Bool-cases (before x.created_at e.created_at)) [
  | inr h ↦ rw h (Memᴰ.tail m)
  | inl h ↦ rw h (elim (Memᴰ.cases_cons m) [
    | inl here ↦ Memᴰ.head here
    | inr later ↦ Memᴰ.tail (Member-by_creation e xs later)
  ])
]

Member-order : {a : Envelope} {xs : List Envelope} → Memᴰ a xs → Memᴰ a (order_by_creation xs)
unfolding order_by_creation
Member-order (Memᴰ.head {x} {xs} e) = Memᴰ.cast e (Member-by_creation_head x (order_by_creation xs))
Member-order (Memᴰ.tail {x} {xs} m) = Member-by_creation x (order_by_creation xs) (Member-order m)

by_creation-Member :
    (e : Envelope) {a : Envelope} (xs : List Envelope) → Memᴰ a (by_creation e xs) → Memᴰ a (e ∷ xs)
unfolding by_creation
by_creation-Member e [] m = m
by_creation-Member e (x ∷ xs) m = elim (Bool-cases (before x.created_at e.created_at)) [
  | inr h ↦ rw h at m
  | inl h ↦ elim (Memᴰ.cases_cons (rw h at m)) [
    | inl here ↦ Memᴰ.tail (Memᴰ.head here)
    | inr later ↦ elim (Memᴰ.cases_cons (by_creation-Member e xs later)) [
      | inl first ↦ Memᴰ.head first
      | inr rest ↦ Memᴰ.tail (Memᴰ.tail rest)
    ]
  ]
]

order-Member : {a : Envelope} (xs : List Envelope) → Memᴰ a (order_by_creation xs) → Memᴰ a xs
unfolding order_by_creation
order-Member [] m = m
order-Member (x ∷ xs) m = elim (Memᴰ.cases_cons (by_creation-Member x (order_by_creation xs) m)) [
  | inl here ↦ Memᴰ.head here
  | inr later ↦ Memᴰ.tail (order-Member xs later)
]

enqueue_message-fresh :
    (envelope : MessageEnvelope) (db : Database) (id : Text)
    → find_first (λ e. str_eq e.message_id (encode_hex envelope.message_id)) db.message_envelopes
      ≡ none
    → (enqueue_message envelope db).0 ≡ ok id
    → (enqueue_message envelope db).1.message_envelopes
      ≡ db.message_envelopes ++ (row envelope ∷ [])
unfolding enqueue_message insert_message
enqueue_message-fresh envelope db id fresh h = ground (arith, fresh)

-- The messages that a pull returns.
pub record Pulled (now : ℕ) (device : Text) (messages : List Envelope) (q : QueuedEnvelope)
    : Type 0 where
  pub stored : Envelope
  pub member : Memᴰ stored messages
  pub own : waits_for device stored ≡ true
  pub unexpired : before stored.expires_at now ≡ false
  pub shown : queued_envelope stored ≡ q

-- A device pulls each message that waits for it and has not expired, and no other message.
pub pull_messages_iff :
    (now : ℕ) (device : Text) (db : Database)
    → (ms : List QueuedEnvelope) × ((pull_messages now device db).0 ≡ ok ms)
      × ((q : QueuedEnvelope)
          → (Memᴰ q ms → Pulled now device db.message_envelopes q)
            × (Pulled now device db.message_envelopes q → Memᴰ q ms))
unfolding pull_messages
pull_messages_iff now device db =
    let kept = select (λ e. not (before e.expires_at now)) db.message_envelopes in
    (
      map queued_envelope (order_by_creation (select (waits_for device) kept)),
      refl,
      λ q. (
        λ m.
            let (r, m', shown) = Memᴰ.of_map queued_envelope _ m in
            let (m'', own) = select-Member (waits_for device) kept (order-Member _ m') in
            let (m''', fresh) =
              select-Member (λ e. not (before e.expires_at now)) db.message_envelopes m'' in
            record {
              stored = r;
              member = m''';
              own = own;
              unexpired = not→false (before r.expires_at now) fresh;
              shown = shown;
            },
        λ p.
            let fresh : not (before p.stored.expires_at now) ≡ true = ap not p.unexpired in
            Memᴰ.cast (sym p.shown) (
              Memᴰ.map queued_envelope (
                Member-order (
                  Member-select (waits_for device) p.own
                    (Member-select (λ e. not (before e.expires_at now)) fresh p.member)))),
      ),
    )

-- A message that enqueue_message accepts, and whose identifier was not in the queue, is among those
-- that the recipient pulls next, with the ciphertext of the sender, where it has not expired.
pub pull_messages-enqueue :
    (envelope : MessageEnvelope) (now : ℕ) (db : Database) (id : Text)
    → find_first (λ e. str_eq e.message_id (encode_hex envelope.message_id)) db.message_envelopes
      ≡ none
    → (enqueue_message envelope db).0 ≡ ok id
    → before envelope.expires_at now ≡ false
    → (ms : List QueuedEnvelope) × ((pull_messages now
          (encode_hex envelope.recipient_device_id)
          (enqueue_message envelope db).1).0
        ≡ ok ms)
      × Memᴰ (queued_envelope (row envelope)) ms
pull_messages-enqueue envelope now db id fresh h alive =
    let db' = (enqueue_message envelope db).1 in
    let device : Text = encode_hex envelope.recipient_device_id in
    let (ms, e, both) = pull_messages_iff now device db' in
    (
      ms,
      e,
      (both (queued_envelope (row envelope))).1 (record {
        stored = row envelope;
        member =
            rw (enqueue_message-fresh envelope db id fresh h)
              (Memᴰ.append_right db.message_envelopes (Memᴰ.head refl));
        own = rw (str_eq_refl device, str_eq_refl queued);
        unexpired = alive;
        shown = refl;
      }),
    )
