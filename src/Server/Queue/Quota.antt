-- ===== src/Server/Queue/Quota.antt =====
-- The limits on the number of queued messages, in every order of operations.
use upmessenger.Base.{
  ℕ, ◌+◌, ◌≤◌, ◌≡◌, Bool, true, false, not, ◌||◌, List, [], ◌∷◌, ◌++◌, inl, inr, arith, Text,
  str_eq, str_eq→≡, select, count_of, leb, count_of-select-le, Bool-cases, Option-cases, find_first,
  if◌then◌else◌,
}
use mathlib.Core.Path.{subst}
use upmessenger.Base.State.{continue-pure}
use upmessenger.Protocol.{MessageEnvelope}
use upmessenger.Server.{Database, Envelope, device_exists, before}
use upmessenger.Server.Queue.{
  is_queued, waits_for, row, is_duplicate, insert_message, enqueue_message, pull_messages,
  ack_messages, addressed,
}

pub record IsWithinQuota (messages : List Envelope) : Type 0 where
  pub device : (d : Text) → count_of (waits_for d) messages ≤ 10_000
  pub total : count_of is_queued messages ≤ 100_000

select-IsWithinQuota :
    (q : Envelope → Bool) (messages : List Envelope)
    → IsWithinQuota messages
    → IsWithinQuota (select q messages)
select-IsWithinQuota q messages w = record {
  device = λ d. omega (arith, count_of-select-le (waits_for d) q messages, w.device d);
  total = omega (arith, count_of-select-le is_queued q messages, w.total);
}

count_of-add :
    (p : Envelope → Bool) (messages : List Envelope) (r : Envelope)
    → count_of p (messages ++ (r ∷ []))
      ≡ (if p r then count_of p messages + 1 else count_of p messages)
count_of-add p [] r = ground arith
count_of-add p (x ∷ xs) r = ground (arith, count_of-add p xs r)

count_of-add-le :
    (p : Envelope → Bool) (messages : List Envelope) (r : Envelope)
    → count_of p (messages ++ (r ∷ [])) ≤ count_of p messages + 1
count_of-add-le p messages r = ground (arith, count_of-add p messages r)

device_of-row : (d : Text) (r : Envelope) → waits_for d r ≡ true → r.recipient_device_id ≡ d
device_of-row d r h = str_eq→≡ r.recipient_device_id d (ground arith)

add-device :
    (d : Text) (r : Envelope) (messages : List Envelope)
    → IsWithinQuota messages
    → leb 10_000 (count_of (waits_for r.recipient_device_id) messages) ≡ false
    → count_of (waits_for d) (messages ++ (r ∷ [])) ≤ 10_000
add-device d r messages w room = elim (Bool-cases (waits_for d r)) [
  | inl f ↦
      let room' : leb 10_000 (count_of (waits_for d) messages) ≡ false =
        subst (λ x. leb 10_000 (count_of (waits_for x) messages) ≡ false) (device_of-row d r f)
          room in
      ground (arith, count_of-add-le (waits_for d) messages r)
  | inr f ↦ ground (arith, count_of-add (waits_for d) messages r, w.device d)
]

insert_message-IsWithinQuota :
    (r : Envelope) (db : Database)
    → IsWithinQuota db.message_envelopes
    → IsWithinQuota (insert_message r db).1.message_envelopes
unfolding insert_message
insert_message-IsWithinQuota r db w =
    let full : Bool =
      leb 10_000 (count_of (waits_for r.recipient_device_id) db.message_envelopes)
      || leb 100_000 (count_of is_queued db.message_envelopes) in
    elim (Bool-cases full) [
      | inl e ↦ rw e w
      | inr e ↦ rw e (record {
        device = λ d. add-device d r db.message_envelopes w (ground arith);
        total = ground (arith, count_of-add-le is_queued db.message_envelopes r);
      })
    ]

enqueue_message-IsWithinQuota :
    (envelope : MessageEnvelope) (db : Database)
    → IsWithinQuota db.message_envelopes
    → IsWithinQuota (enqueue_message envelope db).1.message_envelopes
unfolding enqueue_message
enqueue_message-IsWithinQuota envelope db w =
    let r : Envelope = row envelope in
    let inserted = insert_message-IsWithinQuota r db w in
    elim (Bool-cases (before r.created_at r.expires_at)) [
      | inr e ↦ rw e w
      | inl e ↦ elim (Bool-cases (device_exists r.recipient_device_id db)) [
        | inr f ↦ rw (e, f) w
        | inl f ↦ elim (Bool-cases (device_exists r.sender_device_id db)) [
          | inr k ↦ rw (e, f, k) w
          | inl k ↦
              elim (Option-cases
                (find_first (λ x. str_eq x.message_id r.message_id) db.message_envelopes)) [
                  | inl none_yet ↦ rw (e, f, k, none_yet) inserted
                  | inr (x, found) ↦ elim (Bool-cases (is_duplicate x r)) [
                    | inl same ↦ rw (e, f, k, found, same) w
                    | inr other ↦ rw (e, f, k, found, other) w
                  ]
                ]
        ]
      ]
    ]

ack_messages-IsWithinQuota :
    (device : Text) (ids : List Text) (db : Database)
    → IsWithinQuota db.message_envelopes
    → IsWithinQuota (ack_messages device ids db).1.message_envelopes
unfolding ack_messages
ack_messages-IsWithinQuota device [] db w = w
ack_messages-IsWithinQuota device (id ∷ ids) db w =
    let kept = select (λ e. not (addressed id device e)) db.message_envelopes in
    let db' : Database = record db { message_envelopes = kept } in
    let (r, db'') = ack_messages device ids db' in
    rw (continue-pure r (λ rest. count_of (addressed id device) db.message_envelopes + rest) db'')
      (ack_messages-IsWithinQuota device ids db' (select-IsWithinQuota _ db.message_envelopes w))

-- The requests that change the queue.
pub data Step : Database → Database → Type 0 where
  send : (envelope : MessageEnvelope) (db : Database) → Step db (enqueue_message envelope db).1
  pull : (now : ℕ) (device : Text) (db : Database) → Step db (pull_messages now device db).1
  ack : (device : Text) (ids : List Text) (db : Database) → Step db (ack_messages device ids db).1

pub data Reaches : Database → Database → Type 0 where
  here : (db : Database) → Reaches db db
  next : {db db' db'' : Database} → Reaches db db' → Step db' db'' → Reaches db db''

pub Step-IsWithinQuota :
    {db db' : Database}
    → Step db db'
    → IsWithinQuota db.message_envelopes
    → IsWithinQuota db'.message_envelopes
unfolding pull_messages
Step-IsWithinQuota (send envelope db) w = enqueue_message-IsWithinQuota envelope db w
Step-IsWithinQuota (pull now device db) w = select-IsWithinQuota _ db.message_envelopes w
Step-IsWithinQuota (ack device ids db) w = ack_messages-IsWithinQuota device ids db w

-- From a queue within the limits, whatever is sent, pulled and acknowledged in whatever order: no
-- device has more than 10,000 messages waiting, and there are never more than 100,000 in all.
pub Reaches-IsWithinQuota :
    {db db' : Database}
    → Reaches db db'
    → IsWithinQuota db.message_envelopes
    → IsWithinQuota db'.message_envelopes
Reaches-IsWithinQuota (here db) w = w
Reaches-IsWithinQuota (next steps step) w = Step-IsWithinQuota step (Reaches-IsWithinQuota steps w)
