-- ===== src/Server/Queue/Acknowledgement.antt =====
-- What an acknowledgement deletes, and what it leaves.
use upmessenger.Base.{
  ◌+◌, ◌≡◌, refl, sym, ap, ◌∙◌, Bool, true, false, not, List, [], ◌∷◌, inl, inr, arith, Text,
  str_eq, str_eq→≡, ◌≤◌, length, count_of-select-le, select, count_of, select-select,
  select-select_none,
}
use mathlib.Core.List.Memᴰ
use mathlib.Core.List.{Memᴰ}
use upmessenger.Base.State.{continue-pure}
use upmessenger.Server.{Database, Envelope}
use upmessenger.Server.Queue.{ack_messages, addressed}

abbrev without : Text → Text → Database → Database
without id device db = record db {
  message_envelopes = select (λ e. not (addressed id device e)) db.message_envelopes;
}

-- The rows that an acknowledgement keeps.
ack_messages-rows :
    (device id : Text) (ids : List Text) (db : Database)
    → (ack_messages device (id ∷ ids) db).1 ≡ (ack_messages device ids (without id device db)).1
unfolding ack_messages
ack_messages-rows device id ids db =
    let (r, db') = ack_messages device ids (without id device db) in
    continue-pure r (λ rest. count_of (addressed id device) db.message_envelopes + rest) db'

is_other :
    (device other id : Text) (e : Envelope)
    → str_eq other device ≡ false
    → str_eq e.recipient_device_id other ≡ true
    → not (addressed id device e) ≡ true
is_other device other id e h own =
    let h' : str_eq e.recipient_device_id device ≡ false =
      rw (str_eq→≡ e.recipient_device_id other own) h in
    ground (arith, h')

-- An acknowledgement by one device leaves every message that is addressed to another device, in its
-- order.
pub ack_messages_others :
    (device other : Text) (ids : List Text) (db : Database)
    → str_eq other device ≡ false
    → select
        (λ e. str_eq e.recipient_device_id other)
        (ack_messages device ids db).1.message_envelopes
      ≡ select (λ e. str_eq e.recipient_device_id other) db.message_envelopes
unfolding ack_messages
ack_messages_others device other [] db h = refl
ack_messages_others device other (id ∷ ids) db h =
    ap (λ d. select (λ e. str_eq e.recipient_device_id other) d.message_envelopes)
      (ack_messages-rows device id ids db)
    ∙ ack_messages_others device other ids (without id device db) h
    ∙ select-select (λ e. str_eq e.recipient_device_id other) (λ e. not (addressed id device e))
        db.message_envelopes (λ e own. is_other device other id e h own)

count_of-ack_messages-le :
    (p : Envelope → Bool) (device : Text) (ids : List Text) (db : Database)
    → count_of p (ack_messages device ids db).1.message_envelopes ≤ count_of p db.message_envelopes
unfolding ack_messages
count_of-ack_messages-le p device [] db = omega arith
count_of-ack_messages-le p device (id ∷ ids) db = rw (ack_messages-rows device id ids db) (
    omega (
      arith,
      count_of-ack_messages-le p device ids (without id device db),
      count_of-select-le p (λ e. not (addressed id device e)) db.message_envelopes,
    ))

-- After an acknowledgement the server holds none of the messages that the device has named in it.
pub ack_messages_deletes :
    (device id : Text) (ids : List Text) (db : Database)
    → Memᴰ id ids
    → count_of (addressed id device) (ack_messages device ids db).1.message_envelopes ≡ 0
ack_messages_deletes device id [] db m = absurd (Memᴰ.not-nil m)
ack_messages_deletes device id (x ∷ ids) db m = elim (Memᴰ.cases_cons m) [
  | inr later ↦
      rw (ack_messages-rows device x ids db)
        (ack_messages_deletes device id ids (without x device db) later)
  | inl here ↦
      let gone : count_of (addressed id device) (without x device db).message_envelopes ≡ 0 =
        ap length (
          select-select_none (addressed id device) (λ e. not (addressed x device e))
            db.message_envelopes (λ e h. rw (sym here, h))) in
      rw (ack_messages-rows device x ids db) (
        omega (
          arith,
          gone,
          count_of-ack_messages-le (addressed id device) device ids (without x device db),
        ))
]
