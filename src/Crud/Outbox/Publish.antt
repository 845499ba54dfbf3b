-- ===== src/Crud/Outbox/Publish.antt =====
-- What publishing sends (C/src/dcrud/ParticipantImpl.c): a frame for every object, in their order.
use dcrud.Base.{
  ℕ, ◌+◌, ◌≤◌, ◌<◌, ◌^◌, ◌≡◌, refl, sym, ap, ◌∙◌, subst, ==_true, Bool, true, Option, some, List,
  [], ◌∷◌, ◌++◌, length, append-nil, arith,
}
use dcrud.Util.Status.{no_error, check}
use dcrud.Util.SafeCast.{with_self-genuine}
use dcrud.Io.ByteBuffer
use dcrud.Io.ByteBuffer.{Buffer, Order, sub_size}
use dcrud.Io.ByteBuffer.Streams.{advance, unread}
use dcrud.Io.ByteBuffer.Wire.{IsOpen}
use dcrud.Io.ByteBuffer.Exchange.{holding, holding-IsOpen, unread-holding}
use dcrud.Io.ByteBuffer.Transfer.{remaining-unread}
use dcrud.Crud.ClassId.{Instance}
use dcrud.Crud.Guid.{Guid}
use dcrud.Crud.Protocol.{header_size, payload_size}
use dcrud.Crud.Shareable.{Shareable, shareable_magic, get_data}
use dcrud.Crud.Outbox.{
  Outbox, participant_magic, on_payload, payload_steps, header_steps, message_steps, serialize_data,
  after_remaining, after_data, push_create_or_update_item,
}
use dcrud.Crud.Outbox.Steps.{Runs, run_steps_lem, Runs-append, Appends, Puts, message-Runs}
use dcrud.Crud.Outbox.Frames.{outbox, Represents, header_of, update_frame, header-Runs}
use dcrud.Crud.Outbox.Ready.{IsReady, HasSent, length-header_of, outbox_of, pushed, pushed-IsReady}
use dcrud.Crud.Outbox.Messages.{Delivers, message_steps-Runs}

module _ {G D : Type 0} {guids : G → Guid} {item : Shareable G D} {g : Guid} {x : Instance}
    {s : List ℕ} (i : Represents guids item g x s) where
  payload-Runs :
      (h : Buffer) {p : Buffer} (m : Buffer) (log : List (List ℕ))
      → IsOpen p
      → length s ≤ p.capacity
      → Runs (payload_steps item item.user_data) (outbox h p m log) (outbox h (holding p s) m log)
  payload-Runs h {p} m log o k =
      subst
        (λ t.
          Runs (payload_steps item item.user_data) (outbox h p m log)
            (outbox h (holding p t) m log))
        (append-nil s)
        (message-Runs view p.order on_payload (λ call b c q. rw q refl)
          (Puts.more s [] serialized Puts.nothing) o refl (omega (arith, ap length (append-nil s))))
    where
      view : Buffer → Outbox
      view b = outbox h b m log

      serialized : Appends view p.order (on_payload (serialize_data item.factory item.user_data)) s
      serialized b ob e fits = rw (i.made_by, i.writes b ob fits) refl

  module _ {Address : Type 0} (host_big : Bool) {network : Address → List ℕ → Option ℕ}
      (target : Address) (works : Delivers network) {order : Order} where
    frame-Runs :
        {h p m : Buffer} (log : List (List ℕ))
        → IsOpen h
        → IsOpen p
        → IsOpen m
        → h.order ≡ order
        → length s < 2 ^ 32
        → header_size ≤ h.capacity
        → length s ≤ p.capacity
        → header_size + length s ≤ m.capacity
        → let head = header_of order (length s) g x in
          Runs
            (header_steps host_big guids item (length s) ++ message_steps network target)
            (outbox h (holding p s) m log)
            (outbox
              (advance (holding h head) (length head))
              (advance (holding p s) (length s))
              (advance (holding m (head ++ s)) (length (head ++ s)))
              (log ++ ((head ++ s) ∷ [])))
    frame-Runs {h} {p} {m} log oh op om e small kh kp km =
        Runs-append (header-Runs host_big order (holding p s) m log i (length s) small oh e room_h)
          (subst
            (λ t.
              Runs (message_steps network target) (outbox (holding h head) (holding p s) m log) (
                outbox (advance (holding h head) (length t.0)) (advance (holding p s) (length t.1))
                  (advance (holding m (t.0 ++ t.1)) (length (t.0 ++ t.1)))
                  (log ++ ((t.0 ++ t.1) ∷ []))))
            both
            (message_steps-Runs target works log (holding-IsOpen oh head room_h)
              (holding-IsOpen op s kp) om room_m))
      where
        head : List ℕ
        head = header_of order (length s) g x

        room_h : length head ≤ h.capacity
        room_h = omega (arith, length-header_of order (length s) g x)

        eh : unread (holding h head) ≡ head
        eh = unread-holding oh head room_h

        ep : unread (holding p s) ≡ s
        ep = unread-holding op s kp

        room_m : length (unread (holding h head)) + length (unread (holding p s)) ≤ m.capacity
        room_m = omega (arith, ap length eh, ap length ep, length-header_of order (length s) g x)

        both : ◌≡◌ {A = List ℕ × List ℕ} (unread (holding h head), unread (holding p s)) (head, s)
        both = λ j. (eh j, ep j)

    after_data_lem :
        {self : Outbox} (r : IsReady order self)
        → length s ≤ payload_size
        → after_data host_big network target guids item
            (get_data (some item) true)
            (outbox r.header r.payload r.message self.sent)
          ≡ (
            no_error,
            pushed (header_of order (length s) g x) s r.header r.payload r.message self.sent,
          )
    unfolding get_data
    after_data_lem {self} r k = rw (==_true item.magic shareable_magic i.genuine) (
        ap
          (λ t.
            check t.0
              (after_remaining host_big network target guids item
                (ByteBuffer.remaining t.1.payload true) t.1)
              (t.0, t.1))
          (run_steps_lem (payload-Runs r.header r.message self.sent r.payload_open kp))
        ∙ ap
            (λ t.
              after_remaining host_big network target guids item t
                (outbox r.header (holding r.payload s) r.message self.sent))
            (remaining-unread s (holding-IsOpen r.payload_open s kp)
              (unread-holding r.payload_open s kp))
        ∙ run_steps_lem (
            frame-Runs self.sent r.header_open r.payload_open r.message_open r.header_order
              (omega arith) (omega (arith, r.header_room)) kp (omega (arith, r.message_room))))
      where
        kp : length s ≤ r.payload.capacity
        kp = omega (arith, r.payload_room)

    -- A push of an object whose data fits the payload sends one frame, and leaves the participant
    -- ready.
    pub push_create_or_update_item-HasSent :
        {self : Outbox}
        → IsReady order self
        → length s ≤ payload_size
        → HasSent order
            (self.sent ++ (update_frame order g x s ∷ []))
            (push_create_or_update_item host_big network target guids (some self) (some item))
    unfolding push_create_or_update_item
    push_create_or_update_item-HasSent {self} r k =
        subst (HasSent order (self.sent ++ (update_frame order g x s ∷ []))) (sym whole) (record {
          fine = refl;
          after = pushed head s r.header r.payload r.message self.sent;
          is_after = refl;
          ready = pushed-IsReady r head s (omega (arith, length-header_of order (length s) g x)) k;
          has_sent = refl;
        })
      where
        head : List ℕ
        head = header_of order (length s) g x

        whole :
            push_create_or_update_item host_big network target guids (some self) (some item)
            ≡ (no_error, some (pushed head s r.header r.payload r.message self.sent))
        whole =
            with_self-genuine (λ p. p.magic) participant_magic self _ r.genuine
            ∙ rw (==_true item.magic shareable_magic i.genuine) (
                ap
                  (λ t.
                    let q =
                      after_data host_big network target guids item (get_data (some item) true) t in
                    (q.0, some q.1))
                  (outbox_of r)
                ∙ ap (λ q. (q.0, some q.1)) (after_data_lem r k))
