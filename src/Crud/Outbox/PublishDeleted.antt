-- ===== src/Crud/Outbox/PublishDeleted.antt =====
-- What `pushDeleteItem` sends (C/src/dcrud/ParticipantImpl.c).
use mathlib.Core.Option
use dcrud.Base.{
  ℕ, ◌≤◌, ◌≡◌, refl, sym, ap, ◌∙◌, subst, ==_true, Bool, true, Option, some, List, [], ◌∷◌, ◌++◌,
  length, append-nil, arith,
}
use dcrud.Util.Status.{no_error}
use dcrud.Io.ByteBuffer.{Buffer, Order}
use dcrud.Io.ByteBuffer.Exchange.{holding, holding-IsOpen, unread-holding}
use dcrud.Io.ByteBuffer.RoundTrip.{append_none}
use dcrud.Io.ByteBuffer.Streams.{advance}
use dcrud.Io.ByteBuffer.Wire.{IsOpen}
use dcrud.Crud.Guid
use dcrud.Crud.Guid.{Guid}
use dcrud.Crud.Guid.Laws.{encoding, length-encoding}
use dcrud.Crud.Protocol.{signature, header_size, code, data_delete}
use dcrud.Crud.Shareable.{Shareable, shareable_magic, get_guid}
use dcrud.Crud.Outbox.{Outbox, run_steps, on_header, delete_steps, push_delete_item, stored}
use dcrud.Crud.Outbox.Steps.{Runs, run_steps_lem, Runs-append, Appends, Puts, message-Runs}
use dcrud.Crud.Outbox.Frames.{outbox, delete_frame, in_header, signature_step, type_step, guid_step}
use dcrud.Crud.Outbox.Messages.{Delivers, send_header_lem}
use dcrud.Crud.Outbox.Ready.{
  IsReady, HasSent, View, Shown, outbox_of, drained-IsOpen, drained_order, drained_capacity,
}

get_guid_genuine :
    {G D : Type 0} (item : Shareable G D)
    → item.magic ≡ shareable_magic
    → get_guid (some item) true ≡ (no_error, some item.id)
unfolding get_guid
get_guid_genuine item e = rw (==_true item.magic shareable_magic e) refl

length-delete_frame : (order : Order) (g : Guid) → length (delete_frame order g) ≡ 14
length-delete_frame order g = omega (arith, length-encoding order g)

-- The header of a participant that has sent this frame from it.
abbrev sent_header : Outbox → Buffer → List ℕ → Outbox
sent_header self h frame = record self {
  header = some (advance (holding h frame) (length frame));
  sent = self.sent ++ (frame ∷ []);
}

module _ {G D Address : Type 0} (host_big : Bool) {network : Address → List ℕ → Option ℕ}
    (target : Address) (works : Delivers network) {guids : G → Guid} {order : Order}
    {item : Shareable G D} {v : View} (shown : Shown guids item v) where
  module _ (p m : Buffer) (log : List (List ℕ)) where
    id-Puts :
        Puts
          (in_header host_big order p m log)
          order
          (on_header
              (Guid.serialize host_big (Option.map guids (stored (get_guid (some item) true).1)))
            ∷ [])
          (encoding order v.guid)
    id-Puts =
        subst
          (λ t.
            Puts (in_header host_big order p m log) order
              (on_header (Guid.serialize host_big (Option.map guids (stored t.1))) ∷ [])
              (encoding order v.guid))
          (sym (get_guid_genuine item shown.0.genuine))
          (subst
            (Puts (in_header host_big order p m log) order
              (on_header (Guid.serialize host_big (Option.map guids item.id)) ∷ []))
            (append-nil (encoding order v.guid))
            (Puts.more _ _
              (guid_step host_big order p m log guids item.id shown.0.identity shown.0.valid)
              Puts.nothing))

    look_up_step :
        Appends
          (in_header host_big order p m log)
          order
          (λ q. ((get_guid (some item) true).0, q))
          []
    look_up_step b o e h =
        ap (λ t. (t.0, outbox b p m log)) (get_guid_genuine item shown.0.genuine)
        ∙ ap (λ c. (no_error, outbox c p m log)) (sym (append_none b))

    delete_Runs :
        {h : Buffer}
        → IsOpen h
        → h.order ≡ order
        → header_size ≤ h.capacity
        → Runs
            (delete_steps host_big network target guids item)
            (outbox h p m log)
            (sent_header (outbox h p m log) h (delete_frame order v.guid))
    delete_Runs {h} o e k =
        Runs-append
          (message-Runs (in_header host_big order p m log) order on_header (λ call b c q. rw q refl)
            (Puts.more signature _ (signature_step host_big order p m log) (
              Puts.more (code data_delete ∷ []) _ (type_step host_big order p m log 2)
                (Puts.more [] _ look_up_step id-Puts)))
            o e room)
          (Runs.step
            (send_header_lem target works p m log (holding-IsOpen o frame room)
              (unread-holding o frame room))
            (Runs.stop _))
      where
        frame : List ℕ
        frame = delete_frame order v.guid

        room : length frame ≤ h.capacity
        room = omega (arith, length-delete_frame order v.guid)

  -- `pushDeleteItem` sends one frame with the identity of the object, and leaves the participant
  -- ready.
  pub push_delete_item-HasSent :
      {self : Outbox}
      → IsReady order self
      → let r = push_delete_item host_big network target guids self (some item) in
        HasSent order (self.sent ++ (delete_frame order v.guid ∷ [])) (r.0, some r.1)
  unfolding push_delete_item
  push_delete_item-HasSent {self} r =
      subst (λ t. HasSent order (self.sent ++ (frame ∷ [])) (t.0, some t.1)) (sym whole)
        (record {
          fine = refl;
          after = sent_header (outbox r.header r.payload r.message self.sent) r.header frame;
          is_after = refl;
          ready = record {
            genuine = refl;
            header = advance (holding r.header frame) (length frame);
            payload = r.payload;
            message = r.message;
            has_header = refl;
            has_payload = refl;
            has_message = refl;
            header_open =
                drained-IsOpen frame r.header_open
                  (omega (arith, r.header_room, length-delete_frame order v.guid));
            payload_open = r.payload_open;
            message_open = r.message_open;
            header_order = drained_order r.header frame ∙ r.header_order;
            header_room = drained_capacity r.header frame ∙ r.header_room;
            payload_room = r.payload_room;
            message_room = r.message_room;
          };
          has_sent = refl;
        })
    where
      frame : List ℕ
      frame = delete_frame order v.guid

      whole :
          push_delete_item host_big network target guids self (some item)
          ≡ (no_error, sent_header (outbox r.header r.payload r.message self.sent) r.header frame)
      whole =
          rw (==_true item.magic shareable_magic shown.0.genuine, push_delete_item)
            (ap (run_steps (delete_steps host_big network target guids item)) (outbox_of r)
              ∙ run_steps_lem (
                  delete_Runs r.payload r.message self.sent r.header_open r.header_order
                    (omega (arith, r.header_room))))
