-- ===== src/Crud/Receiver/SentCalls.antt =====
-- From `dcrudIParticipantImpl_sendCall` (C/src/dcrud/ParticipantImpl.c) of one program to
-- `dcrudNetworkReceiver_operation` (C/src/dcrud/NetworkReceiver.c) of another.
use dcrud.Base.{
  ℕ, ◌+◌, length-append, ◌*◌, ◌≤◌, ◌≡◌, ◌∙◌, refl, sym, ap, subst, Bool, true, false, Option, some,
  List, [], ◌∷◌, ◌++◌, length, get_elem?, arith,
}
use dcrud.Util.Status.{Status, no_error, Build}
use dcrud.Coll.Compare.{Ordering}
use dcrud.Coll.Libc.{Libc}
use dcrud.Coll.SortedArray.{Ordered}
use dcrud.Io.ByteBuffer.{Buffer, Order}
use dcrud.Io.ByteBuffer.Wire.{IsOpen}
use dcrud.Crud.ClassId.{Instance, compare_instances, class_slots}
use dcrud.Crud.Arguments.{Arguments, Misread}
use dcrud.Crud.Arguments.Wire.{Carries}
use dcrud.Crud.Outbox.{Outbox}
use dcrud.Crud.Outbox.Calls.{send_call}
use dcrud.Crud.Outbox.CallFrames.{CallView, Fitting, call_frame, send_call_lem}
use dcrud.Crud.Outbox.Messages.{Delivers}
use dcrud.Crud.Outbox.Ready.{IsReady, HasSent}
use dcrud.Crud.Receiver.{Handler, pick}
use dcrud.Crud.Receiver.Calling.{CallMemory, StaleNames, operation}
use dcrud.Crud.Receiver.CallFrames.{Readable, Called, call_frame-Called}
use dcrud.Crud.Receiver.Rounds.{IsProvided}

-- The datagram behind those of before.
get_elem?-last :
    {A : Type 0} (xs : List A) (x : A) → get_elem? (xs ++ (x ∷ [])) (length xs) ≡ some x
get_elem?-last [] x = refl
get_elem?-last (y ∷ xs) x = get_elem?-last xs x

-- What can be read also fits.
Readable-Fitting : {v : CallView} → Readable v → Fitting v
Readable-Fitting r = record {
  interface_fits = omega (arith, r.interface_short);
  operation_fits = omega (arith, r.operation_short);
  call_id_fits = r.call_id_fits;
}

HasSent-log :
    {order : Order} {log : List (List ℕ)} {status : Status} {q : Outbox}
    → HasSent order log (status, some q)
    → q.sent ≡ log
HasSent-log {q = q} h =
    let e : some q ≡ some h.after = h.is_after in
    let same : q ≡ h.after = cc in ap (λ x. x.sent) same ∙ h.has_sent

module _ (libc : (A : Type 0) (cmp : A → A → Ordering) → Libc cmp) {v : CallView}
    (readable : Readable v) where
  -- The program that calls.
  module _ (host_big : Bool) {P G D Address : Type 0} (misread : Misread P G D)
      {network : Address → List ℕ → Option ℕ} (target : Address) (works : Delivers network)
      {self : Arguments P} (mode : self.mode ≡ v.mode) (queue : self.queue ≡ v.queue)
      (carries : Carries libc host_big self v.items) {order : Order} {p : Outbox}
      (r : IsReady order p) where
    abbrev after : Outbox
    after =
        (send_call libc host_big misread network target v.interface v.operation (some self)
          v.call_id p).1

    -- The program that is called.
    module _ (build : Build) {Q : Type 0}
        (new_instance : Option Buffer
          → List Instance
          → Status × Option Q × Option Buffer × List Instance)
        {memory : CallMemory} (args_memory : memory.args ≡ true)
        (types_memory : memory.types ≡ true) (provided : (i : ℕ) → IsProvided (memory.rounds i))
        (stale : StaleNames) (alive : Bool) (all_classes : List Instance)
        (known : Ordered compare_instances all_classes) {b : Buffer} (o : IsOpen b) where
      -- `dcrudIParticipantImpl_sendCall` returns `no_error`, and sends one datagram behind those of
      -- before. Where that arrives, on a little-endian host that has memory,
      -- `dcrudNetworkReceiver_run` hands it to `dcrudNetworkReceiver_operation`, which reads the call as
      -- it was sent. The arguments can be sent and read, a `bool` only from a little-endian host; the
      -- network takes every datagram whole, the frame has at most 64 * 1024 bytes, and the buffer of the
      -- receiver has room for so many and the byte order of the sender's. `allClasses` of the receiver is
      -- sorted, has no class twice, and has two entries left for every argument.
      pub send_call-Called :
          (recv : ℕ → Option (List ℕ)) (signa : List ℕ)
          → b.order ≡ r.message.order
          → length all_classes + 2 * length v.items ≤ class_slots
          → b.capacity ≡ 64 * 1024
          → length (call_frame v b.order) ≤ 64 * 1024
          → let (status, p') =
              send_call libc host_big misread network target v.interface v.operation
                (some self)
                v.call_id
                p in
            let (handler, s) =
              pick false recv
                (λ max. get_elem? p'.sent (length p.sent))
                false
                (record { in_buf = some b; signa = signa }) in
            (status ≡ no_error)
            × (length p'.sent ≡ length p.sent + 1)
            × (handler ≡ Handler.call)
            × Called libc false alive v
                (operation libc build false new_instance memory stale alive all_classes s.in_buf)
      send_call-Called recv signa same slots room short =
          let received =
            call_frame-Called libc build new_instance args_memory types_memory provided stale alive
              all_classes known readable recv (λ max. get_elem? after.sent (length p.sent)) signa o
              (subst (λ n. length (call_frame v b.order) ≤ n) (sym room) short)
              (ap (λ l. get_elem? l (length p.sent)) log
                ∙ get_elem?-last p.sent (call_frame v b.order)) in
          (
            sent.fine,
            ap length log ∙ omega (arith, length-append p.sent (call_frame v b.order ∷ [])),
            received.0,
            received.1,
          )
        where
          sent : HasSent order (p.sent ++ (call_frame v r.message.order ∷ [])) (
            (send_call libc host_big misread network target v.interface v.operation
                (some self)
                v.call_id
                p).0,
            some after,
          )
          sent =
              send_call_lem libc host_big misread target works {v = v} mode queue carries
                (Readable-Fitting readable) r
                (subst (λ x. length (call_frame v x) ≤ 64 * 1024) same short)

          log : after.sent ≡ p.sent ++ (call_frame v b.order ∷ [])
          log = HasSent-log sent ∙ ap (λ x. p.sent ++ (call_frame v x ∷ [])) (sym same)
