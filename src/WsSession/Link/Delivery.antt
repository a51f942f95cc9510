-- ===== src/WsSession/Link/Delivery.antt =====
-- What comes out at the far end of a connection.
use boost_server_example.Base.{
  ℕ, suc, ◌≡◌, ◌≢◌, ◌⊎◌, inl, inr, refl, sym, ap, ◌∙◌, Bool, true, false, List, [], ◌∷◌, ◌++◌,
  Bytes, append_assoc, append-nil, arith,
}
use boost_server_example.Callbacks.{Callbacks}
use boost_server_example.WsSession.{Callback, Task, ErrorCode, success}
use boost_server_example.WsSession.Blank.{read_buffer_empty}
use boost_server_example.WsSession.Conn.{take_read, writes_of}
use boost_server_example.WsSession.Incoming.{on_read}
use boost_server_example.WsSession.Link.{
  Link, IsCut, Step, near_moves, delivers, read_fails, dispatches, far_moves, Linked, opened,
  goes_on, ends, tasks_of, tasks_in, has_read,
}
use boost_server_example.WsSession.Writes.{writes_in_order}
use boost_server_example.WsSession.Link.Reading.{
  Move-Kept, read-queue, failed-queue, tasks_in-append,
}
use boost_server_example.WsSession.Link.Ends.{
  tasks, Ended, Move-Ended, Start-tasks, Written, Linked-Written, near-IsCut, written-Fits,
  cut-small, failed-Ended,
}

module _ (callbacks : Callbacks Callback) where
  data Delivered (l : Link) : Type 0 where
    whole : l.failed ≡ false → tasks callbacks l ≡ tasks_in callbacks l.delivered → Delivered l
    cut :
        (part : Bytes)
        → l.failed ≡ true
        → IsCut l part
        → Ended callbacks l.far
        → tasks callbacks l ≡ tasks_in callbacks l.delivered ++ tasks_of callbacks part
        → Delivered l

  -- The tasks once some were added behind.
  more-tasks :
      (l : Link) (queue added : List Task)
      → queue ≡ l.far.session.received_messages.callbacks_queue ++ added
      → tasks callbacks l ≡ tasks_in callbacks l.delivered
      → l.begun ++ queue ≡ tasks_in callbacks l.delivered ++ added
  more-tasks l queue added e t =
      ap (◌++◌ l.begun) e
      ∙ sym (append_assoc l.begun l.far.session.received_messages.callbacks_queue added)
      ∙ ap (λ ts. ts ++ added) t

  fails-Delivered :
      {l : Link} (k : ℕ) (ec : ErrorCode) (part : Bytes)
      → Linked callbacks l
      → l.far.pending.reads ≡ suc k
      → ec ≢ success
      → IsCut l part
      → tasks callbacks l ≡ tasks_in callbacks l.delivered
      → Delivered (record l { far = has_read callbacks l.far k false ec part; failed = true })
  fails-Delivered {l} k ec part w h ne front t =
      let unread = read_buffer_empty callbacks k (ends callbacks w).1 h in
      let ended = failed-Ended callbacks k ec part w h in
      elim (failed-queue callbacks ec l.far.session part ne unread
        (cut-small callbacks part w front)) [
          | inl e ↦
              cut [] refl (inl refl) ended
                (ap (◌++◌ l.begun) e ∙ t ∙ sym (append-nil (tasks_in callbacks l.delivered)))
          | inr e ↦ cut part refl front ended (
              more-tasks l
                (on_read false callbacks ec
                  (take_read l.far.session part)).0.received_messages.callbacks_queue
                (tasks_of callbacks part) e t)
        ]

  delivers-Delivered :
      {l : Link} (k : ℕ) (is_open : Bool) (text : Bytes) (rest : List Bytes)
      → Linked callbacks l
      → l.far.pending.reads ≡ suc k
      → writes_of l.near.log ≡ l.delivered ++ text ∷ rest
      → l.failed ≡ false
      → tasks callbacks l ≡ tasks_in callbacks l.delivered
      → Delivered (record l {
        far = has_read callbacks l.far k is_open success text;
        delivered = l.delivered ++ text ∷ [];
      })
  delivers-Delivered {l} k is_open text rest w h f good t =
      let unread = read_buffer_empty callbacks k (ends callbacks w).1 h in
      let queue =
        (on_read is_open callbacks success
          (take_read l.far.session text)).0.received_messages.callbacks_queue in
      whole good (
        more-tasks l queue (tasks_of callbacks text)
          (read-queue callbacks is_open l.far.session text unread
            (written-Fits callbacks text rest w f))
          t
        ∙ ap (◌++◌ (tasks_in callbacks l.delivered)) (sym (append-nil (tasks_of callbacks text)))
        ∙ sym (tasks_in-append callbacks l.delivered (text ∷ [])))

  Step-Delivered :
      {l m : Link} → Linked callbacks l → Step callbacks l m → Delivered l → Delivered m
  Step-Delivered w (near_moves m) (whole good t) = whole good t
  Step-Delivered {l} w (near_moves m) (cut part bad front ended t) =
      cut part bad (near-IsCut callbacks l part m front) ended t
  Step-Delivered w (delivers k is_open text rest e f fits) (whole good t) =
      delivers-Delivered k is_open text rest w e f good t
  Step-Delivered w (delivers k is_open text rest e f fits) (cut part bad front ended t) =
      absurd (omega (arith, ended.1, e))
  Step-Delivered w (read_fails k ec part e ne front) (whole good t) =
      fails-Delivered k ec part w e ne front t
  Step-Delivered w (read_fails k ec part e ne front) (cut old bad front' ended t) =
      absurd (omega (arith, ended.1, e))
  Step-Delivered {l} w (dispatches t rest e) (whole good ts) =
      whole good (append_assoc l.begun (t ∷ []) rest ∙ ap (◌++◌ l.begun) (sym e) ∙ ts)
  Step-Delivered {l} w (dispatches t rest e) (cut part bad front ended ts) =
      cut part bad front ended (append_assoc l.begun (t ∷ []) rest ∙ ap (◌++◌ l.begun) (sym e) ∙ ts)
  Step-Delivered {l} w (far_moves m a) (whole good t) =
      whole good (ap (λ q. l.begun ++ q.callbacks_queue) (Move-Kept callbacks m a).0 ∙ t)
  Step-Delivered {l} w (far_moves m a) (cut part bad front ended t) =
      cut part bad front (Move-Ended callbacks m ended)
        (ap (λ q. l.begun ++ q.callbacks_queue) (Move-Kept callbacks m a).0 ∙ t)

  Linked-Delivered : {l : Link} → Linked callbacks l → Delivered l
  Linked-Delivered (opened near far a b) = whole refl (Start-tasks callbacks b)
  Linked-Delivered (goes_on w step) = Step-Delivered w step (Linked-Delivered w)

  -- Whatever the two ends of a connection do, the messages delivered at the far end are, in order, the
  -- first of those that `send` took at the near end. The tasks that the dispatch of the far end has
  -- begun, and then those that wait, are those of the messages delivered, in order: one for each
  -- message of two bytes or more for whose operation a callback is registered, with that callback. This
  -- is all while no read has failed. Once one has, no read is under way any more, and behind these
  -- tasks there may be the one that a front part of the next message makes, as if it were a message.
  pub delivered_in_order :
      {l : Link}
      → Linked callbacks l
      → ((waiting : List Bytes) × (l.near.taken ≡ l.delivered ++ waiting))
        × (((l.failed ≡ false)
              × (l.begun ++ l.far.session.received_messages.callbacks_queue
                  ≡ tasks_in callbacks l.delivered))
            ⊎ ((l.failed ≡ true)
                × (l.far.pending.reads ≡ 0)
                × ((part : Bytes) × IsCut l part
                    × (l.begun ++ l.far.session.received_messages.callbacks_queue
                        ≡ tasks_in callbacks l.delivered ++ tasks_of callbacks part))))
  unfolding Written
  delivered_in_order {l} w =
      let (under_way, written) = Linked-Written callbacks w in
      let (one, (waiting, e)) = writes_in_order callbacks (ends callbacks w).0 in
      (
        (
          under_way ++ waiting,
          e ∙ ap (λ xs. xs ++ waiting) written ∙ append_assoc l.delivered under_way waiting,
        ),
        account (Linked-Delivered w),
      )
    where
      account :
          Delivered l
          → ((l.failed ≡ false) × (tasks callbacks l ≡ tasks_in callbacks l.delivered))
            ⊎ ((l.failed ≡ true)
                × (l.far.pending.reads ≡ 0)
                × ((part : Bytes) × IsCut l part
                    × (tasks callbacks l
                        ≡ tasks_in callbacks l.delivered ++ tasks_of callbacks part)))
      account (whole good t) = inl (good, t)
      account (cut part bad front ended t) = inr (bad, omega (arith, ended.1), (part, front, t))
