-- ===== src/WsSession/Interleaved/Order.antt =====
-- What the two threads can do to the writes of a session.
use boost_server_example.Base.{
  ◌≤◌, ◌≡◌, ◌⊎◌, inl, inr, refl, ap, subst, Bool, true, false, List, [], ◌∷◌, ◌++◌, Bytes, length,
  arith,
}
use boost_server_example.WsSession.{sendable}
use boost_server_example.WsSession.Interleaved.{
  resting, claimed, waiting, more, emptied, Shared, decides, Step, pushes, looks, claims, starts,
  finishes, fails, tests, goes_on, frees, Reach, Steps, here, next,
}
use boost_server_example.WsSession.Interleaved.Phase.{
  HasFront, Free, Held, Behind, Phase, idle, claiming, flying, behind, stuck,
}
use boost_server_example.WsSession.Interleaved.Kept.{Reach-Phase}

-- However the statements of the two threads interleave, at most one write is under way, the messages
-- whose write was started are, in order, the first of those that `send` took, and `front()` is called
-- of a queue that is not empty, by either thread.
pub interleaved_in_order :
    {c : Shared}
    → Reach c
    → (length c.in_flight ≤ 1)
      × ((left : List Bytes) × (c.taken ≡ c.started ++ left))
      × (c.caller ≡ claimed → (front : Bytes) × (rest : List Bytes) × (c.send_queue ≡ front ∷ rest))
      × (c.strand ≡ more → (front : Bytes) × (rest : List Bytes) × (c.send_queue ≡ front ∷ rest))
interleaved_in_order r = account (Reach-Phase r)
  where
    account :
        {c : Shared}
        → Phase c
        → (length c.in_flight ≤ 1)
          × ((left : List Bytes) × (c.taken ≡ c.started ++ left))
          × (c.caller ≡ claimed → HasFront c.send_queue)
          × (c.strand ≡ more → HasFront c.send_queue)
    account {c} (idle b s f t r) = (
      ground (arith, ap length f),
      (c.send_queue, t),
      λ h. absurd (subst (λ k. Free k c.send_queue) h r),
      λ h. cc,
    )
    account {c} (claiming b s f t e r) =
        (ground (arith, ap length f), (c.send_queue, t), λ h. r, λ h. r)
    account {c} (flying m rest b s f q t r) =
        (ground (arith, ap length f), (rest, t), λ h. (m, rest, q), λ h. (m, rest, q))
    account {c} (behind b f t s r) = (
      ground (arith, ap length f),
      (c.send_queue, t),
      λ h. absurd (subst Held h r),
      λ h. subst (λ k. Behind k c.send_queue) h s,
    )
    account {c} (stuck m rest b s f q t r) =
        (ground (arith, ap length f), (rest, t), λ h. (m, rest, q), λ h. (m, rest, q))

pub decides-resting :
    (is_open busy : Bool) (queue : List Bytes)
    → (is_open ≡ false) ⊎ (busy ≡ true)
    → decides is_open busy queue ≡ resting
decides-resting false busy queue h = refl
decides-resting true true queue h = refl
decides-resting true false queue (inl e) = cc
decides-resting true false queue (inr e) = cc

-- Behind an `on_write` that found the queue empty, no write is under way.
emptied_idle :
    {c : Shared} → c.strand ≡ emptied → Phase c → (c.is_send_busy ≡ true) × (c.in_flight ≡ [])
emptied_idle h (idle b s f t r) = cc
emptied_idle h (claiming b s f t e r) = cc
emptied_idle h (flying m rest b s f q t r) = cc
emptied_idle h (behind b f t s r) = (b, f)
emptied_idle h (stuck m rest b s f q t r) = cc

-- Where nothing is under way, a statement is a call of `send`.
only_pushes :
    {d e : Shared}
    → Step d e
    → d.caller ≡ resting
    → d.strand ≡ waiting
    → d.in_flight ≡ []
    → (other : Bytes) × (e.taken ≡ d.taken ++ other ∷ [])
only_pushes (pushes text h taken) k s f = (text, refl)
only_pushes (looks is_open h) k s f = cc
only_pushes (claims h) k s f = cc
only_pushes (starts front rest h q) k s f = cc
only_pushes (finishes text others h w) k s f = cc
only_pushes (fails text others h w) k s f = cc
only_pushes (tests h) k s f = cc
only_pushes (goes_on front rest h q) k s f = cc
only_pushes (frees h) k s f = cc

-- Let the strand have found the queue empty after a write, while no call of `send` is under way. If a
-- callback sends a message, on a socket that is open or not, before the strand lowers the flag, the
-- message stays in the queue: no write is under way and none was started, the flag is down, and there
-- is nothing that either thread can do then but another call of `send`.
pub lost_wakeup :
    (c : Shared) (text : Bytes) (is_open : Bool)
    → Reach c
    → c.strand ≡ emptied
    → c.caller ≡ resting
    → sendable text ≡ true
    → (d : Shared) × Steps c d
      × (d.send_queue ≡ c.send_queue ++ text ∷ [])
      × (d.started ≡ c.started)
      × (d.in_flight ≡ [])
      × (d.is_send_busy ≡ false)
      × ((e : Shared) → Step d e → (other : Bytes) × (e.taken ≡ d.taken ++ other ∷ []))
lost_wakeup c text is_open r s k taken =
    let (busy, idle_now) = emptied_idle s (Reach-Phase r) in
    let queue : List Bytes = c.send_queue ++ text ∷ [] in
    (
      record c {
        send_queue = queue;
        taken = c.taken ++ text ∷ [];
        caller = decides is_open c.is_send_busy queue;
        is_send_busy = false;
        strand = waiting;
      },
      next (next (next here (pushes text k taken)) (looks is_open refl)) (frees s),
      refl,
      refl,
      idle_now,
      refl,
      λ e step.
          only_pushes step (decides-resting is_open c.is_send_busy queue (inr busy)) refl idle_now,
    )
