-- ===== src/WsSession/Interleaved/Kept.antt =====
-- Every statement of the two threads leads from a phase to a phase.
use boost_server_example.Base.{
  ◌≡◌, refl, sym, ap, subst, ◌∙◌, Bool, true, false, List, [], ◌∷◌, ◌++◌, Bytes, arith,
  if◌then◌else◌,
}
use boost_server_example.WsSession.Interleaved.{
  Caller, resting, pushed, starting, claimed, waiting, erased, more, emptied, Shared, is_empty,
  erase_first, begin_write, decides, Step, pushes, looks, claims, starts, finishes, fails, tests,
  goes_on, frees, Reach, start, later,
}
use boost_server_example.WsSession.Interleaved.Phase.{
  Free, Held, Phase, idle, claiming, flying, behind, stuck, longer, Behind-snoc, decides-Free,
  decides-Held, tests-Behind, moved,
}

module _ (c : Shared) where
  pushes-Phase :
      (text : Bytes)
      → c.caller ≡ resting
      → Phase c
      → Phase (record c {
        send_queue = c.send_queue ++ text ∷ [];
        taken = c.taken ++ text ∷ [];
        caller = pushed;
      })
  pushes-Phase text h (idle b s f t r) = idle b s f (longer c.started c.send_queue text t) tt
  pushes-Phase text h (claiming b s f t e r) = cc
  pushes-Phase text h (flying m rest b s f q t r) =
      flying m (rest ++ text ∷ []) b s f (ap (λ xs. xs ++ text ∷ []) q)
        (longer c.started rest text t) tt
  pushes-Phase text h (behind b f t s r) =
      behind b f (longer c.started c.send_queue text t) (Behind-snoc c.strand c.send_queue text s)
        tt
  pushes-Phase text h (stuck m rest b s f q t r) =
      stuck m (rest ++ text ∷ []) b s f (ap (λ xs. xs ++ text ∷ []) q)
        (longer c.started rest text t) tt

  looks-Phase :
      (is_open : Bool)
      → c.caller ≡ pushed
      → Phase c
      → Phase (record c { caller = decides is_open c.is_send_busy c.send_queue })
  looks-Phase is_open h (idle b s f t r) =
      idle b s f t (decides-Free is_open c.is_send_busy c.send_queue)
  looks-Phase is_open h (claiming b s f t e r) = cc
  looks-Phase is_open h (flying m rest b s f q t r) =
      flying m rest b s f q t (decides-Held is_open c.send_queue b)
  looks-Phase is_open h (behind b f t s r) = behind b f t s (decides-Held is_open c.send_queue b)
  looks-Phase is_open h (stuck m rest b s f q t r) =
      stuck m rest b s f q t (decides-Held is_open c.send_queue b)

  claims-Phase :
      c.caller ≡ starting → Phase c → Phase (record c { is_send_busy = true; caller = claimed })
  claims-Phase h (idle b s f t r) = claiming refl s f t refl (subst (λ k. Free k c.send_queue) h r)
  claims-Phase h (claiming b s f t e r) = cc
  claims-Phase h (flying m rest b s f q t r) = absurd (subst Held h r)
  claims-Phase h (behind b f t s r) = absurd (subst Held h r)
  claims-Phase h (stuck m rest b s f q t r) = absurd (subst Held h r)

  starts-Phase :
      (front : Bytes) (rest : List Bytes)
      → c.caller ≡ claimed
      → c.send_queue ≡ front ∷ rest
      → Phase c
      → Phase (record (begin_write front c) { caller = resting })
  starts-Phase front rest h q (idle b s f t r) = absurd (subst (λ k. Free k c.send_queue) h r)
  starts-Phase front rest h q (claiming b s f t e r) =
      flying front rest b s (ap (λ xs. xs ++ front ∷ []) f) q
        (moved c.started front rest c.send_queue t q) tt
  starts-Phase front rest h q (flying m ms b s f q' t r) = absurd (subst Held h r)
  starts-Phase front rest h q (behind b f t s r) = absurd (subst Held h r)
  starts-Phase front rest h q (stuck m ms b s f q' t r) = absurd (subst Held h r)

  finishes-Phase :
      (text : Bytes) (others : List Bytes)
      → c.in_flight ≡ text ∷ others
      → Phase c
      → Phase
          (record c { in_flight = others; send_queue = erase_first c.send_queue; strand = erased })
  finishes-Phase text others w (idle b s f t r) = cc
  finishes-Phase text others w (claiming b s f t e r) = cc
  finishes-Phase text others w (flying m rest b s f q t r) =
      behind b (ground arith) (t ∙ ap (λ ms. c.started ++ erase_first ms) (sym q)) tt r
  finishes-Phase text others w (behind b f t s r) = cc
  finishes-Phase text others w (stuck m rest b s f q t r) = cc

  fails-Phase :
      (text : Bytes) (others : List Bytes)
      → c.in_flight ≡ text ∷ others
      → Phase c
      → Phase (record c { in_flight = others })
  fails-Phase text others w (idle b s f t r) = cc
  fails-Phase text others w (claiming b s f t e r) = cc
  fails-Phase text others w (flying m rest b s f q t r) = stuck m rest b s (ground arith) q t r
  fails-Phase text others w (behind b f t s r) = cc
  fails-Phase text others w (stuck m rest b s f q t r) = cc

  tests-Phase :
      c.strand ≡ erased
      → Phase c
      → Phase (record c { strand = if is_empty c.send_queue then emptied else more })
  tests-Phase h (idle b s f t r) = cc
  tests-Phase h (claiming b s f t e r) = cc
  tests-Phase h (flying m rest b s f q t r) = cc
  tests-Phase h (behind b f t s r) = behind b f t (tests-Behind c.send_queue) r
  tests-Phase h (stuck m rest b s f q t r) = cc

  goes_on-Phase :
      (front : Bytes) (rest : List Bytes)
      → c.strand ≡ more
      → c.send_queue ≡ front ∷ rest
      → Phase c
      → Phase (record (begin_write front c) { strand = waiting })
  goes_on-Phase front rest h q (idle b s f t r) = cc
  goes_on-Phase front rest h q (claiming b s f t e r) = cc
  goes_on-Phase front rest h q (flying m ms b s f q' t r) = cc
  goes_on-Phase front rest h q (behind b f t s r) =
      flying front rest b refl (ap (λ xs. xs ++ front ∷ []) f) q
        (moved c.started front rest c.send_queue t q) r
  goes_on-Phase front rest h q (stuck m ms b s f q' t r) = cc

  Held-Free : (k : Caller) (queue : List Bytes) → Held k → Free k queue
  Held-Free resting queue r = tt
  Held-Free pushed queue r = tt
  Held-Free starting queue r = absurd r
  Held-Free claimed queue r = r

  frees-Phase :
      c.strand ≡ emptied → Phase c → Phase (record c { is_send_busy = false; strand = waiting })
  frees-Phase h (idle b s f t r) = cc
  frees-Phase h (claiming b s f t e r) = cc
  frees-Phase h (flying m rest b s f q t r) = cc
  frees-Phase h (behind b f t s r) = idle refl refl f t (Held-Free c.caller c.send_queue r)
  frees-Phase h (stuck m rest b s f q t r) = cc

Step-Phase : {c d : Shared} → Step c d → Phase c → Phase d
Step-Phase {c} (pushes text h taken) p = pushes-Phase c text h p
Step-Phase {c} (looks is_open h) p = looks-Phase c is_open h p
Step-Phase {c} (claims h) p = claims-Phase c h p
Step-Phase {c} (starts front rest h q) p = starts-Phase c front rest h q p
Step-Phase {c} (finishes text others h w) p = finishes-Phase c text others w p
Step-Phase {c} (fails text others h w) p = fails-Phase c text others w p
Step-Phase {c} (tests h) p = tests-Phase c h p
Step-Phase {c} (goes_on front rest h q) p = goes_on-Phase c front rest h q p
Step-Phase {c} (frees h) p = frees-Phase c h p

pub Reach-Phase : {c : Shared} → Reach c → Phase c
Reach-Phase start = idle refl refl refl refl tt
Reach-Phase (later r s) = Step-Phase s (Reach-Phase r)
