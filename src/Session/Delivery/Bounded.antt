-- ===== src/Session/Delivery/Bounded.antt =====
-- What one subscriber gets, over any calls: its queue stays bounded, and it misses just what its
-- counter of dropped observations says.

use luxpower_ha_integration.Base.{
  ℕ, ◌+◌, ◌≤◌, ◌<◌, ◌≡◌, refl, sym, ap, subst, ◌∙◌, inl, inr, Bool, true, false, Option, List, [],
  ◌∷◌, ◌++◌, append-nil, append_assoc, arith, length, length-append, Bool-cases, Outcome-cases,
}
use luxpower_ha_integration.Base.Subsequence.{
  Subsequence, Subsequence-refl, Subsequence-nil, Subsequence-append, Subsequence-trans,
}
use luxpower_ha_integration.Session.{
  LuxReadObservation, Item, observation, subscription_closed, SubscriptionState,
}
use luxpower_ha_integration.Session.Delivery.{
  new_state, offer, drain, take_item, drain_queue, async_next_begin, Wake, wakes, times_out,
  is_cancelled, async_next_end, close_state,
}
use luxpower_ha_integration.Session.Delivery.Offered.{
  Call, publishes, drains, closes, begins_next, ends_next, begun, got_from, call, calls,
  published_by, published, held, Delivered, Delivered-new, length-held, offer-Delivered,
}

nil_of_append : {A : Type 0} (xs ys : List A) → xs ++ ys ≡ [] → ys ≡ []
nil_of_append [] ys h = h
nil_of_append (x ∷ xs) ys h = cc

-- The consumer takes `out` from the front of the queue.
consume-Delivered :
    (sent got out : List LuxReadObservation) (s r : SubscriptionState)
    → r.active ≡ s.active
    → r.capacity ≡ s.capacity
    → r.observations_received ≡ s.observations_received
    → r.observations_dropped ≡ s.observations_dropped
    → held s.queue ≡ out ++ held r.queue
    → length out + length r.queue ≤ length s.queue
    → (length (held s.queue) ≡ length s.queue → length out + length r.queue ≡ length s.queue)
    → Delivered sent got s
    → Delivered sent (got ++ out) r
consume-Delivered sent got out s r same cap rec dro split shorter exact d =
    let apart = length-append out (held r.queue) in
    let same_length = ap length split in
    record {
      positive = omega (arith, d.positive);
      fits = omega (arith, d.fits);
      in_order =
          subst (λ t. Subsequence t sent)
            (ap (λ t. got ++ t) split ∙ sym (append_assoc got out (held r.queue))) d.in_order;
      all_counted = λ a.
          let (received, counted) = d.all_counted (sym same ∙ a) in
          let taken = exact (d.plain (sym same ∙ a)) in
          (omega arith, omega (arith, length-append got out));
      plain = λ a. let plain' = d.plain (sym same ∙ a) in let taken = exact plain' in omega arith;
      ended = λ n. nil_of_append out (held r.queue) (sym split ∙ d.ended (sym same ∙ n));
    }

drain_queue-held : (q : List Item) → held q ≡ (drain_queue q).1 ++ held (drain_queue q).0
unfolding drain_queue
drain_queue-held [] = refl
drain_queue-held (subscription_closed ∷ q) = refl
drain_queue-held (observation o ∷ q) = ap (λ t. o ∷ t) (drain_queue-held q)

drain_queue-shorter :
    (q : List Item) → length (drain_queue q).1 + length (drain_queue q).0 ≤ length q
unfolding drain_queue
drain_queue-shorter [] = omega arith
drain_queue-shorter (subscription_closed ∷ q) = omega arith
drain_queue-shorter (observation o ∷ q) = omega (arith, drain_queue-shorter q)

drain_queue-plain :
    (q : List Item)
    → length (held q) ≡ length q
    → length (drain_queue q).1 + length (drain_queue q).0 ≡ length q
unfolding drain_queue
drain_queue-plain [] h = refl
drain_queue-plain (subscription_closed ∷ q) h = absurd (omega (arith, length-held q))
drain_queue-plain (observation o ∷ q) h = omega (arith, drain_queue-plain q (omega arith))

module _ (sent got : List LuxReadObservation) (s : SubscriptionState)
    (d : Delivered sent got s) where
  drain-Delivered : Delivered sent (got ++ (drain s).1) (drain s).0
  unfolding drain
  drain-Delivered =
      consume-Delivered sent got (drain_queue s.queue).1 s
        (record s { queue = (drain_queue s.queue).0 }) refl refl refl refl
        (drain_queue-held s.queue) (drain_queue-shorter s.queue) (drain_queue-plain s.queue) d

  -- A call that takes nothing and leaves the queue.
  idle-Delivered : (flag : Bool) → Delivered sent (got ++ []) (record s { consumer_waiting = flag })
  idle-Delivered flag =
      consume-Delivered sent got [] s (record s { consumer_waiting = flag }) refl refl refl refl
        refl (omega arith) (λ h. omega arith) d

  take-Delivered :
      (q : List Item)
      → s.queue ≡ q
      → Delivered sent (got ++ got_from (take_item q s).1) (take_item q s).0
  take-Delivered [] e = idle-Delivered s.consumer_waiting
  take-Delivered (observation o ∷ q) e =
      consume-Delivered sent got (o ∷ []) s (record s { queue = q; consumer_waiting = false }) refl
        refl refl refl (ap held e) (omega (arith, ap length e)) (λ h. omega (arith, ap length e)) d
  take-Delivered (subscription_closed ∷ q) e =
      consume-Delivered sent got [] s (record s { queue = q; consumer_waiting = false }) refl refl
        refl refl (ap held e) (omega (arith, ap length e))
        (λ h. absurd (omega (arith, ap length e, length-held q, ap (λ t. length (held t)) e))) d

  end-Delivered :
      (w : Wake) → Delivered sent (got ++ got_from (async_next_end w s).1) (async_next_end w s).0
  unfolding async_next_end
  end-Delivered wakes = take-Delivered s.queue refl
  end-Delivered times_out = idle-Delivered false
  end-Delivered is_cancelled = idle-Delivered false

  begin-Delivered : (t : Option ℕ) → Delivered sent (got ++ []) (begun s (async_next_begin t s))
  unfolding async_next_begin
  begin-Delivered t = elim (Outcome-cases (async_next_begin t s)) [
    | inr (x, e) ↦
        subst (Delivered sent (got ++ [])) {x = s} (ground (arith, e))
          (idle-Delivered s.consumer_waiting)
    | inl (r, e) ↦
        subst (Delivered sent (got ++ [])) {x = record s { consumer_waiting = true }}
          (ground (arith, e)) (idle-Delivered true)
  ]

  -- A closed subscription holds no observation.
  closed-Delivered :
      (q : List Item)
      → held q ≡ []
      → length q ≤ 1
      → Delivered sent (got ++ []) (record s { active = false; queue = q })
  closed-Delivered q none_held one = record {
    positive = d.positive;
    fits = omega (arith, d.positive);
    in_order = Subsequence-trans d.in_order (
        subst (λ t. Subsequence t (got ++ held s.queue))
          (ap (λ t. (got ++ []) ++ t) (sym none_held))
          (subst (λ t. Subsequence (t ++ []) (got ++ held s.queue)) (sym (append-nil got))
            (Subsequence-append (Subsequence-refl got) (Subsequence-nil (held s.queue)))));
    all_counted = λ a. cc;
    plain = λ a. cc;
    ended = λ n. none_held;
  }

  close-Delivered : Delivered sent (got ++ []) (close_state s)
  unfolding close_state
  close-Delivered = elim (Bool-cases s.active) [
    | inr n ↦
        subst (Delivered sent (got ++ [])) {x = s} (ground arith)
          (idle-Delivered s.consumer_waiting)
    | inl a ↦ elim (Bool-cases s.consumer_waiting) [
      | inl w ↦
          subst (Delivered sent (got ++ [])) (ground arith)
            (closed-Delivered (subscription_closed ∷ []) refl (omega arith))
      | inr w ↦
          subst (Delivered sent (got ++ [])) (ground arith) (closed-Delivered [] refl (omega arith))
    ]
  ]

call-Delivered :
    (sent got : List LuxReadObservation) (c : Call) (s : SubscriptionState)
    → Delivered sent got s
    → Delivered (sent ++ published_by c) (got ++ (call c s).1) (call c s).0
unfolding call
call-Delivered sent got (publishes o) s d =
    subst (λ t. Delivered (sent ++ o ∷ []) t (offer o s).0) (sym (append-nil got))
      (offer-Delivered sent got o s d)
call-Delivered sent got drains s d =
    subst (λ t. Delivered t (got ++ (drain s).1) (drain s).0) (sym (append-nil sent))
      (drain-Delivered sent got s d)
call-Delivered sent got closes s d =
    subst (λ t. Delivered t (got ++ []) (close_state s)) (sym (append-nil sent))
      (close-Delivered sent got s d)
call-Delivered sent got (begins_next t) s d =
    subst (λ u. Delivered u (got ++ []) (begun s (async_next_begin t s))) (sym (append-nil sent))
      (begin-Delivered sent got s d t)
call-Delivered sent got (ends_next w) s d =
    subst (λ u. Delivered u (got ++ got_from (async_next_end w s).1) (async_next_end w s).0)
      (sym (append-nil sent)) (end-Delivered sent got s d w)

calls-Delivered_from :
    (cs : List Call) (sent got : List LuxReadObservation) (s : SubscriptionState)
    → Delivered sent got s
    → Delivered (sent ++ published cs) (got ++ (calls cs s).1) (calls cs s).0
unfolding calls
calls-Delivered_from [] sent got s d =
    subst (λ t. Delivered t (got ++ []) s) (sym (append-nil sent))
      (subst (λ t. Delivered sent t s) (sym (append-nil got)) d)
calls-Delivered_from (c ∷ cs) sent got s d =
    let (s', out) = call c s in
    subst (λ t. Delivered t (got ++ (out ++ (calls cs s').1)) (calls cs s').0)
      (append_assoc sent (published_by c) (published cs))
      (subst (λ t. Delivered ((sent ++ published_by c) ++ published cs) t (calls cs s').0)
        (append_assoc got out (calls cs s').1)
        (calls-Delivered_from cs (sent ++ published_by c) (got ++ out) s'
          (call-Delivered sent got c s d)))

-- After any calls of a new subscription with room for one observation at least, its queue holds
-- no more than its capacity; what its consumer has got, followed by what is queued, is a
-- subsequence of what was published; while it is active, each published observation is counted as
-- received and is got, queued or counted as dropped; and closed, it holds none.
pub calls-Delivered :
    (capacity : ℕ) (cs : List Call)
    → 0 < capacity
    → Delivered (published cs) (calls cs (new_state capacity)).1 (calls cs (new_state capacity)).0
calls-Delivered capacity cs h =
    calls-Delivered_from cs [] [] (new_state capacity) (Delivered-new capacity h)
