-- ===== src/Session/Delivery/Offered.antt =====
-- The calls that change a subscription, and what it gets when an observation is offered.
use luxpower_ha_integration.Base.{
  ℕ, ◌+◌, ◌≤◌, ◌<◌, ◌≡◌, refl, sym, ap, subst, ◌∙◌, inl, inr, true, false, Option, some, List, [],
  ◌∷◌, ◌++◌, append-nil, append_assoc, arith, length, length-append, Outcome, ok, raised,
  Bool-cases, List-cases,
}
use luxpower_ha_integration.Base.Subsequence.{
  Subsequence, done, Subsequence-refl, Subsequence-nil, Subsequence-append, Subsequence-trans,
  without_middle,
}
use luxpower_ha_integration.Session.{
  LuxReadObservation, Item, observation, subscription_closed, SubscriptionState,
}
use luxpower_ha_integration.Session.Delivery.{
  new_state, is_full, drop_from, enqueue, offer, drain, async_next_begin, Wake, async_next_end,
  close_state,
}

-- The calls that change a subscription's state.
pub data Call : Type 0 where
  publishes : LuxReadObservation → Call
  drains closes : Call
  begins_next : (timeout : Option ℕ) → Call
  ends_next : Wake → Call

abbrev pub begun : SubscriptionState → Outcome SubscriptionState → SubscriptionState
begun state (raised e) = state
begun state (ok state') = state'

abbrev pub got_from : Option (Outcome LuxReadObservation) → List LuxReadObservation
got_from (some (ok o)) = o ∷ []
got_from _ = []

-- A call: the state behind it, and the observations that it hands to the consumer.
unfoldable pub call : Call → SubscriptionState → SubscriptionState × List LuxReadObservation
call (publishes o) state = ((offer o state).0, [])
call drains state = drain state
call closes state = (close_state state, [])
call (begins_next timeout) state = (begun state (async_next_begin timeout state), [])
call (ends_next wake) state =
    let (state', got) = async_next_end wake state in (state', got_from got)

unfoldable pub calls : List Call → SubscriptionState → SubscriptionState × List LuxReadObservation
calls [] state = (state, [])
calls (c ∷ later) state =
    let (state', got) = call c state in let (end, more) = calls later state' in (end, got ++ more)

abbrev pub published_by : Call → List LuxReadObservation
published_by (publishes o) = o ∷ []
published_by _ = []

abbrev pub published : List Call → List LuxReadObservation
published [] = []
published (c ∷ later) = published_by c ++ published later

-- The observations that a queue holds.
abbrev pub held : List Item → List LuxReadObservation
held [] = []
held (observation o ∷ queue) = o ∷ held queue
held (subscription_closed ∷ queue) = held queue

-- A subscriber that got `got` of the observations `sent` stands as `state` says.
pub record Delivered (sent got : List LuxReadObservation) (state : SubscriptionState) : Type 0 where
  pub positive : 0 < state.capacity
  pub fits : length state.queue ≤ state.capacity
  pub in_order : Subsequence (got ++ held state.queue) sent
  pub all_counted :
      state.active ≡ true
      → (state.observations_received ≡ length sent)
        × (length got + length state.queue + state.observations_dropped ≡ length sent)
  pub plain : state.active ≡ true → length (held state.queue) ≡ length state.queue
  pub ended : state.active ≡ false → held state.queue ≡ []

held-append :
    (q : List Item) (o : LuxReadObservation) → held (q ++ observation o ∷ []) ≡ held q ++ o ∷ []
held-append [] o = refl
held-append (observation p ∷ q) o = ap (λ t. p ∷ t) (held-append q o)
held-append (subscription_closed ∷ q) o = held-append q o

pub Delivered-new : (capacity : ℕ) → 0 < capacity → Delivered [] [] (new_state capacity)
Delivered-new capacity h = record {
  positive = h;
  fits = omega arith;
  in_order = done;
  all_counted = λ a. (refl, refl);
  plain = λ a. refl;
  ended = λ a. refl;
}

-- The queue that an active state has behind an observation that it is offered.
enqueued :
    (sent got : List LuxReadObservation) (o : LuxReadObservation) (q q' : List Item)
    → Subsequence (got ++ held q') (got ++ held q)
    → Subsequence (got ++ held q) sent
    → Subsequence (got ++ held (q' ++ observation o ∷ [])) (sent ++ o ∷ [])
enqueued sent got o q q' left order =
    subst (λ t. Subsequence t (sent ++ o ∷ []))
      (append_assoc got (held q') (o ∷ []) ∙ ap (λ t. got ++ t) (sym (held-append q' o)))
      (Subsequence-append (Subsequence-trans order left) (Subsequence-refl (o ∷ [])))

-- The oldest item of a full queue goes.
held_tail :
    (got : List LuxReadObservation) (i : Item) (q : List Item)
    → Subsequence (got ++ held q) (got ++ held (i ∷ q))
held_tail got (observation o) q = without_middle got o (held q)
held_tail got subscription_closed q = Subsequence-refl (got ++ held q)

pub length-held : (q : List Item) → length (held q) ≤ length q
length-held [] = omega arith
length-held (observation o ∷ q) = omega (arith, length-held q)
length-held (subscription_closed ∷ q) = omega (arith, length-held q)

plain_tail :
    (i : Item) (q : List Item) → length (held (i ∷ q)) ≡ length (i ∷ q) → length (held q) ≡ length q
plain_tail (observation o) q h = omega arith
plain_tail subscription_closed q h = absurd (omega (arith, length-held q))

Subsequence-more : {A : Type 0} (xs ys zs : List A) → Subsequence xs ys → Subsequence xs (ys ++ zs)
Subsequence-more xs ys zs s =
    subst (λ t. Subsequence t (ys ++ zs)) (append-nil xs)
      (Subsequence-append s (Subsequence-nil zs))

module _ (sent got : List LuxReadObservation) (o : LuxReadObservation) where
  -- An observation is put into a state `r` that has room, and that came from `s`.
  enqueue-Delivered :
      (s r : SubscriptionState)
      → s.active ≡ true
      → r.active ≡ true
      → length r.queue < r.capacity
      → Subsequence (got ++ held r.queue) (got ++ held s.queue)
      → length (held r.queue) ≡ length r.queue
      → r.observations_received ≡ s.observations_received
      → length r.queue + r.observations_dropped ≡ length s.queue + s.observations_dropped
      → Delivered sent got s
      → Delivered (sent ++ o ∷ []) got (enqueue o r)
  enqueue-Delivered s r a a' room left plain' same moved d =
      let (received, counted) = d.all_counted a in
      let longer = length-append sent (o ∷ []) in
      let grown = length-append r.queue (observation o ∷ []) in
      record {
        positive = omega arith;
        fits = omega arith;
        in_order = enqueued sent got o s.queue r.queue left d.in_order;
        all_counted = λ b. (omega arith, omega arith);
        plain = λ b.
            omega (arith, ap length (held-append r.queue o), length-append (held r.queue) (o ∷ []));
        ended = λ n. cc;
      }

  pub offer-Delivered :
      (s : SubscriptionState) → Delivered sent got s → Delivered (sent ++ o ∷ []) got (offer o s).0
  unfolding offer
  offer-Delivered s d = elim (Bool-cases s.active) [
    | inr n ↦ subst (Delivered (sent ++ o ∷ []) got) {x = s} (ground arith) record {
      positive = d.positive;
      fits = d.fits;
      in_order = Subsequence-more (got ++ held s.queue) sent (o ∷ []) d.in_order;
      all_counted = λ a. cc;
      plain = d.plain;
      ended = d.ended;
    }
    | inl a ↦ elim (Bool-cases (is_full s)) [
      | inr room ↦ subst (Delivered (sent ++ o ∷ []) got) (ground arith) (
          enqueue-Delivered s s a a (ground (arith, d.fits, d.positive))
            (Subsequence-refl (got ++ held s.queue)) (d.plain a) refl refl d)
      | inl full ↦ elim (List-cases s.queue) [
        | inl e ↦ absurd (ground (arith, ap length e))
        | inr (i, q, e) ↦ subst (Delivered (sent ++ o ∷ []) got) (ground (arith, e)) (
            enqueue-Delivered s (drop_from (i ∷ q) s).0 a a (omega (arith, ap length e, d.fits))
              (subst (λ t. Subsequence (got ++ held q) (got ++ held t)) (sym e) (held_tail got i q))
              (plain_tail i q (ap (λ t. length (held t)) (sym e) ∙ d.plain a ∙ ap length e)) refl
              (omega (arith, ap length e)) d)
      ]
    ]
  ]
