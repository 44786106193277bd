-- ===== src/Session/Reach/Snapshot.antt =====
-- The register snapshot of a session, as a view of the blocks that it has accepted: each register
-- is shown as the latest block that covers it has it.

use luxpower_ha_integration.Base.{
  ℕ, ◌+◌, ◌≤◌, ◌≡◌, refl, sym, ap, subst, ◌∙◌, inl, inr, Bool, true, Option, none, some, List, [],
  ◌∷◌, arith, length, Outcome, ok, raised, Bool-cases,
}
use luxpower_ha_integration.Base.Dict.{Dict, nat_eq}
use luxpower_ha_integration.Packet.Response.{
  LxpResponse, words, number_from, number_words, has_no_values, parsed_values_dictionary,
}
use luxpower_ha_integration.Session.{
  LuxReadObservation, Inputs, PendingRead, Config, LuxReadSession, pending_at,
}
use luxpower_ha_integration.Session.Delivery.{publish_observation}
use luxpower_ha_integration.Session.Frame.{
  block_eq, observe, record_inputs, answer, accept, follow, is_answer, count_block,
}
use luxpower_ha_integration.Session.Classify.{
  Route, counts_193, rejects, refuses, accepts, is_acceptable,
}
use luxpower_ha_integration.Session.Frame.Branches.{accepts-answer, counted_frame, route_of}
use luxpower_ha_integration.Session.Reach.Shown.{IsBlock, AreBlocks, Shows, record_inputs-Shows}

parsed_block :
    (response : LxpResponse) (start : ℕ)
    → response.register ≡ some start
    → (ws : List ℕ) × (parsed_values_dictionary response ≡ number_from start ws)
unfolding parsed_values_dictionary number_words number_from
parsed_block response start e = elim (Bool-cases (has_no_values response)) [
  | inl empty ↦ ([], ground (arith, empty))
  | inr full ↦ (words response.value, ground (arith, full, e))
]

acceptable_within :
    (config : Config) (response : LxpResponse) (values : Dict ℕ ℕ) (start : ℕ)
    → is_acceptable config response values ≡ true
    → response.register ≡ some start
    → start + length values ≤ 750
acceptable_within config response values start h e = ground arith

observe-IsBlock :
    (config : Config) (response : LxpResponse) (start : ℕ) (values : Dict ℕ ℕ) (b : Bool) (at : ℕ)
    (inputs : Inputs)
    → values ≡ parsed_values_dictionary response
    → response.register ≡ some start
    → is_acceptable config response (parsed_values_dictionary response) ≡ true
    → IsBlock (observe start values b at inputs)
unfolding observe
observe-IsBlock config response start values b at inputs same at_start acceptable =
    let (ws, numbered) = parsed_block response start at_start in
    record {
      contents = ws;
      in_sequence = same ∙ numbered;
      counted = refl;
      within =
          subst (λ vs. start + length vs ≤ 750) (sym same)
            (acceptable_within config response (parsed_values_dictionary response) start acceptable
              at_start);
    }

-- Some history of numbered blocks is what the snapshot shows.
abbrev pub HasHistory : LuxReadSession → Type 0
HasHistory self =
    (history : List LuxReadObservation) × Shows history self.inputs × AreBlocks history

sequence-observe :
    (start : ℕ) (values : Dict ℕ ℕ) (b : Bool) (at : ℕ) (inputs : Inputs)
    → (observe start values b at inputs).sequence ≡ inputs.observation_sequence + 1
unfolding observe
sequence-observe start values b at inputs = refl

-- An accepted block becomes the latest of the history that is shown.
accept-HasHistory :
    (config : Config) (response : LxpResponse) (start : ℕ) (values : Dict ℕ ℕ)
    (answered : Option (ℕ × PendingRead)) (at now : ℕ) (self : LuxReadSession)
    → values ≡ parsed_values_dictionary response
    → response.register ≡ some start
    → is_acceptable config response (parsed_values_dictionary response) ≡ true
    → HasHistory self
    → HasHistory (accept start values answered (ok at) now self).0
unfolding accept answer
accept-HasHistory config response start values answered at now self same at_start acceptable h =
    let (history, shows, blocks) = h in
    let o = observe start values (is_answer answered) at self.inputs in
    let block =
      observe-IsBlock config response start values (is_answer answered) at self.inputs same at_start
        acceptable in
    let next = sequence-observe start values (is_answer answered) at self.inputs in
    let shows' = record_inputs-Shows history self.inputs o block next shows in
    let blocks' : AreBlocks (o ∷ history) =
      (block, next ∙ ap (λ n. n + 1) shows.numbered, blocks) in
    elim answered
      as (λ a. HasHistory (
        answer a o now (record self {
          inputs = record_inputs o self.inputs;
          subscriptions = publish_observation o self.subscriptions;
          counters = count_block o self.counters;
        }))) [ none ↦ (o ∷ history, shows', blocks') | some p ↦ (o ∷ history, shows', blocks') ]

pub follow-HasHistory :
    (response : LxpResponse) (clock : Outcome ℕ) (now : ℕ) (self : LuxReadSession)
    → HasHistory self
    → (route : Route) → route_of response self ≡ route
    → HasHistory (follow route clock now (counted_frame self)).0
unfolding follow accept
follow-HasHistory response clock now self s counts_193 h = s
follow-HasHistory response clock now self s (refuses reason) h = s
follow-HasHistory response clock now self s (rejects id code) h = s
follow-HasHistory response (raised e) now self s (accepts start values answered) h = s
follow-HasHistory response (ok at) now self s (accepts start values answered) h =
    let (same_values, at_start, acceptable, answer_is) =
      accepts-answer self.config (pending_at self.generation self) response start values answered
        h in
    accept-HasHistory self.config response start values answered at now (counted_frame self)
      same_values at_start acceptable s
