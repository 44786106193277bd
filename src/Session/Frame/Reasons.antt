-- ===== src/Session/Frame/Reasons.antt =====
-- _invalid_frame_reason: which reasons a refused frame can have.
use luxpower_ha_integration.Base.{
  ℕ, ◌≡◌, ◌≢◌, refl, sym, ◌∙◌, inl, inr, true, false, Option, none, [], ◌∷◌, arith, Bool-cases,
  Option-cases,
}
use luxpower_ha_integration.Base.Dict.{Dict}
use luxpower_ha_integration.Packet.Response.{LxpResponse, parsed_values_dictionary}
use luxpower_ha_integration.Validator.{is_data_sane, input, all_sane, member}
use luxpower_ha_integration.Session.{PendingRead, Config}
use luxpower_ha_integration.Session.Classify.{
  LuxInvalidFrameReason, refuses, data_sanity, is_193, is_rejection, is_acceptable, is_contiguous,
  invalid_frame_reason, classify,
}

all_sane-nil : (d : Dict ℕ ℕ) → all_sane [] d ≡ true
unfolding all_sane member
all_sane-nil [] = refl
all_sane-nil ((r, v) ∷ d) = ground (arith, all_sane-nil d)

input_is_sane : (d : Dict ℕ ℕ) → is_data_sane d input ≡ true
unfolding is_data_sane
input_is_sane d = all_sane-nil d

reason_sanity :
    (config : Config) (response : LxpResponse) (values : Dict ℕ ℕ)
    → is_acceptable config response values ≡ false
    → invalid_frame_reason config response values (is_contiguous response.register values)
      ≡ data_sanity
    → ⊥
unfolding invalid_frame_reason
reason_sanity config response values h r = ground (arith, input_is_sane values)

-- A frame that passes the long test has a register.
acceptable_register :
    (config : Config) (response : LxpResponse) (values : Dict ℕ ℕ)
    → is_acceptable config response values ≡ true
    → response.register ≡ none
    → ⊥
acceptable_register config response values h e = ground arith

refuses-inj : {r s : LuxInvalidFrameReason} → refuses r ≡ refuses s → r ≡ s
refuses-inj h = cc

module _ (config : Config) (response : LxpResponse) where
  not_acceptable :
      (pending : Option (ℕ × PendingRead)) (reason : LuxInvalidFrameReason)
      → classify config pending response ≡ refuses reason
      → (is_acceptable config response (parsed_values_dictionary response) ≡ false)
        × (reason
            ≡ invalid_frame_reason config response
                (parsed_values_dictionary response)
                (is_contiguous response.register (parsed_values_dictionary response)))
  unfolding classify
  not_acceptable pending reason h =
      let values = parsed_values_dictionary response in
      elim (Bool-cases (is_193 response)) [
        | inl fc193 ↦ absurd (ground (arith, fc193))
        | inr other ↦ elim (Bool-cases (is_rejection config response pending)) [
          | inl rejected ↦ elim (Option-cases pending) [
            | inl e ↦ absurd (ground (arith, e, rejected))
            | inr (p, e) ↦ absurd (ground (arith, other, rejected, e))
          ]
          | inr kept ↦ elim (Bool-cases (is_acceptable config response values)) [
            | inr f ↦ (f, refuses-inj (sym h ∙ ground (arith, other, kept, f)))
            | inl t ↦ elim (Option-cases response.register) [
              | inl e ↦ absurd (acceptable_register config response values t e)
              | inr (r, e) ↦ absurd (ground (arith, other, kept, t, e))
            ]
          ]
        ]
      ]

  -- No frame is refused with the reason DATA_SANITY: there are no input registers that hold times,
  -- so that the sanity check of input registers passes, and a refused frame has another reason.
  pub classify-not_data_sanity :
      (pending : Option (ℕ × PendingRead)) (reason : LuxInvalidFrameReason)
      → classify config pending response ≡ refuses reason
      → reason ≢ data_sanity
  classify-not_data_sanity pending reason h e =
      let (f, is) = not_acceptable pending reason h in
      reason_sanity config response (parsed_values_dictionary response) f (sym is ∙ e)
