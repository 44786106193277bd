-- ===== src/Client/Poll/Kept.antt =====
-- The cache behind a pass: which values have a time, and that a pass that raises changes none.
use luxpower_ha_integration.Base.{
  ℕ, ◌≡◌, refl, ap, sym, ◌∙◌, ◌⊎◌, inl, inr, Bool, true, false, ◌||◌, Option, none, some, [], ◌∷◌,
  Outcome, Exception, ok, raised, timeout_error,
}
use luxpower_ha_integration.Base.Dict.{Dict, Eq, nat_eq, contains, update, contains-update}
use luxpower_ha_integration.Base.Exec.{Exec, proceed}
use luxpower_ha_integration.Packet.Bytes.{Bytes, bytes_eq}
use luxpower_ha_integration.Batteries.{Battery}
use luxpower_ha_integration.Validator.{input, input_bat, hold}
use luxpower_ha_integration.Client.{Cache, Config, require_aware_utc}
use luxpower_ha_integration.Client.Request.{Block}
use luxpower_ha_integration.Client.Pass.{
  Pass, request, observed_now, on_newly, register_block, battery_block, stamp, stamp_batteries,
  accept_input, accept_hold, accept_batteries, poll_input_block, poll_hold_block,
  poll_battery_block,
}

-- Newly polled values and their times have the same keys.
pub record Synced (c : Cache) : Type 0 where
  pub input_ : (j : ℕ) → contains j c.input_observed_at ≡ contains j c.last_good_input_regs
  pub hold_ : (j : ℕ) → contains j c.hold_observed_at ≡ contains j c.last_good_hold_regs
  pub battery_ :
      (j : Bytes) → contains j c.battery_observed_at ≡ contains j c.last_good_battery_data

pub contains-stamp {ℓ κ} :
    {K : Type ℓ} {V : Type κ} ⦃e : Eq K⦄ (j : K) (t : ℕ) (d : Dict K V)
    → contains j (stamp t d) ≡ contains j d
unfolding contains
contains-stamp j t [] = refl
contains-stamp ⦃e⦄ j t ((k, v) ∷ d) = ap (λ b. e.beq k j || b) (contains-stamp j t d)

contains-stamp_batteries :
    (j : Bytes) (t : ℕ) (d : Dict Bytes Battery) → contains j (stamp_batteries t d) ≡ contains j d
unfolding contains
contains-stamp_batteries j t [] = refl
contains-stamp_batteries j t ((k, v) ∷ d) =
    ap (λ b. bytes_eq.beq k j || b) (contains-stamp_batteries j t d)

-- Both halves of a pair of dictionaries are updated by the same keys.
pub update-Synced {ℓ κ μ} :
    {K : Type ℓ} {V : Type κ} {W : Type μ} ⦃e : Eq K⦄ (j : K) (d more : Dict K V)
    (d' more' : Dict K W)
    → contains j d ≡ contains j d'
    → contains j more ≡ contains j more'
    → contains j (update d more) ≡ contains j (update d' more')
update-Synced j d more d' more' h h' =
    contains-update j d more
    ∙ ap (λ b. b || contains j more) h
    ∙ ap (λ b. contains j d' || b) h'
    ∙ sym (contains-update j d' more')

abbrev pub is_timeout : Exception → Bool
is_timeout timeout_error = true
is_timeout _ = false

-- What a step of a pass leaves: a timeout, which the pass survives, leaves keys and times together.
abbrev pub Good : {A : Type 0} → Pass × Outcome A → Type 0
Good (s, ok _) = Synced s.newly
Good (s, raised e) = Synced s.newly ⊎ (is_timeout e ≡ false)

pub proceed-Good :
    {A B : Type 0} (f : A → Exec Pass B) (r : Pass × Outcome A)
    → Good r
    → ((a : A) (s : Pass) → Synced s.newly → Good (f a s))
    → Good (proceed f r)
proceed-Good f (s, ok a) h next = next a s h
proceed-Good f (s, raised e) h next = h

request-Good :
    {B : Type 0} (f : Block → Exec Pass B) (r : Pass × Outcome Block)
    → Synced r.0.newly
    → ((b : Block) (s : Pass) → Synced s.newly → Good (f b s))
    → Good (proceed f r)
request-Good f (s, ok a) h next = next a s h
request-Good f (s, raised e) h next = inl h

-- The reading of the clock between the values and their times.
clock-Good :
    (o : Option ℕ) (s : Pass) (f : ℕ → Cache → Cache)
    → ((t : ℕ) → Synced (f t s.newly))
    → Good (proceed (λ t. on_newly (f t)) (s, require_aware_utc o))
clock-Good none s f h = inr refl
clock-Good (some t) s f h = h t

accept_input-Good : (d : Dict ℕ ℕ) (s : Pass) → Synced s.newly → Good (accept_input d s)
unfolding accept_input observed_now
accept_input-Good [] s h = h
accept_input-Good (entry ∷ entries) s h =
    clock-Good (s.world.clock s.world.ticks) _
      (λ t c. record c {
        input_observed_at = update c.input_observed_at (stamp t (entry ∷ entries));
      })
      λ t. record {
        input_ = λ j.
            update-Synced j s.newly.input_observed_at (stamp t (entry ∷ entries))
              s.newly.last_good_input_regs (entry ∷ entries) (h.input_ j)
              (contains-stamp j t (entry ∷ entries));
        hold_ = h.hold_;
        battery_ = h.battery_;
      }

accept_hold-Good : (d : Dict ℕ ℕ) (s : Pass) → Synced s.newly → Good (accept_hold d s)
unfolding accept_hold observed_now
accept_hold-Good [] s h = h
accept_hold-Good (entry ∷ entries) s h =
    clock-Good (s.world.clock s.world.ticks) _
      (λ t c. record c { hold_observed_at = update c.hold_observed_at (stamp t (entry ∷ entries)) })
      λ t. record {
        input_ = h.input_;
        hold_ = λ j.
            update-Synced j s.newly.hold_observed_at (stamp t (entry ∷ entries))
              s.newly.last_good_hold_regs (entry ∷ entries) (h.hold_ j)
              (contains-stamp j t (entry ∷ entries));
        battery_ = h.battery_;
      }

accept_batteries-Good :
    (d : Dict Bytes Battery) (s : Pass) → Synced s.newly → Good (accept_batteries d s)
unfolding accept_batteries observed_now
accept_batteries-Good [] s h = h
accept_batteries-Good (entry ∷ entries) s h =
    clock-Good (s.world.clock s.world.ticks) _
      (λ t c. record c {
        battery_observed_at = update c.battery_observed_at (stamp_batteries t (entry ∷ entries));
      })
      λ t. record {
        input_ = h.input_;
        hold_ = h.hold_;
        battery_ = λ j.
            update-Synced j s.newly.battery_observed_at (stamp_batteries t (entry ∷ entries))
              s.newly.last_good_battery_data (entry ∷ entries) (h.battery_ j)
              (contains-stamp_batteries j t (entry ∷ entries));
      }

pub poll_input_block-Good :
    (config : Config) (reg : ℕ) (s : Pass) → Synced s.newly → Good (poll_input_block config reg s)
unfolding poll_input_block request
poll_input_block-Good config reg s h =
    request-Good (λ block. accept_input (register_block block)) (request config reg input 4 s) h
      λ b s' h'. accept_input-Good (register_block b) s' h'

pub poll_hold_block-Good :
    (config : Config) (reg : ℕ) (s : Pass) → Synced s.newly → Good (poll_hold_block config reg s)
unfolding poll_hold_block request
poll_hold_block-Good config reg s h =
    request-Good (λ block. accept_hold (register_block block)) (request config reg hold 3 s) h
      λ b s' h'. accept_hold-Good (register_block b) s' h'

pub poll_battery_block-Good :
    (config : Config) (reg : ℕ) (s : Pass) → Synced s.newly → Good (poll_battery_block config reg s)
unfolding poll_battery_block request
poll_battery_block-Good config reg s h =
    request-Good (λ block. accept_batteries (battery_block block))
      (request config reg input_bat 4 s) h λ b s' h'. accept_batteries-Good (battery_block b) s' h'
