-- ===== src/Notify/Alerts/Staleness.antt =====
-- Whether a source counts as stale, as a function of the calls.
use calbridge.Common.{
  Duration, plus, ℕ, ◌≡◌, refl, ap, ◌∙◌, inl, inr, Text, List, [], ◌∷◌, Bool, true, false,
  if◌then◌else◌, ◌==◌, ==_sound, subst, arith, Bool-cases,
}
use calbridge.Common.Dict.{get-put, get-delete}
use calbridge.Notify.{Config}
use calbridge.Notify.Alerts.{
  Started, Notifier, is_stale, in_cooldown, mark_stale, mark_recovered, clear_state, Call, stale,
  stale_with, recovery, recovery_with, clear, send_stale_alert, send_stale_alert_with_prefs,
  send_recovery_alert, send_recovery_alert_with_prefs, clear_stale_state, state_of, step, run,
}

-- Staleness after one call: a stale alert sets it, a recovery and ClearStaleState end it.
abbrev pub stale_step : Text → Call → Bool → Bool
stale_step id (stale k name email since threshold now) b = if k == id then true else b
stale_step id (stale_with k name email since threshold prefs now) b = if k == id then true else b
stale_step id (recovery k name email now) b = if k == id then false else b
stale_step id (recovery_with k name email prefs now) b = if k == id then false else b
stale_step id (clear k) b = if k == id then false else b

abbrev pub stale_after : Text → List Call → Bool → Bool
stale_after id [] b = b
stale_after id (c ∷ cs) b = stale_after id cs (stale_step id c b)

is_stale-mark_stale :
    (id k : Text) (now : ℕ) (g : Started) (n : Notifier)
    → is_stale id (mark_stale k now g n) ≡ (if k == id then true else is_stale id n)
unfolding is_stale mark_stale
is_stale-mark_stale id k now g n = elim (Bool-cases (k == id)) [
  | inl e ↦ rw (get-put k id true n.stale_state, e) refl
  | inr e ↦ rw (get-put k id true n.stale_state, e) refl
]

is_stale-clear_state :
    (id k : Text) (n : Notifier)
    → is_stale id (clear_state k n) ≡ (if k == id then false else is_stale id n)
unfolding is_stale clear_state
is_stale-clear_state id k n = elim (Bool-cases (k == id)) [
  | inl e ↦ rw (get-delete k id n.stale_state, e) refl
  | inr e ↦ rw (get-delete k id n.stale_state, e) refl
]

is_stale-mark_recovered :
    (id k : Text) (g : Started) (n : Notifier)
    → is_stale id (mark_recovered k g n) ≡ (if k == id then false else is_stale id n)
unfolding is_stale mark_recovered clear_state
is_stale-mark_recovered id k g n = elim (Bool-cases (k == id)) [
  | inl e ↦ rw (get-delete k id n.stale_state, e) refl
  | inr e ↦ rw (get-delete k id n.stale_state, e) refl
]

in_cooldown-is_stale :
    (k : Text) (cooldown : Duration) (now : ℕ) (n : Notifier)
    → in_cooldown k cooldown now n ≡ true
    → is_stale k n ≡ true
unfolding in_cooldown
in_cooldown-is_stale k cooldown now n h = ground (arith, h)

stays :
    (id k : Text) (n : Notifier)
    → is_stale k n ≡ true
    → is_stale id n ≡ (if k == id then true else is_stale id n)
stays id k n h = elim (Bool-cases (k == id)) [
  | inl e ↦ rw e (subst (λ x. is_stale x n ≡ true) (==_sound k id e) h)
  | inr e ↦ rw e refl
]

stays_not :
    (id k : Text) (n : Notifier)
    → is_stale k n ≡ false
    → is_stale id n ≡ (if k == id then false else is_stale id n)
stays_not id k n h = elim (Bool-cases (k == id)) [
  | inl e ↦ rw e (subst (λ x. is_stale x n ≡ false) (==_sound k id e) h)
  | inr e ↦ rw e refl
]

-- A call in the cooldown leaves a source stale that was stale.
stale_unless :
    (id k : Text) (cooldown : Duration) (now : ℕ) (g : Started) (n : Notifier)
    → is_stale id (
        state_of
          (if in_cooldown k cooldown now n then (n, false) else (mark_stale k now g n, true)))
      ≡ (if k == id then true else is_stale id n)
stale_unless id k cooldown now g n = elim (Bool-cases (in_cooldown k cooldown now n)) [
  | inl e ↦ rw e (stays id k n (in_cooldown-is_stale k cooldown now n e))
  | inr e ↦ rw e (is_stale-mark_stale id k now g n)
]

recovered_if :
    (id k : Text) (g : Started) (n : Notifier)
    → is_stale id (state_of (if is_stale k n then (mark_recovered k g n, true) else (n, false)))
      ≡ (if k == id then false else is_stale id n)
recovered_if id k g n = elim (Bool-cases (is_stale k n)) [
  | inl e ↦ rw e (is_stale-mark_recovered id k g n)
  | inr e ↦ rw e (stays_not id k n e)
]

step-stale_step :
    (cfg : Config) (id : Text) (c : Call) (n : Notifier)
    → is_stale id (state_of (step cfg c n)) ≡ stale_step id c (is_stale id n)
unfolding step send_stale_alert send_stale_alert_with_prefs send_recovery_alert
    send_recovery_alert_with_prefs clear_stale_state
step-stale_step cfg id (stale k name email since threshold now) n =
    stale_unless id k (plus cfg.cooldown_period) now _ n
step-stale_step cfg id (stale_with k name email since threshold prefs now) n =
    stale_unless id k _ now _ n
step-stale_step cfg id (recovery k name email now) n = recovered_if id k _ n
step-stale_step cfg id (recovery_with k name email prefs now) n = recovered_if id k _ n
step-stale_step cfg id (clear k) n = is_stale-clear_state id k n

-- After any history of calls a source counts as stale exactly if the last call that concerns it is a
-- stale alert, whether or not that call was in the cooldown; a recovery or ClearStaleState ends it,
-- and without a call that concerns it it is as it was before.
pub is_stale-run :
    (cfg : Config) (id : Text) (cs : List Call) (n : Notifier)
    → is_stale id (run cfg cs n) ≡ stale_after id cs (is_stale id n)
unfolding run
is_stale-run cfg id [] n = refl
is_stale-run cfg id (c ∷ cs) n =
    is_stale-run cfg id cs (state_of (step cfg c n))
    ∙ ap (stale_after id cs) (step-stale_step cfg id c n)
