-- ===== src/Notify/Alerts/Cooldown.antt =====
-- The cooldown between two stale alerts of one source.
use calbridge.Common.{
  Duration, plus, minus, AtLeast, is_within, ℕ, ◌+◌, ◌≤◌, ◌≡◌, refl, ◌∙◌, inl, inr, Text, List, [],
  ◌∷◌, Option, none, some, Bool, true, false, if◌then◌else◌, ◌==◌, ==_sound, ==_refl, ◌⊎◌, subst,
  sym, arith, All, Bool-cases,
}
use calbridge.Common.Dict.{get, get-put, get-delete}
use calbridge.Notify.{Config}
use calbridge.Notify.Delivery.{get_cooldown_period}
use calbridge.Notify.Alerts.{
  Started, Notifier, is_stale, is_recent_alert, in_cooldown, mark_stale, mark_recovered,
  clear_state, Call, stale, stale_with, recovery, recovery_with, clear, send_stale_alert,
  send_stale_alert_with_prefs, send_recovery_alert, send_recovery_alert_with_prefs,
  clear_stale_state, state_of, returned, step,
}

-- The last alert of a source that counts as stale.
abbrev pub due : Text → Notifier → Option ℕ
due id n = if is_stale id n then get id n.last_alert_times else none

abbrev pub now_if : Bool → ℕ → List ℕ → List ℕ
now_if b now ts = if b then now ∷ ts else ts

-- The time of the alert that the call sends for the source, before the later ones.
abbrev pub alert_before : Text → Call → Bool → List ℕ → List ℕ
alert_before id (stale k name email since threshold now) b ts =
    now_if (if k == id then b else false) now ts
alert_before id (stale_with k name email since threshold prefs now) b ts =
    now_if (if k == id then b else false) now ts
alert_before id (recovery k name email now) b ts = ts
alert_before id (recovery_with k name email prefs now) b ts = ts
alert_before id (clear k) b ts = ts

-- The times of the stale alerts that the calls send for the source.
pub alert_times : Config → Text → List Call → Notifier → List ℕ
alert_times cfg id [] n = []
alert_times cfg id (c ∷ cs) n =
    let r = step cfg c n in alert_before id c (returned r) (alert_times cfg id cs (state_of r))

-- Each time is at least the cooldown after the one before it, the first after the given one.
abbrev pub Spaced : ℕ → Option ℕ → List ℕ → Type 0
Spaced cooldown o [] = Unit
Spaced cooldown none (t ∷ ts) = Spaced cooldown (some t) ts
Spaced cooldown (some u) (t ∷ ts) = (u + cooldown ≤ t) × Spaced cooldown (some t) ts

-- A call that does not end the staleness of the source, and has at least this cooldown for it.
abbrev pub Persists : Config → Text → ℕ → Call → Type 0
Persists cfg id cooldown (stale k name email since threshold now) =
    ((k == id) ≡ false) ⊎ AtLeast cooldown (plus cfg.cooldown_period)
Persists cfg id cooldown (stale_with k name email since threshold prefs now) =
    ((k == id) ≡ false) ⊎ AtLeast cooldown (get_cooldown_period cfg prefs)
Persists cfg id cooldown (recovery k name email now) = (k == id) ≡ false
Persists cfg id cooldown (recovery_with k name email prefs now) = (k == id) ≡ false
Persists cfg id cooldown (clear k) = (k == id) ≡ false

in_cooldown-due :
    (id : Text) (cooldown : Duration) (now : ℕ) (n : Notifier)
    → in_cooldown id cooldown now n ≡ is_recent_alert cooldown now (due id n)
unfolding in_cooldown is_recent_alert
in_cooldown-due id cooldown now n = elim (Bool-cases (is_stale id n)) [
  | inl e ↦ rw e refl
  | inr e ↦ rw e refl
]

due-mark_stale :
    (id : Text) (now : ℕ) (g : Started) (n : Notifier) → due id (mark_stale id now g n) ≡ some now
unfolding is_stale mark_stale
due-mark_stale id now g n =
    rw (get-put id id true n.stale_state, get-put id id now n.last_alert_times, ==_refl id) refl

module _ (id k : Text) (miss : (k == id) ≡ false) where
  due-mark_other : (now : ℕ) (g : Started) (n : Notifier) → due id (mark_stale k now g n) ≡ due id n
  unfolding is_stale mark_stale
  due-mark_other now g n =
      rw (get-put k id true n.stale_state, get-put k id now n.last_alert_times, miss) refl

  due-clear_other : (n : Notifier) → due id (clear_state k n) ≡ due id n
  unfolding is_stale clear_state
  due-clear_other n =
      rw (get-delete k id n.stale_state, get-delete k id n.last_alert_times, miss) refl

  due-recover_other :
      (g : Started) (n : Notifier)
      → due id (state_of (if is_stale k n then (mark_recovered k g n, true) else (n, false)))
        ≡ due id n
  unfolding mark_recovered is_stale
  due-recover_other g n = elim (Bool-cases (is_stale k n)) [
    | inl e ↦ rw e (due-clear_other n)
    | inr e ↦ rw e refl
  ]

  due-stale_other :
      (cooldown : Duration) (now : ℕ) (g : Started) (n : Notifier)
      → due id (
          state_of
            (if in_cooldown k cooldown now n then (n, false) else (mark_stale k now g n, true)))
        ≡ due id n
  due-stale_other cooldown now g n = elim (Bool-cases (in_cooldown k cooldown now n)) [
    | inl e ↦ rw e refl
    | inr e ↦ rw e (due-mark_other now g n)
  ]

alert-Spaced :
    (cooldown : Duration) (least now : ℕ) (o : Option ℕ) (ts : List ℕ)
    → AtLeast least cooldown
    → is_recent_alert cooldown now o ≡ false
    → Spaced least (some now) ts
    → Spaced least o (now ∷ ts)
unfolding is_recent_alert is_within
alert-Spaced cooldown least now none ts h e s = s
alert-Spaced (plus d) least now (some t) ts h e s = (ground (arith, e, h), s)
alert-Spaced (minus d) least now (some t) ts h e s = absurd h

-- A stale call for the source itself: no alert in the cooldown, or one that is late enough.
stale_same :
    (id : Text) (cooldown : Duration) (least now : ℕ) (g : Started) (n : Notifier)
    (later : Notifier → List ℕ)
    → AtLeast least cooldown
    → ((m : Notifier) → Spaced least (due id m) (later m))
    → Spaced least (due id n) (
        let r : Notifier × Bool =
          if in_cooldown id cooldown now n then (n, false) else (mark_stale id now g n, true) in
        now_if (returned r) now (later (state_of r)))
stale_same id cooldown least now g n later h ih =
    elim (Bool-cases (in_cooldown id cooldown now n)) [
      | inl e ↦ rw e (ih n)
      | inr e ↦
          let m = mark_stale id now g n in
          let calm : is_recent_alert cooldown now (due id n) ≡ false =
            sym (in_cooldown-due id cooldown now n) ∙ e in
          rw e (
            alert-Spaced cooldown least now (due id n) (later m) h calm
              (subst (λ o. Spaced least o (later m)) (due-mark_stale id now g n) (ih m)))
    ]

enough :
    (b : Bool) (least : ℕ) (cooldown : Duration)
    → b ≡ true
    → (b ≡ false) ⊎ AtLeast least cooldown
    → AtLeast least cooldown
enough b least cooldown e (inl f) = cc
enough b least cooldown e (inr l) = l

stale-Spaced :
    (id k : Text) (cooldown : Duration) (least now : ℕ) (g : Started) (n : Notifier)
    (later : Notifier → List ℕ)
    → ((k == id) ≡ false) ⊎ AtLeast least cooldown
    → ((m : Notifier) → Spaced least (due id m) (later m))
    → Spaced least (due id n) (
        let r : Notifier × Bool =
          if in_cooldown k cooldown now n then (n, false) else (mark_stale k now g n, true) in
        now_if (if k == id then returned r else false) now (later (state_of r)))
stale-Spaced id k cooldown least now g n later h ih = elim (Bool-cases (k == id)) [
  | inl e ↦
      let l : AtLeast least cooldown = enough (k == id) least cooldown e h in
      rw e (
        subst
          (λ x. Spaced least (due id n) (
            let r : Notifier × Bool =
              if in_cooldown x cooldown now n then (n, false) else (mark_stale x now g n, true) in
            now_if (returned r) now (later (state_of r))))
          (sym (==_sound k id e)) (stale_same id cooldown least now g n later l ih))
  | inr e ↦
      let r : Notifier × Bool =
        if in_cooldown k cooldown now n then (n, false) else (mark_stale k now g n, true) in
      rw e (
        subst (λ o. Spaced least o (later (state_of r))) (due-stale_other id k e cooldown now g n)
          (ih (state_of r)))
]

kept-Spaced :
    (least : ℕ) (m n : Notifier) (id : Text) (later : Notifier → List ℕ)
    → due id m ≡ due id n
    → ((u : Notifier) → Spaced least (due id u) (later u))
    → Spaced least (due id n) (later m)
kept-Spaced least m n id later e ih = subst (λ o. Spaced least o (later m)) e (ih m)

-- In a history of calls of which none is a recovery or a ClearStaleState of the source, and each stale
-- alert of it has at least the given cooldown (that of the configuration, or that of the preferences
-- where they have one, their minutes being nanoseconds on 64 bits with a sign), every two stale alerts that are sent for the source one after the other are at
-- least the cooldown apart, and so is the first from the last alert before, if the source was stale.
pub alert_times-Spaced :
    (cfg : Config) (id : Text) (cooldown : ℕ) (cs : List Call) (n : Notifier)
    → All (Persists cfg id cooldown) cs
    → Spaced cooldown (due id n) (alert_times cfg id cs n)
unfolding alert_times step send_stale_alert send_stale_alert_with_prefs send_recovery_alert
    send_recovery_alert_with_prefs clear_stale_state
alert_times-Spaced cfg id cooldown [] n h = tt
alert_times-Spaced cfg id cooldown (stale k name email since threshold now ∷ cs) n h =
    stale-Spaced id k (plus cfg.cooldown_period) cooldown now _ n (alert_times cfg id cs) h.0
      (λ m. alert_times-Spaced cfg id cooldown cs m h.1)
alert_times-Spaced cfg id cooldown (stale_with k name email since threshold prefs now ∷ cs) n h =
    stale-Spaced id k (get_cooldown_period cfg prefs) cooldown now _ n (alert_times cfg id cs) h.0
      (λ m. alert_times-Spaced cfg id cooldown cs m h.1)
alert_times-Spaced cfg id cooldown (recovery k name email now ∷ cs) n h =
    kept-Spaced cooldown _ n id (alert_times cfg id cs) (due-recover_other id k h.0 _ n)
      (λ m. alert_times-Spaced cfg id cooldown cs m h.1)
alert_times-Spaced cfg id cooldown (recovery_with k name email prefs now ∷ cs) n h =
    kept-Spaced cooldown _ n id (alert_times cfg id cs) (due-recover_other id k h.0 _ n)
      (λ m. alert_times-Spaced cfg id cooldown cs m h.1)
alert_times-Spaced cfg id cooldown (clear k ∷ cs) n h =
    kept-Spaced cooldown _ n id (alert_times cfg id cs) (due-clear_other id k h.0 n)
      (λ m. alert_times-Spaced cfg id cooldown cs m h.1)
