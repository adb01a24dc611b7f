-- ===== src/Caldav/FullSync/PushActs.antt =====
-- Which acts the writing phases of SyncEngine.fullSync and cleanupDuplicates may make, and what they
-- leave of the source's map.
use calbridge.Common.{
  ◌+◌, ◌≡◌, refl, ◌∙◌, inl, inr, Text, List, [], ◌∷◌, Option, none, some, not, ◌&&◌, arith,
  if◌then◌else◌, ◌==◌, All, In, Before, Bool-cases,
}
use calbridge.Common.Dict.{get}
use calbridge.Activity.{Counts}
use calbridge.Caldav.{Event, dedupe_key, empty_key}
use calbridge.Caldav.Put.{Plan, skip, unparsable, send, plan_put}
use calbridge.Caldav.World.{Env, State, Act, put_dest, progress, update_progress}
use calbridge.Caldav.FullSync.Push.{
  carry_out, put_event, processed, created_one, updated_one, is_dupe, note_uid, create_on_dest,
  update_on_dest, drop_from_dest_map, push_event, push_events,
}

-- What a phase may leave behind: acts of the kind `P` alone, and the source's map as it was.
pub record Within (P : Act → Type 0) (s t : State) : Type 0 where
  pub acts : All P s.acts → All P t.acts
  pub source : t.source_map ≡ s.source_map
  pub keeps : (a : Act) → In a s.acts → In a t.acts
  pub order : (a b : Act) → Before a b s.acts → Before a b t.acts

module _ {P : Act → Type 0} where
  pub Within-refl : (s : State) → Within P s s
  Within-refl s = record { acts = λ h. h; source = refl; keeps = λ b i. i; order = λ c b i. i }

  pub Within-trans : {s t u : State} → Within P s t → Within P t u → Within P s u
  Within-trans a b = record {
    acts = λ h. b.acts (a.acts h);
    source = b.source ∙ a.source;
    keeps = λ x i. b.keeps x (a.keeps x i);
    order = λ c x i. b.order c x (a.order c x i);
  }

module _ (P : Act → Type 0) (p_progress : (n : Counts) → P (progress n)) (env : Env) where
  pub carry_out-Within :
      (act : Text → Act) (e : Event) (plan : Plan) (s : State)
      → ((p : Text) → plan ≡ send p → P (act p))
      → Within P s (carry_out env act e plan s).1
  unfolding carry_out
  carry_out-Within act e skip s h = Within-refl s
  carry_out-Within act e unparsable s h = Within-refl s
  carry_out-Within act e (send path) s h = record {
    acts = λ a. (h path refl, a);
    source = refl;
    keeps = λ b i. inr i;
    order = λ c b i. inr i;
  }

  pub put_event-Within :
      (act : Text → Event → Act) (calendar_path : Text) (e : Event) (s : State)
      → ((p : Text) → plan_put env.parse_ical calendar_path e ≡ send p → P (act p e))
      → Within P s (put_event env act calendar_path e s).1
  unfolding put_event
  put_event-Within act calendar_path e s h = carry_out-Within (λ p. act p e) e _ s h

  pub progress-Within : (s : State) → Within P s (update_progress s)
  progress-Within s = record {
    acts = λ h. (p_progress _, h);
    source = refl;
    keeps = λ b i. inr i;
    order = λ c b i. inr i;
  }

  pub created_one-Within :
      (e : Event) (o : Option Text) (t : State) → Within P t (created_one e o t)
  unfolding created_one
  created_one-Within e none t = record {
    acts = λ h. ground arith;
    source = ground arith;
    keeps = λ b i. ground arith;
    order = λ c b i. ground arith;
  }
  created_one-Within e (some m) t = record {
    acts = λ h. h;
    source = refl;
    keeps = λ b i. i;
    order = λ c b i. i;
  }

  pub updated_one-Within :
      (e : Event) (o : Option Text) (t : State) → Within P t (updated_one e o t)
  unfolding updated_one
  updated_one-Within e none t = record {
    acts = λ h. h;
    source = refl;
    keeps = λ b i. i;
    order = λ c b i. i;
  }
  updated_one-Within e (some m) t = record {
    acts = λ h. h;
    source = refl;
    keeps = λ b i. i;
    order = λ c b i. i;
  }

  pub processed-Within : {s : State} (t : State) → Within P s t → Within P s (processed t)
  processed-Within t w = record {
    acts = λ h. (p_progress _, w.acts h);
    source = w.source;
    keeps = λ b i. inr (w.keeps b i);
    order = λ c b i. inr (w.order c b i);
  }

  module _ (p_put : (p : Text) (e : Event) → P (put_dest p e)) where
    pub create_on_dest-Within :
        (dest_path : Text) (e : Event) (s : State) → Within P s (create_on_dest env dest_path e s)
    unfolding create_on_dest
    create_on_dest-Within dest_path e s =
        let r = put_event env put_dest dest_path e s in
        processed-Within (created_one e r.0 r.1) (
          Within-trans (put_event-Within put_dest dest_path e s (λ p q. p_put p e))
            (created_one-Within e r.0 r.1))

    pub update_on_dest-Within :
        (dest_path : Text) (e d : Event) (s : State)
        → Within P s (update_on_dest env dest_path e d s)
    unfolding update_on_dest
    update_on_dest-Within dest_path e d s =
        let x : Event = record e { path = d.path } in
        let r = put_event env put_dest dest_path x s in
        processed-Within (updated_one e r.0 r.1) (
          Within-trans (put_event-Within put_dest dest_path x s (λ p q. p_put p x))
            (updated_one-Within e r.0 r.1))

    pub drop-Within :
        {s : State} (uid : Text) (t : State) → Within P s t → Within P s (drop_from_dest_map uid t)
    unfolding drop_from_dest_map
    drop-Within uid t w = record {
      acts = w.acts;
      source = w.source;
      keeps = w.keeps;
      order = w.order;
    }

    pub push_event-Within :
        (dest_path : Text) (e : Event) (o : Option Event) (s : State)
        → Within P s (push_event env dest_path e o s)
    unfolding push_event
    push_event-Within dest_path e none s =
        elim (Bool-cases (not (dedupe_key e == empty_key) && is_dupe (dedupe_key e) s.dedupe_map)) [
          | inl h ↦
              rw (h, push_event)
                (processed-Within (record s { skipped = s.skipped + 1 })
                  (record { acts = λ a. a; source = refl; keeps = λ b i. i; order = λ c b i. i }))
          | inr h ↦
              rw (h, push_event)
                (drop-Within e.uid (create_on_dest env dest_path e s)
                  (create_on_dest-Within dest_path e s))
        ]
    push_event-Within dest_path e (some d) s = elim (Bool-cases (not (e.etag == d.etag))) [
      | inl h ↦
          rw (h, push_event)
            (drop-Within e.uid (update_on_dest env dest_path e d s)
              (update_on_dest-Within dest_path e d s))
      | inr h ↦
          rw (h, push_event)
            (drop-Within e.uid (processed (note_uid e.uid s)) (
              unfold note_uid in
              processed-Within (note_uid e.uid s)
                (record { acts = λ a. a; source = refl; keeps = λ b i. i; order = λ c b i. i })))
    ]

    pub push_events-Within :
        (dest_path : Text) (es : List Event) (s : State)
        → Within P s (push_events env dest_path es s)
    unfolding push_events
    push_events-Within dest_path [] s = Within-refl s
    push_events-Within dest_path (e ∷ es) s = Within-trans first (push_events-Within dest_path es _)
      where
        first :
            Within P s
              (if e.uid == [] then s else push_event env dest_path e (get e.uid s.dest_map) s)
        first = elim (Bool-cases (e.uid == [])) [
          | inl h ↦ rw h (Within-refl s)
          | inr h ↦ rw h (push_event-Within dest_path e (get e.uid s.dest_map) s)
        ]
