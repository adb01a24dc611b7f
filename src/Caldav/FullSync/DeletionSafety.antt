-- ===== src/Caldav/FullSync/DeletionSafety.antt =====
-- What the deletion phase of SyncEngine.fullSync does, and on what grounds.
use calbridge.Common.{
  ℕ, ◌+◌, ◌≤◌, ◌≡◌, refl, ◌⊎◌, subst, inl, inr, Text, List, [], ◌∷◌, Option, none, some, false,
  plus, negate, is_after, arith, All, In, Bool-cases, Option-cases,
}
use calbridge.Common.Dict.{Dict, get, delete, get-delete, get-delete_sub, get-delete-none}
use calbridge.Caldav.{Event, SyncedEvent}
use calbridge.Caldav.World.{Env, State, Act, delete_dest, delete_source, forget, progress, failure}
use calbridge.Caldav.FullSync.Deletions.{
  gone_from_source, gone_from_dest, handle_record, handle_records,
}

-- The two events maps at the start, the records that are visited, and the time limits.
pub record Grounds : Type 0 where
  pub interval : ℕ
  pub now : ℕ
  pub records : Dict SyncedEvent
  pub source : Dict Event
  pub dest : Dict Event

-- A record of an earlier sync, of an event that one side has and the other lacks.
pub record GoneFromDest (g : Grounds) (path : Text) : Type 0 where
  pub uid : Text
  pub synced : SyncedEvent
  pub event : Event
  pub recorded : In (uid, synced) g.records
  pub on_source : get uid g.source ≡ some event
  pub not_on_dest : get uid g.dest ≡ none
  pub at_path : event.path ≡ path
  pub old_enough : synced.updated_at + g.interval ≤ g.now

pub record GoneFromSource (g : Grounds) (path : Text) : Type 0 where
  pub uid : Text
  pub synced : SyncedEvent
  pub event : Event
  pub recorded : In (uid, synced) g.records
  pub on_dest : get uid g.dest ≡ some event
  pub not_on_source : get uid g.source ≡ none
  pub at_path : event.path ≡ path

-- What the phase may do.
abbrev pub Justified : Grounds → Act → Type 0
Justified g (delete_source path) = GoneFromDest g path
Justified g (delete_dest path) = GoneFromSource g path
Justified g (forget uid) = Unit
Justified g (progress n) = Unit
Justified g _ = ⊥

module _ (g : Grounds) (P : Act → Type 0) (just : (a : Act) → Justified g a → P a) where
  -- The maps only lose entries, and a UID is never lost on one side while the other keeps it.
  record Inv (source dest : Dict Event) (acts : List Act) : Type 0 where
    source_sub : (u : Text) (e : Event) → get u source ≡ some e → get u g.source ≡ some e
    dest_sub : (u : Text) (e : Event) → get u dest ≡ some e → get u g.dest ≡ some e
    source_lost : (u : Text) → get u source ≡ none → (get u g.source ≡ none) ⊎ (get u dest ≡ none)
    dest_lost : (u : Text) → get u dest ≡ none → (get u g.dest ≡ none) ⊎ (get u source ≡ none)
    justified : All P acts

  abbrev InvAt : State → Type 0
  InvAt s = Inv s.source_map s.dest_map s.acts

  add-Inv :
      {source dest : Dict Event} {acts : List Act} (a : Act)
      → Justified g a
      → Inv source dest acts
      → Inv source dest (a ∷ acts)
  add-Inv a h inv = record {
    source_sub = inv.source_sub;
    dest_sub = inv.dest_sub;
    source_lost = inv.source_lost;
    dest_lost = inv.dest_lost;
    justified = (just a h, inv.justified);
  }

  drop_dest-Inv :
      {acts : List Act} (source dest : Dict Event) (uid : Text)
      → get uid source ≡ none
      → Inv source dest acts
      → Inv source (delete uid dest) acts
  drop_dest-Inv source dest uid gone inv = record {
    source_sub = inv.source_sub;
    dest_sub = λ u e h. inv.dest_sub u e (get-delete_sub uid u e dest h);
    source_lost = λ u h. ground (arith, inv.source_lost u h, get-delete uid u dest);
    dest_lost = λ u h. elim (get-delete-none uid u dest h) [
      | inl e ↦ inr (subst (λ v. get v source ≡ none) e gone)
      | inr e ↦ inv.dest_lost u e
    ];
    justified = inv.justified;
  }

  drop_source-Inv :
      {acts : List Act} (source dest : Dict Event) (uid : Text)
      → get uid dest ≡ none
      → Inv source dest acts
      → Inv (delete uid source) dest acts
  drop_source-Inv source dest uid gone inv = record {
    source_sub = λ u e h. inv.source_sub u e (get-delete_sub uid u e source h);
    dest_sub = inv.dest_sub;
    source_lost = λ u h. elim (get-delete-none uid u source h) [
      | inl e ↦ inr (subst (λ v. get v dest ≡ none) e gone)
      | inr e ↦ inv.source_lost u e
    ];
    dest_lost = λ u h. ground (arith, inv.dest_lost u h, get-delete uid u source);
    justified = inv.justified;
  }

  module _ (env : Env) (uid : Text) (synced : SyncedEvent) (s : State) (inv : InvAt s)
      (recorded : In (uid, synced) g.records) where
    gone_from_source-Inv :
        (d : Event)
        → get uid s.source_map ≡ none
        → get uid s.dest_map ≡ some d
        → InvAt (gone_from_source env uid d s)
    unfolding gone_from_source
    gone_from_source-Inv d es ed = elim (Option-cases (failure env (delete_dest d.path) s)) [
      | inl e ↦
          rw (e, gone_from_source)
            (drop_dest-Inv s.source_map s.dest_map uid es
              (add-Inv (forget uid) tt (add-Inv (progress _) tt deleted)))
      | inr (m, e) ↦
          rw (e, gone_from_source)
            (drop_dest-Inv s.source_map s.dest_map uid es (add-Inv (forget uid) tt deleted))
    ]
      where
        absent : get uid g.source ≡ none
        absent = elim (inv.source_lost uid es) [ inl e ↦ e | inr e ↦ cc ]

        deleted : Inv s.source_map s.dest_map (delete_dest d.path ∷ s.acts)
        deleted =
            add-Inv (delete_dest d.path)
              (record {
                uid = uid;
                synced = synced;
                event = d;
                recorded = recorded;
                on_dest = inv.dest_sub uid d ed;
                not_on_source = absent;
                at_path = refl;
              })
              inv

    gone_from_dest-Inv :
        (e : Event)
        → get uid s.source_map ≡ some e
        → get uid s.dest_map ≡ none
        → InvAt (gone_from_dest env (plus g.interval) g.now uid synced e s)
    unfolding gone_from_dest is_after negate
    gone_from_dest-Inv x es ed =
        elim (Bool-cases (is_after synced.updated_at g.now (negate (plus g.interval)))) [
          | inl young ↦ rw (young, gone_from_dest) inv
          | inr old ↦ elim (Option-cases (failure env (delete_source x.path) s)) [
            | inl e ↦
                rw (old, e, gone_from_dest)
                  (drop_source-Inv s.source_map s.dest_map uid ed
                    (add-Inv (forget uid) tt (add-Inv (progress _) tt (deleted old))))
            | inr (m, e) ↦
                rw (old, e, gone_from_dest)
                  (drop_source-Inv s.source_map s.dest_map uid ed
                    (add-Inv (forget uid) tt (deleted old)))
          ]
        ]
      where
        absent : get uid g.dest ≡ none
        absent = elim (inv.dest_lost uid ed) [ inl e ↦ e | inr e ↦ cc ]

        deleted :
            is_after synced.updated_at g.now (negate (plus g.interval)) ≡ false
            → Inv s.source_map s.dest_map (delete_source x.path ∷ s.acts)
        deleted old =
            add-Inv (delete_source x.path)
              (record {
                uid = uid;
                synced = synced;
                event = x;
                recorded = recorded;
                on_source = inv.source_sub uid x es;
                not_on_dest = absent;
                at_path = refl;
                old_enough = ground arith;
              })
              inv

    handle_record-Inv :
        (o d : Option Event)
        → get uid s.source_map ≡ o
        → get uid s.dest_map ≡ d
        → InvAt (handle_record env (plus g.interval) g.now uid synced o d s)
    unfolding handle_record
    handle_record-Inv none (some d) eo ed = gone_from_source-Inv d eo ed
    handle_record-Inv (some e) none eo ed = gone_from_dest-Inv e eo ed
    handle_record-Inv none none eo ed = add-Inv (forget synced.event_uid) tt inv
    handle_record-Inv (some e) (some d) eo ed = inv

  handle_records-Inv :
      (env : Env) (rest : Dict SyncedEvent) (s : State)
      → ((x : Text × SyncedEvent) → In x rest → In x g.records)
      → InvAt s
      → InvAt (handle_records env (plus g.interval) g.now rest s)
  unfolding handle_records
  handle_records-Inv env [] s sub inv = inv
  handle_records-Inv env ((uid, synced) ∷ rest) s sub inv =
      handle_records-Inv env rest _ (λ x h. sub x (inr h))
        (handle_record-Inv env uid synced s inv (sub (uid, synced) (inl refl)) _ _ refl refl)

  start : (s : State) → s.source_map ≡ g.source → s.dest_map ≡ g.dest → All P s.acts → InvAt s
  start s es ed h = record {
    source_sub = λ u e p. rw (← es) p;
    dest_sub = λ u e p. rw (← ed) p;
    source_lost = λ u p. inl (rw (← es) p);
    dest_lost = λ u p. inl (rw (← ed) p);
    justified = h;
  }

  -- The phase adds nothing to the source's map.
  pub handle_records_sub :
      (env : Env) (s : State)
      → s.source_map ≡ g.source
      → s.dest_map ≡ g.dest
      → All P s.acts
      → (u : Text) (e : Event)
      → get u (handle_records env (plus g.interval) g.now g.records s).source_map ≡ some e
      → get u g.source ≡ some e
  handle_records_sub env s es ed h =
      (handle_records-Inv env g.records s (λ x m. m) (start s es ed h)).source_sub

  -- The deletion phase does only what is justified by an earlier record: on a side it deletes only
  -- an event that the record names, that this side has and that the other side lacks, and on the
  -- source only if the record is at least one interval old; it also deletes records and reports.
  pub handle_records-Justified :
      (env : Env) (s : State)
      → s.source_map ≡ g.source
      → s.dest_map ≡ g.dest
      → All P s.acts
      → All P (handle_records env (plus g.interval) g.now g.records s).acts
  handle_records-Justified env s es ed h =
      (handle_records-Inv env g.records s (λ x m. m) (start s es ed h)).justified
