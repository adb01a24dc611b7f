-- ===== src/Caldav/FullSync/DeletionFrame.antt =====
-- What the deletion phase of SyncEngine.fullSync leaves as it was.
use calbridge.Common.{
  ℕ, ◌*◌, ◌≡◌, refl, ◌∙◌, inl, inr, Text, [], ◌∷◌, Option, none, some, not, ◌&&◌, Duration, wrapped,
  negate, is_after, arith, ==_iff, In, Bool-cases,
}
use calbridge.Common.Dict.{Dict, get, delete, get-delete}
use calbridge.Caldav.{Event, Source, SyncDirection, SyncedEvent, is_two_way, second}
use calbridge.Caldav.World.{
  Env, State, Act, delete_dest, delete_source, forget, after, failure, warn, Warning,
  dest_delete_failed, source_delete_failed,
}
use calbridge.Caldav.FullSync.Deletions.{
  count_deletion, gone_from_source, gone_from_dest, handle_record, handle_records, handle_deletions,
  is_empty,
}

-- The state may gain acts, and lose entries of the two maps, but not the entry of a UID that both
-- maps have; the keys of the destination's events stay.
pub record Frame (s t : State) : Type 0 where
  pub keeps : (a : Act) → In a s.acts → In a t.acts
  pub keys : t.dedupe_map ≡ s.dedupe_map
  pub no_dest : (u : Text) → get u s.dest_map ≡ none → get u t.dest_map ≡ none
  pub both :
      (u : Text) (e d : Event)
      → get u s.source_map ≡ some e
      → get u s.dest_map ≡ some d
      → (get u t.source_map ≡ some e) × (get u t.dest_map ≡ some d)

Frame-refl : (s : State) → Frame s s
Frame-refl s = record {
  keeps = λ a h. h;
  keys = refl;
  no_dest = λ u h. h;
  both = λ u e d x y. (x, y);
}

Frame-trans : {s t v : State} → Frame s t → Frame t v → Frame s v
Frame-trans f g = record {
  keeps = λ a h. g.keeps a (f.keeps a h);
  keys = g.keys ∙ f.keys;
  no_dest = λ u h. g.no_dest u (f.no_dest u h);
  both = λ u e d x y. let b = f.both u e d x y in g.both u e d b.0 b.1;
}

count_deletion-Frame :
    (w : Text → Warning) (o : Option Text) (s : State)
    → Frame s (count_deletion (λ m. warn (w m)) o s)
unfolding count_deletion
count_deletion-Frame w none s = record {
  keeps = λ a h. inr h;
  keys = refl;
  no_dest = λ u h. h;
  both = λ u e d x y. (x, y);
}
count_deletion-Frame w (some m) s = record {
  keeps = λ a h. h;
  keys = refl;
  no_dest = λ u h. h;
  both = λ u e d x y. (x, y);
}

act-Frame : (a : Act) (s : State) → Frame s (after a s)
act-Frame a s = record {
  keeps = λ b h. inr h;
  keys = refl;
  no_dest = λ u h. h;
  both = λ u e d x y. (x, y);
}

drop_dest-Frame :
    (uid : Text) (s : State)
    → get uid s.source_map ≡ none
    → Frame s (record s { dest_map = delete uid s.dest_map })
drop_dest-Frame uid s gone = record {
  keeps = λ a h. h;
  keys = refl;
  no_dest = λ u h. ground (arith, get-delete uid u s.dest_map);
  both = λ u e d x y. (x, ground (arith, get-delete uid u s.dest_map, ==_iff uid u));
}

drop_source-Frame :
    (uid : Text) (s : State)
    → get uid s.dest_map ≡ none
    → Frame s (record s { source_map = delete uid s.source_map })
drop_source-Frame uid s gone = record {
  keeps = λ a h. h;
  keys = refl;
  no_dest = λ u h. h;
  both = λ u e d x y. (ground (arith, get-delete uid u s.source_map, ==_iff uid u), y);
}

module _ (env : Env) (interval : Duration) (now : ℕ) where
  -- A deletion call, its count or warning, and the record's removal.
  deleted-Frame :
      (w : Text → Warning) (o : Option Text) (a : Act) (uid : Text) (s : State)
      → Frame s (after (forget uid) (count_deletion (λ m. warn (w m)) o (after a s)))
  deleted-Frame w o a uid s =
      Frame-trans (act-Frame a s)
        (Frame-trans (count_deletion-Frame w o (after a s)) (act-Frame (forget uid) _))

  gone_from_source-Frame :
      (uid : Text) (d : Event) (s : State)
      → get uid s.source_map ≡ none
      → Frame s (gone_from_source env uid d s)
  unfolding gone_from_source
  gone_from_source-Frame uid d s gone = through (failure env (delete_dest d.path) s)
    where
      t : Option Text → State
      t o =
          after (forget uid)
            (count_deletion (λ m. warn (dest_delete_failed m)) o (after (delete_dest d.path) s))

      through : (o : Option Text) → Frame s (record (t o) { dest_map = delete uid (t o).dest_map })
      through none =
          Frame-trans (deleted-Frame dest_delete_failed none (delete_dest d.path) uid s)
            (drop_dest-Frame uid (t none) gone)
      through (some m) =
          Frame-trans (deleted-Frame dest_delete_failed (some m) (delete_dest d.path) uid s)
            (drop_dest-Frame uid (t (some m)) gone)

  -- The deletion on the source, once the record is old enough.
  old_gone-Frame :
      (uid : Text) (e : Event) (s : State)
      → get uid s.dest_map ≡ none
      → (o : Option Text)
      → let t = after (forget uid) (
          count_deletion (λ m. warn (source_delete_failed m)) o (after (delete_source e.path) s)) in
        Frame s (record t { source_map = delete uid t.source_map })
  unfolding count_deletion
  old_gone-Frame uid e s gone none =
      Frame-trans (deleted-Frame source_delete_failed none (delete_source e.path) uid s)
        (drop_source-Frame uid _ gone)
  old_gone-Frame uid e s gone (some m) =
      Frame-trans (deleted-Frame source_delete_failed (some m) (delete_source e.path) uid s)
        (drop_source-Frame uid _ gone)

  gone_from_dest-Frame :
      (uid : Text) (r : SyncedEvent) (e : Event) (s : State)
      → get uid s.dest_map ≡ none
      → Frame s (gone_from_dest env interval now uid r e s)
  unfolding gone_from_dest
  gone_from_dest-Frame uid r e s gone =
      elim (Bool-cases (is_after r.updated_at now (negate interval))) [
        | inl young ↦ rw (young, gone_from_dest) (Frame-refl s)
        | inr old ↦
            rw (old, gone_from_dest)
              (old_gone-Frame uid e s gone (failure env (delete_source e.path) s))
      ]

  handle_record-Frame :
      (uid : Text) (r : SyncedEvent) (o d : Option Event) (s : State)
      → get uid s.source_map ≡ o
      → get uid s.dest_map ≡ d
      → Frame s (handle_record env interval now uid r o d s)
  unfolding handle_record
  handle_record-Frame uid r none (some d) s eo ed = gone_from_source-Frame uid d s eo
  handle_record-Frame uid r (some e) none s eo ed = gone_from_dest-Frame uid r e s ed
  handle_record-Frame uid r none none s eo ed = act-Frame (forget r.event_uid) s
  handle_record-Frame uid r (some e) (some d) s eo ed = Frame-refl s

  pub handle_records-Frame :
      (rest : Dict SyncedEvent) (s : State) → Frame s (handle_records env interval now rest s)
  unfolding handle_records
  handle_records-Frame [] s = Frame-refl s
  handle_records-Frame ((uid, r) ∷ rest) s =
      Frame-trans (handle_record-Frame uid r _ _ s refl refl) (handle_records-Frame rest _)

pub handle_deletions-Frame :
    (env : Env) (source : Source) (direction : SyncDirection) (previously : Dict SyncedEvent)
    (s : State)
    → Frame s (handle_deletions env source direction previously s)
unfolding handle_deletions
handle_deletions-Frame env source direction previously s =
    elim (Bool-cases (
      is_two_way direction
      && not (is_two_way direction && (is_empty s.dest_map && not (is_empty previously))))) [
        | inl e ↦ rw e (
            handle_records-Frame env (wrapped (source.sync_interval * second)) (env.now s.acts)
              (env.visit_synced previously) s)
        | inr e ↦ rw e (Frame-refl s)
      ]
