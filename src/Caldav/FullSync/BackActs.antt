-- ===== src/Caldav/FullSync/BackActs.antt =====
-- Which acts the loop back of SyncEngine.fullSync may make, and what it leaves of the source's map.
use calbridge.Common.{
  ◌≡◌, refl, ◌∙◌, inl, inr, Text, List, [], ◌∷◌, Option, none, some, true, false, arith,
  if◌then◌else◌, ◌==◌, In, Bool-cases,
}
use calbridge.Common.Dict.{Dict, get}
use calbridge.Activity.{Counts}
use calbridge.Caldav.{Event, Source, SyncDirection, is_dest_wins, is_two_way}
use calbridge.Caldav.Put.{send, plan_put}
use calbridge.Caldav.World.{Env, State, Act, put_source, progress}
use calbridge.Caldav.FullSync.Push.{
  put_event, written_back, write_back, write_back_events, two_way_back,
}
use calbridge.Caldav.FullSync.PushActs.{
  Within, Within-refl, Within-trans, put_event-Within, progress-Within,
}

module _ (P : Act → Type 0) (p_progress : (n : Counts) → P (progress n)) (env : Env) where
  pub written_back-Within : (o : Option Text) (t : State) → Within P t (written_back o t)
  unfolding written_back
  written_back-Within none t = record {
    acts = λ h. h;
    source = refl;
    keeps = λ b i. i;
    order = λ c b i. i;
  }
  written_back-Within (some m) t = record {
    acts = λ h. ground arith;
    source = ground arith;
    keeps = λ b i. ground arith;
    order = λ c b i. ground arith;
  }

  -- What the loop back to the source may write: a destination event whose UID the source has too,
  -- under another ETag, to the path that it has on the source, if the destination wins.
  abbrev pub PutsBack : Source → Text → Dict Event → Event → Type 0
  PutsBack source source_path source_map d =
      (e : Event)
      → get d.uid source_map ≡ some e
      → (d.etag == e.etag) ≡ false
      → is_dest_wins source.conflict_strategy ≡ true
      → (p : Text) → plan_put env.parse_ical source_path (record d { path = e.path }) ≡ send p
      → P (put_source p (record d { path = e.path }))

  pub write_back-Within :
      (source : Source) (source_path : Text) (d : Event) (o : Option Event) (s : State)
      → get d.uid s.source_map ≡ o
      → PutsBack source source_path s.source_map d
      → Within P s (write_back env source source_path d o s)
  unfolding write_back
  write_back-Within source source_path d none s eo h = Within-refl s
  write_back-Within source source_path d (some e) s eo h = elim (Bool-cases (d.etag == e.etag)) [
    | inl same ↦ rw (same, write_back) (Within-refl s)
    | inr other ↦ elim (Bool-cases (is_dest_wins source.conflict_strategy)) [
      | inl wins ↦
          let x : Event = record d { path = e.path } in
          let r = put_event env put_source source_path x s in
          rw (other, wins, write_back)
            (Within-trans
              (Within-trans
                (put_event-Within P p_progress env put_source source_path x s (h e eo other wins))
                (written_back-Within r.0 r.1))
              (progress-Within P p_progress env (written_back r.0 r.1)))
      | inr loses ↦ rw (other, loses, write_back) (progress-Within P p_progress env s)
    ]
  ]

  pub write_back_events-Within :
      (source : Source) (source_path : Text) (ds : List Event) (s : State) (m : Dict Event)
      → s.source_map ≡ m
      → ((d : Event) → In d ds → PutsBack source source_path m d)
      → Within P s (write_back_events env source source_path ds s)
  unfolding write_back_events
  write_back_events-Within source source_path [] s m em h = Within-refl s
  write_back_events-Within source source_path (d ∷ ds) s m em h =
      Within-trans first (
        write_back_events-Within source source_path ds _ m (first.source ∙ em) (λ x i. h x (inr i)))
    where
      first : Within P s (
          if d.uid == [] then s else write_back env source source_path d (get d.uid s.source_map) s)
      first = elim (Bool-cases (d.uid == [])) [
        | inl e ↦ rw e (Within-refl s)
        | inr e ↦ rw e (
            write_back-Within source source_path d (get d.uid s.source_map) s refl
              (rw em (h d (inl refl))))
      ]

  pub two_way_back-Within :
      (source : Source) (direction : SyncDirection) (source_path : Text) (ds : List Event)
      (s : State)
      → (is_two_way direction ≡ true
          → (d : Event) → In d ds
          → PutsBack source source_path s.source_map d)
      → Within P s (two_way_back env source direction source_path ds s)
  unfolding two_way_back
  two_way_back-Within source direction source_path ds s h =
      elim (Bool-cases (is_two_way direction)) [
        | inl e ↦ rw e (write_back_events-Within source source_path ds s s.source_map refl (h e))
        | inr e ↦ rw e (Within-refl s)
      ]
