-- ===== src/Caldav/FullSync/Orphans.antt =====
-- Duplicates by content in a one-way sync of SyncEngine.fullSync: skipped, and then deleted.
use mathlib.Core.Path.{ap₂}
use calbridge.Common.{
  ◌≡◌, refl, ap, sym, subst, ◌∙◌, inl, Text, [], ◌∷◌, none, true, false, arith, ◌==◌, ==_refl, All,
  In,
}
use calbridge.Common.Dict.{get, put}
use calbridge.Caldav.{
  Event, Calendar, Source, SyncDirection, dedupe_key, empty_key, is_source_wins, is_one_way,
  is_two_way, sync_direction_for_calendar,
}
use calbridge.Caldav.World.{Env, State, Act, delete_dest, put_dest, after, failure}
use calbridge.Caldav.FullSync.{Inputs, compared, synchronise, index_by_uid, dedupe_keys}
use calbridge.Caldav.FullSync.Deletions.{handle_deletions}
use calbridge.Caldav.FullSync.Push.{
  is_dupe, push_events, push_event, skip_duplicate, two_way_back, one_way_orphans, delete_orphans,
}
use calbridge.Caldav.FullSync.Duplicates.{cleanup_duplicates}
use calbridge.Caldav.FullSync.CleanActs.{
  one_way_orphans-Within, orphan_deleted-Within, cleanup_duplicates-Within, remember_uids-Within,
}
use calbridge.Caldav.FullSync.Sends.{Any}

-- Nothing was sent to the destination.
abbrev pub NotSent : Act → Type 0
NotSent (put_dest p e) = ⊥
NotSent _ = Unit

module _ (env : Env) where
  one_skipped :
      (dest_path : Text) (e : Event) (s : State)
      → (e.uid == []) ≡ false
      → get e.uid s.dest_map ≡ none
      → (dedupe_key e == empty_key) ≡ false
      → is_dupe (dedupe_key e) s.dedupe_map ≡ true
      → push_events env dest_path (e ∷ []) s ≡ skip_duplicate s
  unfolding push_events
  one_skipped dest_path e s u gone key dupe = rw (u, gone) (unfold push_event in rw (key, dupe))

  orphan-In :
      (source : Source) (direction : SyncDirection) (d : Event) (s : State)
      → is_one_way direction ≡ true
      → is_source_wins source.conflict_strategy ≡ true
      → env.visit_events s.dest_map ≡ (d.uid, d) ∷ []
      → In (delete_dest d.path) (one_way_orphans env source direction s).acts
  unfolding one_way_orphans
  orphan-In source direction d s one wins visited =
      rw (one, wins, visited)
        (unfold delete_orphans in
          (orphan_deleted-Within Any (λ n. tt) env (λ p. tt) (failure env (delete_dest d.path) s)
              (after (delete_dest d.path) s)).keeps
            (delete_dest d.path) (inl refl))

-- In a one-way calendar under source_wins, where the source lists one event and the destination one
-- with the same summary and start time under another UID, the sync deletes the destination's event
-- as an orphan and sends nothing there: the destination is left without the event.
-- Assumed: both have UIDs, the key is not empty, ranging over a map with one entry visits it, and
-- nothing was sent before the comparison.
pub synchronise_loses_duplicate :
    (env : Env) (source : Source) (calendar : Calendar) (i : Inputs) (e d : Event)
    → is_one_way (sync_direction_for_calendar source calendar.path) ≡ true
    → is_two_way (sync_direction_for_calendar source calendar.path) ≡ false
    → is_source_wins source.conflict_strategy ≡ true
    → i.source_events ≡ e ∷ []
    → i.dest_events ≡ d ∷ []
    → (e.uid == []) ≡ false
    → (d.uid == []) ≡ false
    → (d.uid == e.uid) ≡ false
    → dedupe_key e ≡ dedupe_key d
    → (dedupe_key d == empty_key) ≡ false
    → env.visit_events ((d.uid, d) ∷ []) ≡ (d.uid, d) ∷ []
    → All NotSent i.so_far.acts
    → let acts = (synchronise env source calendar i).acts in
      In (delete_dest d.path) acts × All NotSent acts
unfolding synchronise
synchronise_loses_duplicate env source calendar i e d one two wins src dst ue ud other key filled
      visited before =
    (
      (remember_uids-Within Any (λ n. tt) env (λ u. tt) (env.visit_uids s₆.current_uids) s₆).keeps _
          ((cleanup_duplicates-Within Any (λ n. tt) env (λ p. tt) i.dest_path s₅).keeps _
            (orphan-In env source dir d s₄ one wins reached)),
      (remember_uids-Within NotSent (λ n. tt) env (λ u. tt) (env.visit_uids s₆.current_uids)
            s₆).acts
          ((cleanup_duplicates-Within NotSent (λ n. tt) env (λ p. tt) i.dest_path s₅).acts
            ((one_way_orphans-Within NotSent (λ n. tt) env (λ p. tt) source dir s₄).acts unsent)),
    )
  where
    dir : SyncDirection
    dir = sync_direction_for_calendar source calendar.path

    s₂ : State
    s₂ = handle_deletions env source dir i.previously (compared i)

    s₃ : State
    s₃ = push_events env i.dest_path i.source_events s₂

    s₄ : State
    s₄ = two_way_back env source dir calendar.path i.dest_events s₃

    s₅ : State
    s₅ = one_way_orphans env source dir s₄

    s₆ : State
    s₆ = cleanup_duplicates env i.dest_path s₅

    listed : index_by_uid i.dest_events [] ≡ (d.uid, d) ∷ []
    listed = rw dst (unfold index_by_uid put in rw ud)

    there : get e.uid (index_by_uid i.dest_events []) ≡ none
    there = rw listed (unfold get in rw other)

    dupe : is_dupe (dedupe_key e) (dedupe_keys i.dest_events []) ≡ true
    dupe =
        rw (dst, key)
          (unfold dedupe_keys put in
            rw filled (unfold is_dupe get in ground (arith, ==_refl (dedupe_key d))))

    filled' : (dedupe_key e == empty_key) ≡ false
    filled' = rw key filled

    at₂ : s₂ ≡ compared i
    at₂ = unfold handle_deletions in rw two

    at₃ : s₃ ≡ skip_duplicate (compared i)
    at₃ =
        ap₂ (push_events env i.dest_path) src at₂
        ∙ one_skipped env i.dest_path e (compared i) ue (unfold compared in there) filled'
            (unfold compared in dupe)

    one_way_back : s₄ ≡ s₃
    one_way_back = unfold two_way_back in rw two

    at₄ : s₄ ≡ skip_duplicate (compared i)
    at₄ = one_way_back ∙ at₃

    reached : env.visit_events s₄.dest_map ≡ (d.uid, d) ∷ []
    reached =
        ap (λ s. env.visit_events s.dest_map) at₄
        ∙ (unfold skip_duplicate compared in (ap env.visit_events listed ∙ visited))

    unsent : All NotSent s₄.acts
    unsent =
        subst (λ s. All NotSent s.acts) (sym at₄)
          (unfold skip_duplicate compared in (tt, (tt, before)))
