-- ===== src/Caldav/FullSync/Conflicts.antt =====
-- Inputs on which SyncEngine.fullSync does not do what it means to: events that both sides changed,
-- events deleted on the destination, and duplicates by content in a one-way sync.
use calbridge.Common.{
  ℕ, ◌+◌, ◌*◌, ◌≤◌, ◌≡◌, refl, sym, subst, inl, inr, Text, List, [], ◌∷◌, none, some, true, false,
  plus, negate, is_after, wrapped_small, ◌<◌, ◌^◌, arith, ◌==◌, ==_sym, In, Before, Option-cases,
}
use calbridge.Common.Dict.{Dict, get}
use calbridge.Caldav.{
  Event, Calendar, Source, SyncedEvent, SyncDirection, dedupe_key, is_dest_wins, is_two_way, second,
  sync_direction_for_calendar,
}
use calbridge.Caldav.Put.{send, plan_put}
use calbridge.Caldav.World.{Env, State, Act, delete_source, put_dest, put_source, failure}
use calbridge.Caldav.FullSync.{Inputs, compared, synchronise, index_by_uid, dedupe_keys}
use calbridge.Caldav.FullSync.Deletions.{
  handle_deletions, handle_records, handle_record, gone_from_dest, is_empty,
}
use calbridge.Caldav.FullSync.Push.{is_dupe, push_events, two_way_back, one_way_orphans}
use calbridge.Caldav.FullSync.Duplicates.{cleanup_duplicates}
use calbridge.Caldav.FullSync.DeletionFrame.{Frame, handle_deletions-Frame, handle_records-Frame}
use calbridge.Caldav.FullSync.PushActs.{push_events-Within}
use calbridge.Caldav.FullSync.CleanActs.{
  one_way_orphans-Within, cleanup_duplicates-Within, remember_uids-Within,
}
use calbridge.Caldav.FullSync.BackActs.{two_way_back-Within}
use calbridge.Caldav.FullSync.Sends.{Any, updated-In, created-Before, back-Before}

module _ (env : Env) (source : Source) (calendar : Calendar) (i : Inputs) where
  abbrev direction : SyncDirection
  direction = sync_direction_for_calendar source calendar.path

  abbrev deleted : State
  deleted = handle_deletions env source direction i.previously (compared i)

  abbrev pushed : State
  pushed = push_events env i.dest_path i.source_events deleted

  -- What is done by the end of the loop back is done by the whole sync, in that order.
  finished-Before :
      (c a : Act)
      → Before c a (two_way_back env source direction calendar.path i.dest_events pushed).acts
      → Before c a (synchronise env source calendar i).acts
  unfolding synchronise
  finished-Before c a h =
      let s₄ = two_way_back env source direction calendar.path i.dest_events pushed in
      let s₅ = one_way_orphans env source direction s₄ in
      let s₆ = cleanup_duplicates env i.dest_path s₅ in
      (remember_uids-Within Any (λ n. tt) env (λ u. tt) (env.visit_uids s₆.current_uids) s₆).order c
        a
        ((cleanup_duplicates-Within Any (λ n. tt) env (λ p. tt) i.dest_path s₅).order c a
          ((one_way_orphans-Within Any (λ n. tt) env (λ p. tt) source direction s₄).order c a h))

  -- What is done by the end of the loop to the destination is done by the whole sync, in that order.
  pushed-Before :
      (c a : Act) → Before c a pushed.acts → Before c a (synchronise env source calendar i).acts
  unfolding synchronise
  pushed-Before c a h = finished-Before c a (
      (two_way_back-Within Any (λ n. tt) env source direction calendar.path i.dest_events pushed
          (λ x d l e k r w p q. tt)).order
        c a h)

  back-synchronise-Before :
      (c a : Act)
      → In c pushed.acts
      → ((s : State)
          → s.source_map ≡ deleted.source_map
          → In c s.acts
          → Before c a (two_way_back env source direction calendar.path i.dest_events s).acts)
      → Before c a (synchronise env source calendar i).acts
  back-synchronise-Before c a here h =
      let w₃ =
        push_events-Within Any (λ n. tt) env (λ p y. tt) i.dest_path i.source_events deleted in
      finished-Before c a (h pushed w₃.source here)

-- In a two-way calendar under dest_wins, an event that both sides have under one UID and different
-- ETags is exchanged: when the source's listing begins with it, one sync first sends the source's version
-- over the destination's, and later the destination's earlier version over the source's.
-- Assumed: the UID is not empty, each side's list has the event as the last of its UID, and both
-- versions can be sent.
pub synchronise_exchanges :
    (env : Env) (source : Source) (calendar : Calendar) (i : Inputs) (e d : Event) (es : List Event)
    (p q : Text)
    → is_two_way (sync_direction_for_calendar source calendar.path) ≡ true
    → is_dest_wins source.conflict_strategy ≡ true
    → i.source_events ≡ e ∷ es
    → In d i.dest_events
    → e.uid ≡ d.uid
    → (e.uid == []) ≡ false
    → (e.etag == d.etag) ≡ false
    → get e.uid (index_by_uid i.source_events []) ≡ some e
    → get e.uid (index_by_uid i.dest_events []) ≡ some d
    → plan_put env.parse_ical i.dest_path (record e { path = d.path }) ≡ send p
    → plan_put env.parse_ical calendar.path (record d { path = e.path }) ≡ send q
    → let acts = (synchronise env source calendar i).acts in
      Before
        (put_dest p (record e { path = d.path }))
        (put_source q (record d { path = e.path }))
        acts
synchronise_exchanges env source calendar i e d es p q two wins first l same named other on_source
      on_dest plan plan' =
    back-synchronise-Before env source calendar i sent _ there back
  where
    dir : SyncDirection
    dir = sync_direction_for_calendar source calendar.path

    s₂ : State
    s₂ = handle_deletions env source dir i.previously (compared i)

    kept : (get e.uid s₂.source_map ≡ some e) × (get e.uid s₂.dest_map ≡ some d)
    kept =
        (handle_deletions-Frame env source dir i.previously (compared i)).both e.uid e d
          (unfold compared in on_source) (unfold compared in on_dest)

    sent : Act
    sent = put_dest p (record e { path = d.path })

    there : In sent (push_events env i.dest_path i.source_events s₂).acts
    there =
        subst (λ xs. In sent (push_events env i.dest_path xs s₂).acts) (sym first)
          (updated-In env i.dest_path p e d es s₂ named kept.1 other plan)

    back :
        (s : State)
        → s.source_map ≡ s₂.source_map
        → In sent s.acts
        → Before sent
            (put_source q (record d { path = e.path }))
            (two_way_back env source dir calendar.path i.dest_events s).acts
    back s h here =
        unfold two_way_back in
        rw two (
          back-Before env sent source calendar.path q d e i.dest_events s here wins l
            (rw (← same) named) (rw (← same, h) kept.0) (rw (==_sym d.etag e.etag) other) plan')

module _ (env : Env) (interval now : ℕ) where
  -- The first record visited is old enough, its event is on the source and not on the destination:
  -- the event is deleted on the source, and the phase leaves it absent from the destination's map.
  first_record :
      (uid : Text) (r : SyncedEvent) (e : Event) (rest : Dict SyncedEvent) (s : State)
      → get uid s.source_map ≡ some e
      → get uid s.dest_map ≡ none
      → r.updated_at + interval ≤ now
      → In (delete_source e.path) (handle_records env (plus interval) now ((uid, r) ∷ rest) s).acts
  unfolding handle_records
  first_record uid r e rest s at gone old =
      let t =
        handle_record env (plus interval) now uid r (get uid s.source_map) (get uid s.dest_map) s in
      (handle_records-Frame env (plus interval) now rest t).keeps (delete_source e.path) done
    where
      young : is_after r.updated_at now (negate (plus interval)) ≡ false
      young = unfold is_after negate in ground arith

      done :
          In
            (delete_source e.path)
            (handle_record env
              (plus interval)
              now
              uid
              r
              (get uid s.source_map)
              (get uid s.dest_map)
              s).acts
      done =
          rw (at, gone)
            (unfold handle_record in
              elim (Option-cases (failure env (delete_source e.path) s)) [
                | inl h ↦ rw (young, h, gone_from_dest) (inr (inr (inl refl)))
                | inr (m, h) ↦ rw (young, h, gone_from_dest) (inr (inl refl))
              ])

-- In a two-way calendar an event that was deleted on the destination is deleted on the source and
-- then, later in the same sync, sent to the destination to create it there: when the event heads the
-- source's listing and its record is the first visited, the sync makes both requests in this order.
-- Assumed: the record is at least one sync interval (of less than 2 ^ 63 ns) old, the destination listed another event with a
-- UID and none with the event's UID or content key, the event has a UID and can be sent.
pub synchronise_recreates :
    (env : Env) (source : Source) (calendar : Calendar) (i : Inputs) (e : Event) (es : List Event)
    (r : SyncedEvent) (rest : Dict SyncedEvent) (p : Text)
    → is_two_way (sync_direction_for_calendar source calendar.path) ≡ true
    → i.source_events ≡ e ∷ es
    → env.visit_synced i.previously ≡ (e.uid, r) ∷ rest
    → (e.uid == []) ≡ false
    → get e.uid (index_by_uid i.source_events []) ≡ some e
    → get e.uid (index_by_uid i.dest_events []) ≡ none
    → is_empty (index_by_uid i.dest_events []) ≡ false
    → is_dupe (dedupe_key e) (dedupe_keys i.dest_events []) ≡ false
    → source.sync_interval * second < 2 ^ 63
    → r.updated_at + source.sync_interval * second ≤ env.now (compared i).acts
    → plan_put env.parse_ical i.dest_path e ≡ send p
    → let acts = (synchronise env source calendar i).acts in
      Before (delete_source e.path) (put_dest p e) acts
synchronise_recreates env source calendar i e es r rest p two first visited named on_source gone
      other fresh fits old plan =
    pushed-Before env source calendar i (delete_source e.path) (put_dest p e) (
      subst
        (λ xs.
          Before (delete_source e.path) (put_dest p e) (push_events env i.dest_path xs s₂).acts)
        (sym first)
        (created-Before env (delete_source e.path) i.dest_path p e es s₂ deleted_there named
          (frame.no_dest e.uid (unfold compared in gone)) (rw frame.keys (unfold compared in fresh))
          plan))
  where
    dir : SyncDirection
    dir = sync_direction_for_calendar source calendar.path

    s₂ : State
    s₂ = handle_deletions env source dir i.previously (compared i)

    frame : Frame (compared i) s₂
    frame = handle_deletions-Frame env source dir i.previously (compared i)

    deleted_there : In (delete_source e.path) s₂.acts
    deleted_there =
        unfold handle_deletions compared in
        rw (two, other, wrapped_small (source.sync_interval * second) fits, visited)
          (first_record env (source.sync_interval * second) (env.now (compared i).acts) e.uid r e
            rest (compared i) on_source gone old)
