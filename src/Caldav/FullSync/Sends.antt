-- ===== src/Caldav/FullSync/Sends.antt =====
-- Calls that the loops of SyncEngine.fullSync are certain to make.
use calbridge.Common.{
  ◌≡◌, refl, ap, subst, ◌∙◌, inl, inr, Text, List, [], ◌∷◌, none, some, true, false, not, ◌&&◌,
  arith, if◌then◌else◌, ◌==◌, In, Before, Bool-cases,
}
use calbridge.Common.Dict.{get}
use calbridge.Caldav.{Event, Source, dedupe_key, empty_key, is_dest_wins}
use calbridge.Caldav.Put.{send, plan_put}
use calbridge.Caldav.World.{Env, State, Act, put_dest, put_source, after, failure}
use calbridge.Caldav.FullSync.Push.{
  carry_out, put_event, created_one, updated_one, written_back, is_dupe, create_on_dest,
  update_on_dest, push_event, push_events, write_back, write_back_events, drop_from_dest_map,
}
use calbridge.Caldav.FullSync.PushActs.{
  Within, push_events-Within, created_one-Within, updated_one-Within, processed-Within,
  progress-Within, Within-refl,
}
use calbridge.Caldav.FullSync.BackActs.{
  write_back-Within, write_back_events-Within, written_back-Within,
}

-- Every act will do.
abbrev pub Any : Act → Type 0
Any a = Unit

module _ (env : Env) where
  -- An event that the destination has under the same UID and another ETag is sent there.
  pub updated-In :
      (dest_path p : Text) (e d : Event) (es : List Event) (s : State)
      → (e.uid == []) ≡ false
      → get e.uid s.dest_map ≡ some d
      → (e.etag == d.etag) ≡ false
      → plan_put env.parse_ical dest_path (record e { path = d.path }) ≡ send p
      → In (put_dest p (record e { path = d.path })) (push_events env dest_path (e ∷ es) s).acts
  unfolding push_events
  updated-In dest_path p e d es s u at other plan =
      (push_events-Within Any (λ n. tt) env (λ q y. tt) dest_path es _).keeps a first
    where
      x : Event
      x = record e { path = d.path }

      a : Act
      a = put_dest p x

      t : State
      t = updated_one e (failure env a s) (after a s)

      sent : In a (update_on_dest env dest_path e d s).acts
      sent =
          unfold update_on_dest put_event in
          rw (plan, carry_out)
            ((processed-Within Any (λ n. tt) env t (Within-refl t)).keeps a (
              (updated_one-Within Any (λ n. tt) env e (failure env a s) (after a s)).keeps a
                (inl refl)))

      first :
          In a (if e.uid == [] then s else push_event env dest_path e (get e.uid s.dest_map) s).acts
      first = rw (u, at) (unfold push_event drop_from_dest_map in rw (other, push_event) sent)

  -- An event that the destination has neither by UID nor by content is sent there, after all that was
  -- done before the loop.
  pub created-Before :
      (c : Act) (dest_path p : Text) (e : Event) (es : List Event) (s : State)
      → In c s.acts
      → (e.uid == []) ≡ false
      → get e.uid s.dest_map ≡ none
      → is_dupe (dedupe_key e) s.dedupe_map ≡ false
      → plan_put env.parse_ical dest_path e ≡ send p
      → Before c (put_dest p e) (push_events env dest_path (e ∷ es) s).acts
  unfolding push_events
  created-Before c dest_path p e es s here u at fresh plan =
      (push_events-Within Any (λ n. tt) env (λ q y. tt) dest_path es _).order c a first
    where
      a : Act
      a = put_dest p e

      t : State
      t = created_one e (failure env a s) (after a s)

      sent : Before c a (create_on_dest env dest_path e s).acts
      sent =
          unfold create_on_dest put_event in
          rw (plan, carry_out)
            ((processed-Within Any (λ n. tt) env t (Within-refl t)).order c a (
              (created_one-Within Any (λ n. tt) env e (failure env a s) (after a s)).order c a
                (inl (refl, here))))

      new : (not (dedupe_key e == empty_key) && is_dupe (dedupe_key e) s.dedupe_map) ≡ false
      new = ground (arith, fresh)

      first :
          Before c a
            (if e.uid == [] then s else push_event env dest_path e (get e.uid s.dest_map) s).acts
      first = rw (u, at) (unfold push_event drop_from_dest_map in rw (new, push_event) sent)

  -- In the loop back, an event that the source has under another ETag is sent there,
  -- after all that was done before the loop.
  pub back-Before :
      (c : Act) (source : Source) (source_path q : Text) (d e : Event) (ds : List Event) (s : State)
      → In c s.acts
      → is_dest_wins source.conflict_strategy ≡ true
      → In d ds
      → (d.uid == []) ≡ false
      → get d.uid s.source_map ≡ some e
      → (d.etag == e.etag) ≡ false
      → plan_put env.parse_ical source_path (record d { path = e.path }) ≡ send q
      → Before c
          (put_source q (record d { path = e.path }))
          (write_back_events env source source_path ds s).acts
  unfolding write_back_events
  back-Before c source source_path q d e [] s here wins l u at other plan = absurd l
  back-Before c source source_path q d e (x ∷ ds) s here wins l u at other plan = elim l [
    | inl same ↦
        (write_back_events-Within Any (λ n. tt) env source source_path ds (next x)
            (next x).source_map refl (λ y m f g h k r q. tt)).order
          c a (subst (λ y. Before c a (next y).acts) same sent)
    | inr later ↦
        back-Before c source source_path q d e ds (next x) ((anything x).keeps c here) wins later u
          (ap (get d.uid) (anything x).source ∙ at) other plan
  ]
    where
      a : Act
      a = put_source q (record d { path = e.path })

      next : Event → State
      next y =
          if y.uid == [] then s else write_back env source source_path y (get y.uid s.source_map) s

      anything : (y : Event) → Within Any s (next y)
      anything y = elim (Bool-cases (y.uid == [])) [
        | inl h ↦ rw h (Within-refl s)
        | inr h ↦ rw h (
            write_back-Within Any (λ n. tt) env source source_path y (get y.uid s.source_map) s refl
              (λ f g k r m q. tt))
      ]

      z : Event
      z = record d { path = e.path }

      t : State
      t = written_back (failure env a s) (after a s)

      sent : Before c a (next d).acts
      sent =
          rw (u, at)
            (unfold write_back put_event in
              rw (other, wins, plan, carry_out)
                ((progress-Within Any (λ n. tt) env t).order c a (
                  (written_back-Within Any (λ n. tt) env (failure env a s) (after a s)).order c a
                    (inl (refl, here)))))
