-- ===== src/Web/Created.antt =====
-- The creation of a source: its interval, and the scheduler after it.
use calbridge.Common.{
  ℕ, ◌*◌, ◌^◌, ◌≤◌, ◌<◌, ◌≡◌, refl, sym, subst, ◌&&◌, Text, codes, Option, Bool, false,
  if◌then◌else◌, arith,
}
use calbridge.Store.Rules.{IfOk-ok, IfOk-bind}
use calbridge.Store.Calendars.{Json}
use calbridge.Store.{Source, Db, ok, id_or_new, read_clock, exec}
use calbridge.Store.Sources.{create_source, as_created}
use calbridge.Scheduler.{to_duration, Scheduler, Outcome, panic, blocked, add_job, second}
use calbridge.Scheduler
use calbridge.Scheduler.Panics.{IsSound, Returns, add_job-IsSound}
use calbridge.Crypto.{encrypt}
use calbridge.Web.{World, Session, Config, Outside, Reply, waits, after}
use calbridge.Web.Views.{Body, one_source, source_to_api_with_scheduler, source_to_api}
use calbridge.Web.Inputs.{validate_source_input, check_passwords, clamp_interval}
use calbridge.Web.Sources.{
  SourceRequest, missing_fields, fields, test_source, test_destination, show_source, new_source,
  store_new_source, api_create_source,
}
use calbridge.Web.Rules.{
  Ends, Ends-unless, Ends-with_session, Ends-with_body, Ends-with_encrypted, Ends-or_reply,
}

-- A source that is shown has an interval within the configured bounds.
abbrev pub IsWithin : Config → Body → Type 0
IsWithin cfg (one_source s) =
    (cfg.min_interval ≤ s.sync_interval) × (s.sync_interval ≤ cfg.max_interval)
IsWithin cfg _ = Unit

-- An answer, which leaves the scheduler sound.
abbrev pub IsServed : Config → Reply → Type 0
IsServed cfg = Ends (λ body w. IsSound w.scheduler × IsWithin cfg body) (λ w. ⊥) ⊥

clamp_interval-bounds :
    (least most asked : ℕ)
    → least ≤ most
    → (least ≤ clamp_interval least most asked) × (clamp_interval least most asked ≤ most)
unfolding clamp_interval
clamp_interval-bounds least most asked h = (ground arith, ground arith)

-- The duration is the product where it does not overflow.
pub to_duration_small : (n : ℕ) → n * second < 2 ^ 63 → to_duration n ≡ n * second
unfolding to_duration
to_duration_small n h = ground arith

after-IsServed :
    (cfg : Config) (o : Outcome) (w : World) (k : World → Reply)
    → Returns IsSound o
    → ((s : Scheduler) → IsSound s → IsServed cfg (k (record w { scheduler = s })))
    → IsServed cfg (after o w k)
unfolding after
after-IsServed cfg (calbridge.Scheduler.ok s) w k h f = f s h
after-IsServed cfg (panic s) w k h f = elim h [ ]
after-IsServed cfg blocked w k h f = elim h [ ]

else_case :
    {A : Type 0} (P : A → Type 0) (b : Bool) (x y : A) → b ≡ false → P y → P (if b then x else y)
else_case P b x y e h = rw e h

-- The source that is created has the interval that was given.
create_source-sync_interval :
    (json : Json) (source s : Source) (db : Db)
    → (create_source json source db).0 ≡ ok s
    → s.sync_interval ≡ source.sync_interval
unfolding create_source as_created
create_source-sync_interval json source s db h =
    let Same = λ (x : Source). x.sync_interval ≡ source.sync_interval in
    IfOk-ok Same _ s
      (IfOk-bind Same (id_or_new source.id) _ db (λ id db₁.
        IfOk-bind Same read_clock _ db₁ (λ now db₂. IfOk-bind Same (exec _) _ db₂ (λ n db₃. refl))))
      h

-- The mutex is free, so that the source is shown.
show_source-IsServed :
    (cfg : Config) (status : ℕ) (s : Source) (w : World)
    → IsSound w.scheduler
    → (cfg.min_interval ≤ s.sync_interval) × (s.sync_interval ≤ cfg.max_interval)
    → IsServed cfg (show_source status s w)
unfolding show_source source_to_api_with_scheduler source_to_api
show_source-IsServed cfg status s w sound within =
    let free = sound.mu_free in
    let waits_not : ((s.enabled && w.scheduler.mu) ≡ false) = ground arith in
    else_case (IsServed cfg) (s.enabled && w.scheduler.mu) waits _ waits_not (sound, within)

store_new_source-IsServed :
    (out : Outside) (cfg : Config) (source : Source) (w : World)
    → 0 < cfg.min_interval
    → cfg.max_interval * second < 2 ^ 63
    → (cfg.min_interval ≤ source.sync_interval) × (source.sync_interval ≤ cfg.max_interval)
    → IsSound w.scheduler
    → IsServed cfg (store_new_source out source w)
unfolding store_new_source
store_new_source-IsServed out cfg source w pos small within sound =
    Ends-or_reply _ _ _ 500 (codes "Failed to create source") (create_source out.json source) w _
      (sound, tt)
      (λ s e.
        let same = create_source-sync_interval out.json source s w.db e in
        let within' : (cfg.min_interval ≤ s.sync_interval) × (s.sync_interval ≤ cfg.max_interval) =
          subst (λ n. (cfg.min_interval ≤ n) × (n ≤ cfg.max_interval)) (sym same) within in
        let fits : (s.sync_interval * second < 2 ^ 63) = omega (arith, within'.1, small) in
        let positive : (0 < to_duration s.sync_interval) =
          subst (λ d. 0 < d) (sym (to_duration_small s.sync_interval fits))
            (omega (arith, within'.0, pos)) in
        after-IsServed cfg _ _ _
          (add_job-IsSound s.id (to_duration s.sync_interval) _ w.scheduler positive sound)
          (λ t sound'. show_source-IsServed cfg 201 s _ sound' within'))

-- Where the configured bounds are positive, in order, and short of an overflow of a duration, and the
-- scheduler is sound, a request to create a source is always answered: no call panics or waits for the
-- mutex, whatever the request, the database and the servers do; the scheduler is sound again; and a source
-- that is created has an interval within the bounds.
pub api_create_source-IsServed :
    (out : Outside) (cfg : Config) (session : Option Session) (request : Option SourceRequest)
    (w : World)
    → 0 < cfg.min_interval
    → cfg.min_interval ≤ cfg.max_interval
    → cfg.max_interval * second < 2 ^ 63
    → IsSound w.scheduler
    → IsServed cfg (api_create_source out cfg session request w)
unfolding api_create_source new_source
api_create_source-IsServed out cfg session request w pos order small sound =
    let refuses : (Text → IsSound w.scheduler × Unit {0}) = λ why. (sound, tt) in
    let P = λ (body : Body) (v : World). IsSound v.scheduler × IsWithin cfg body in
    let N = λ (v : World). ⊥ in
    Ends-with_session P N ⊥ w refuses session _ (λ u. Ends-with_body P N ⊥ w refuses request _ (λ r.
      Ends-unless P N ⊥ w refuses (missing_fields r) _ (
        Ends-unless P N ⊥ w refuses (validate_source_input (fields r)) _ (
          Ends-unless P N ⊥ w refuses (check_passwords r.source_password r.dest_password) _ (
            Ends-unless P N ⊥ w refuses (test_source out r) _ (
              Ends-unless P N ⊥ w refuses (test_destination out r) _ (
                Ends-with_encrypted P N ⊥ w refuses
                  (encrypt out.crypto out.gcm out.random r.source_password) _
                  (λ p.
                    Ends-with_encrypted P N ⊥ w refuses
                      (encrypt out.crypto out.gcm out.later_random r.dest_password) _
                      (λ q.
                        store_new_source-IsServed out cfg (new_source cfg u.user_id r p q) w pos
                          small
                          (clamp_interval-bounds cfg.min_interval cfg.max_interval r.sync_interval
                            order)
                          sound)))))))))
