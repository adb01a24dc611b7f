-- ===== src/Web/Isolation/Writes.antt =====
-- The handlers that change a source leave the rows of another user.
use calbridge.Common.{◌≡◌, refl, sym, subst, Text, codes, List, Option, some, false, not, ◌==◌}
use calbridge.Store.Sources
use calbridge.Store.{
  query, found, exec, affected, Source, SyncLog, SourceRow, MalformedEvent, UserAlertPreferences,
  Tables, Db, DbError, Result, ok, err, M,
}
use calbridge.Store.Sources.{get_source_by_id_for_user, get_sources_by_user_id, scan_source}
use calbridge.Store.Consistency.Tables.{Distinct}
use calbridge.Store.Consistency.Statements.{source_clash}
use calbridge.Web.{World, Session, Config, Outside, Reply, with_session}
use calbridge.Web.Views.{Body}
use calbridge.Web.Rules.{
  Ends-unless, Ends-with_body, Ends-with_encrypted, Ends-with_new_password, Ends-or_reply,
}
use calbridge.Web.Inputs.{validate_source_input, check_passwords}
use calbridge.Web.Sources.{
  SourceRequest, fields, missing_fields, test_source, test_destination, with_source, new_source,
  changed_source, store_new_source, update_job, store_changed_source, api_create_source,
  api_update_source, api_delete_source, api_toggle_source,
}
use calbridge.Crypto.{encrypt}
use calbridge.Web.Isolation.Rows.{rows_of, AreOwn}
use calbridge.Web.Isolation.Calls.{
  create_source-Stay, update_source-Stay, delete_source-Stay, get_source-own,
}
use calbridge.Web.Isolation.Answers.{Left, get_source-Keeps, after-E, show_source-E}

module _ (out : Outside) (session : Session) (other : Text)
    (apart : (session.user_id == other) ≡ false)
    (v : List SourceRow × List UserAlertPreferences) where
  abbrev Q : Tables → Type 0
  Q t = rows_of other t ≡ v

  abbrev P : Body → World → Type 0
  P body w = Q w.db.tables

  abbrev N : World → Type 0
  N w = Q w.db.tables

  abbrev E : Reply → Type 0
  E = Left other v

  module _ (w : World) (q : Q w.db.tables)
      (distinct : Distinct source_clash w.db.tables.sources) where
    -- The source is the user's, and the tables are as before.
    pub with_source-E :
        (id : Text) (k : Source → World → Reply)
        → ((s : Source) (db : Db)
            → s.id ≡ id
            → AreOwn id session.user_id db.tables.sources
            → Q db.tables
            → E (k s (record w { db = db })))
        → E (with_source out (some session) id w k)
    unfolding with_source with_session
    with_source-E id k h =
        let db = (get_source_by_id_for_user out.json id session.user_id w.db).1 in
        let same = get_source-Keeps (λ t. t ≡ w.db.tables) out id session.user_id w.db refl in
        Ends-or_reply P N Unit 404 (codes "Source not found")
          (get_source_by_id_for_user out.json id session.user_id) w k
          (get_source-Keeps Q out id session.user_id w.db q)
          (λ s e.
            let own = get_source-own out.json id session.user_id s w.db distinct e in
            h s db own.0 (subst (λ t. AreOwn id session.user_id t.sources) (sym same) own.1)
              (subst Q (sym same) q))

    pub delete-E : (id : Text) → E (api_delete_source out (some session) id w)
    unfolding api_delete_source
    delete-E id = with_source-E id _ (λ s db same own q'. after-E other v _ _ _ q' (λ t.
        Ends-or_reply P N Unit 500 (codes "Failed to delete source")
          (calbridge.Store.Sources.delete_source id) _ _
          (delete_source-Stay session.user_id other apart v id db own q')
          (λ a e. delete_source-Stay session.user_id other apart v id db own q')))

    pub toggle-E : (id : Text) → E (api_toggle_source out (some session) id w)
    unfolding api_toggle_source
    toggle-E id = with_source-E id _ (λ s db same own q'.
        let stay =
          update_source-Stay session.user_id other apart v out.json
            (record s { enabled = not s.enabled }) db
            (subst (λ i. AreOwn i session.user_id db.tables.sources) (sym same) own) q' in
        Ends-or_reply P N Unit 500 (codes "Failed to update source")
          (calbridge.Store.Sources.update_source out.json (record s { enabled = not s.enabled })) _
          _ stay (λ s' e. after-E other v _ _ _ stay (λ t. show_source-E other v 200 s' _ stay)))

    pub update-E :
        (id : Text) (r : Option SourceRequest) → E (api_update_source out (some session) id r w)
    unfolding api_update_source store_changed_source update_job changed_source
    update-E id request = with_source-E id _ (λ s db same own q'.
        let w' : World = record w { db = db } in
        let refuses : (Text → Q db.tables) = λ why. q' in
        Ends-with_body P N Unit w' refuses request _ (λ r.
          Ends-unless P N Unit w' refuses (validate_source_input (fields r)) _ (
            Ends-unless P N Unit w' refuses (check_passwords r.source_password r.dest_password) _ (
              Ends-with_new_password P N Unit w' refuses out out.random r.source_password
                s.source_password _
                (λ p.
                  Ends-with_new_password P N Unit w' refuses out out.later_random r.dest_password
                    s.dest_password _
                    (λ p'.
                      let changed = changed_source r s p p' in
                      let stay =
                        update_source-Stay session.user_id other apart v out.json changed db
                          (subst (λ i. AreOwn i session.user_id db.tables.sources) (sym same) own)
                          q' in
                      Ends-or_reply P N Unit 500 (codes "Failed to update source")
                        (calbridge.Store.Sources.update_source out.json changed) w' _ stay
                        (λ s' e.
                          after-E other v _ _ _ stay
                            (λ t. show_source-E other v 200 s' _ stay))))))))

    pub create-E :
        (cfg : Config) (r : Option SourceRequest) → E (api_create_source out cfg (some session) r w)
    unfolding api_create_source with_session store_new_source new_source
    create-E cfg request =
        let refuses : (Text → Q w.db.tables) = λ why. q in
        Ends-with_body P N Unit w refuses request _ (λ r.
          Ends-unless P N Unit w refuses (missing_fields r) _ (
            Ends-unless P N Unit w refuses (validate_source_input (fields r)) _ (
              Ends-unless P N Unit w refuses (check_passwords r.source_password r.dest_password) _ (
                Ends-unless P N Unit w refuses (test_source out r) _ (
                  Ends-unless P N Unit w refuses (test_destination out r) _ (
                    Ends-with_encrypted P N Unit w refuses
                      (encrypt out.crypto out.gcm out.random r.source_password) _
                      (λ p.
                        Ends-with_encrypted P N Unit w refuses
                          (encrypt out.crypto out.gcm out.later_random r.dest_password) _
                          (λ p'.
                            let made = new_source cfg session.user_id r p p' in
                            let stay =
                              create_source-Stay session.user_id other apart v out.json made refl
                                w.db q in
                            Ends-or_reply P N Unit 500 (codes "Failed to create source")
                              (calbridge.Store.Sources.create_source out.json made) w _ stay
                              (λ s e.
                                after-E other v _ _ _ stay
                                  (λ t. show_source-E other v 201 s _ stay))))))))))
