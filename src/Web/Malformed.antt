-- ===== src/Web/Malformed.antt =====
-- The handlers of the malformed events. The attempt to delete the event at its server, of which the code
-- only logs the outcome, changes nothing of the world here, so it is left out.
use calbridge.Common.{Text, codes, Option}
use calbridge.Store.Sources.{get_source_by_id_for_user}
use calbridge.Store.Malformed.{
  get_malformed_events, get_malformed_event_by_id_for_user, delete_malformed_event,
  delete_all_malformed_events_for_user,
}
use calbridge.Web.{World, Session, Outside, Reply, reply, or_reply, with_session}
use calbridge.Web.Views.{message, malformed, deleted}

unfoldable pub api_get_malformed_events : Option Session → World → Reply
api_get_malformed_events session w = with_session session w (λ u.
    or_reply 500 (codes "Failed to get malformed events") (get_malformed_events u.user_id) w
      (λ events w'. reply 200 (malformed events) w'))

unfoldable pub api_delete_malformed_event : Outside → Option Session → Text → World → Reply
api_delete_malformed_event out session id w = with_session session w (λ u.
    or_reply 404 (codes "Malformed event not found")
      (get_malformed_event_by_id_for_user id u.user_id) w
      (λ event w₁.
        or_reply 404 (codes "Source not found")
          (get_source_by_id_for_user out.json event.source_id u.user_id) w₁
          (λ s w₂.
            or_reply 500 (codes "Failed to delete malformed event") (delete_malformed_event id) w₂
              (λ t w₃. reply 200 (message (codes "Malformed event deleted")) w₃))))

unfoldable pub api_delete_all_malformed_events : Option Session → World → Reply
api_delete_all_malformed_events session w = with_session session w (λ u.
    or_reply 500 (codes "Failed to delete malformed events")
      (delete_all_malformed_events_for_user u.user_id) w (λ n w'. reply 200 (deleted n) w'))
