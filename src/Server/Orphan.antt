-- ===== src/Server/Orphan.antt =====
-- `DELETE /api/sessions/{id}` on a session that a pane of a tab still names.
use Prim.Native.String.{String}
use text.Mathlib.TextEquality.{eq_iff}
use termulaa.Prelude.{true, none, some, ◌≡◌, refl, arith}
use termulaa.Dict.{lookup, lookup-delete}
use termulaa.Session.{Session}
use termulaa.Manager.{delete_session}
use termulaa.Manager.Owners.{can_attach_session}
use termulaa.Server.{HttpRequest, Response, is_valid_id}
use termulaa.Server.Rest.{Outside, Server, delete_session_page, saved, answer_changed}

-- Deleting a session that a tab names, with a valid ID, is answered with success and takes the
-- session away, but the tab keeps its pane: a page with the tab's token is still let in to the
-- session, which is not there.
pub delete_session_page-orphans :
    (o : Outside) (id tab token : String) (t : Session) (r : HttpRequest) (w : Response)
    (s : Server)
    → is_valid_id id ≡ true
    → lookup id s.manager.sessions ≡ some t
    → can_attach_session tab id token s.manager ≡ true
    → ((delete_session_page o id r w s).0 ≡ w)
      × (lookup id (delete_session_page o id r w s).1.manager.sessions ≡ none)
      × (can_attach_session tab id token (delete_session_page o id r w s).1.manager ≡ true)
unfolding delete_session_page delete_session answer_changed saved can_attach_session
delete_session_page-orphans o id tab token t r w s valid found held =
    rw (valid, found, delete_session)
      (refl, ground (arith, lookup-delete id id s.manager.sessions, eq_iff id id), held)
