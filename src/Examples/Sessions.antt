-- ===== src/Examples/Sessions.antt =====
-- The session table at concrete inputs: src/websocket_session.c.
use libm2handler.Base.{ℕ, ◌≡◌, refl, [], ◌∷◌, Bool, false, not, ◌&&◌, ◌||◌, none, pos, eqb_ℤ, ret}
use libm2handler.Handler.Request.{Request}
use libm2handler.Session.{Sessions, compare_session_id, add, remove}
use libm2handler.Session.Laws.{present, present-add, present-remove}
use libm2handler.Examples.Requests.{client}
use libm2handler.Examples.Table.{table, table-IsDict, flag_mutex, flag_mutex-IsMutex}

abbrev first : Request ℕ
first = client none []

abbrev second : Request ℕ
second = record (client none []) { conn_id = pos 7 }

abbrev no_sessions : Sessions table flag_mutex
no_sessions = record { dict = []; mutex = false }

abbrev one_session : Sessions table flag_mutex
one_session = record {
  dict = (first, record { times_seen = pos 0; user = none }) ∷ [];
  mutex = false;
}

abbrev present_in : Sessions table flag_mutex → Request ℕ → Bool
present_in = present table table-IsDict flag_mutex flag_mutex-IsMutex

present-add_example :
    (s' : Sessions table flag_mutex) × (add table flag_mutex one_session second ≡ ret (pos 0, s'))
    × (s'.mutex ≡ false)
    × ((q : Request ℕ)
        → present_in s' q ≡ (eqb_ℤ q.conn_id second.conn_id || present_in one_session q))
present-add_example =
    present-add table table-IsDict flag_mutex flag_mutex-IsMutex one_session second refl
      (unfold present compare_session_id in refl)

present-remove_example :
    (s' : Sessions table flag_mutex) × (remove table flag_mutex one_session first ≡ ret (pos 0, s'))
    × (s'.mutex ≡ false)
    × ((q : Request ℕ)
        → present_in s' q ≡ (not (eqb_ℤ q.conn_id first.conn_id) && present_in one_session q))
present-remove_example =
    present-remove table table-IsDict flag_mutex flag_mutex-IsMutex one_session first refl
      (unfold present compare_session_id in refl)
