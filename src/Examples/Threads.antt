-- ===== src/Examples/Threads.antt =====
-- Two threads at one table: src/websocket_session.c.
use libm2handler.Base.{◌⊎◌, refl, [], ◌∷◌, ℕ, true, false, none, pos}
use libm2handler.Handler.Request.{Request}
use libm2handler.Session.{answers, unlocks, Sessions, lock, unlock, exec, compare_session_id}
use libm2handler.Session.Threads.{adding, asking, here, there, Scene, goes, Reach, start, later}
use libm2handler.Session.Threads.Serial.{IsExclusive, IsSerial, Reach-Serial}
use libm2handler.Session.Threads.Progress.{AllFinished, CanStep, IsMisused, Reach-progress}
use libm2handler.Examples.Requests.{client}
use libm2handler.Examples.Table.{table, table-IsDict, flag_mutex, flag_mutex-IsMutex}

abbrev guest : Request ℕ
guest = client none []

abbrev empty_table : Sessions table flag_mutex
empty_table = record { dict = []; mutex = false }

-- The second thread has asked; the first has added and not unlocked yet.
abbrev half_way : Scene table flag_mutex
half_way = record {
  shared = record { dict = (guest, record { times_seen = pos 0; user = none }) ∷ []; mutex = true };
  threads = (adding guest, unlocks (answers (pos 0))) ∷ (asking guest, answers (pos 0)) ∷ [];
}

half_way-Reach : Reach table flag_mutex empty_table (adding guest ∷ asking guest ∷ []) half_way
unfolding exec lock unlock compare_session_id
half_way-Reach =
    later
      (later
        (later
          (later
            (later (later start (goes (asking guest) _ _ refl (there here)))
              (goes (asking guest) _ _ refl (there here)))
            (goes (asking guest) _ _ refl (there here)))
          (goes (adding guest) _ _ refl here))
        (goes (adding guest) _ _ refl here))
      (goes (adding guest) _ _ refl here)

Reach-Serial_example :
    IsExclusive table table-IsDict flag_mutex flag_mutex-IsMutex half_way
    × IsSerial table table-IsDict flag_mutex flag_mutex-IsMutex empty_table half_way
Reach-Serial_example =
    Reach-Serial table table-IsDict flag_mutex flag_mutex-IsMutex empty_table
      (adding guest ∷ asking guest ∷ []) refl half_way-Reach

Reach-progress_example :
    AllFinished half_way.threads
    ⊎ (CanStep table flag_mutex table-IsDict flag_mutex-IsMutex half_way
        ⊎ IsMisused table flag_mutex table-IsDict flag_mutex-IsMutex empty_table half_way)
Reach-progress_example =
    Reach-progress table flag_mutex table-IsDict flag_mutex-IsMutex empty_table
      (adding guest ∷ asking guest ∷ []) refl half_way-Reach
