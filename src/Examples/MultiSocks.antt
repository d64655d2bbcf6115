-- ===== src/Examples/MultiSocks.antt =====
-- One reader: it serves the socket 5, crashes, and stands in the queue again when the socket 6 comes.
use alter.Common.{true, List, [], ◌∷◌, ◌≡◌, refl, arith}
use alter.MultiSock.Defs.{
  MultiSock, spawn, accept, select, place_task, take_task, process, close, push_back, Event, quiet,
  accepted, processed, closed, Run, start, after, accepts, selects, places, takes, processes,
  closes, pushes_back,
}
use alter.MultiSock.Sockets.{Accounts, times_accepted, times_processed, times_closed}
use alter.MultiSock.Runs.{Run-Accounts, Run-gone}

abbrev one_reader : MultiSock
one_reader = spawn 1

abbrev selected : MultiSock
selected = select 5 0 [] (accept 5 one_reader)

selected-Run : Run 1 one_reader (quiet ∷ accepted 5 ∷ []) selected
unfolding spawn accept select
selected-Run = after (after start (accepts 5 refl)) (selects 5 0 [] refl refl)

abbrev crashed : MultiSock
crashed = push_back 0 true (close 0 true (process 0 true (take_task 0 (place_task 5 0 selected))))

abbrev first_events : List Event
first_events = quiet ∷ closed 5 ∷ processed 5 ∷ quiet ∷ quiet ∷ quiet ∷ accepted 5 ∷ []

crashed-Run : Run 1 one_reader first_events crashed
unfolding spawn accept select place_task take_task process close push_back
crashed-Run =
    after
      (after
        (after (after (after selected-Run (places 5 0 refl)) (takes 0 (omega arith) refl refl))
          (processes 0 true (omega arith) refl))
        (closes 0 true (omega arith) refl))
      (pushes_back 0 true (omega arith) refl)

Run-Accounts_example : Accounts 1 5 first_events crashed
Run-Accounts_example = Run-Accounts 1 5 crashed-Run

-- The socket 6 is given to the reader, which has ended.
abbrev lost : MultiSock
lost = place_task 6 0 (select 6 0 [] (accept 6 crashed))

lost-Run : Run 1 one_reader (quiet ∷ quiet ∷ accepted 6 ∷ first_events) lost
unfolding spawn accept select place_task take_task process close push_back
lost-Run =
    after (after (after crashed-Run (accepts 6 refl)) (selects 6 0 [] refl refl)) (places 6 0 refl)

abbrev later : MultiSock
later = accept 7 lost

later-Run : Run 1 lost (accepted 7 ∷ []) later
unfolding spawn accept select place_task take_task process close push_back
later-Run = after start (accepts 7 refl)

abbrev lost_events : List Event
lost_events = quiet ∷ quiet ∷ accepted 6 ∷ first_events

Run-gone_example :
    (times_processed 6 (accepted 7 ∷ lost_events) ≡ 0)
    × (times_closed 6 (accepted 7 ∷ lost_events) ≡ 0)
unfolding spawn accept select place_task take_task process close push_back times_accepted
Run-gone_example = Run-gone 1 0 lost-Run later-Run (omega arith) refl refl (omega arith)
