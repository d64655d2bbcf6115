-- ===== src/Examples/Pipes.antt =====
-- Runs of the socket pipe: a message of five bytes, blank connections, and a hash that adds the bytes up.
use alter.Common.{ℕ, ◌+◌, ◌%◌, false, List, [], ◌∷◌, some, ◌≡◌, refl, arith}
use alter.Pipe.Defs.{Connection, disabled, aim, done, watch_out}
use alter.Pipe.Receiver.{Hooks, accepted}
use alter.Pipe.Sender.{SenderHooks, Link, ready, take_message, sender_readable}
use alter.Pipe.Arrival.{completed}
use alter.Pipe.Exchange.{exchange}
use alter.Pipe.Message.{Arrives}
use alter.Pipe.RoundTrip.{exchange-Arrives, receipt-settles, receipt}

abbrev sum : List ℕ → ℕ
sum [] = 0
sum (n ∷ ns) = n + sum ns

abbrev sending : SenderHooks
sending = record { hashlittle = sum; send_after = λ buf len. false }

abbrev receiving : Hooks
receiving = record {
  recv_before = λ n. some (5000, n);
  recv_after = λ buf len. false;
  hashlittle = sum;
}

abbrev source : ℕ → ℕ
source a = a % 256

abbrev blank : Connection
blank = record {
  bytes = λ a. 0;
  data_buf = 0;
  data_mark = 0;
  data_size = 0;
  reader = 0;
  offset = 0;
  size = 0;
  state = disabled;
}

abbrev link : Link
link = record { send_queue = (300, 5) ∷ []; success_conn = 1; write_available = 1 }

abbrev sent_over :
    (s : Connection) × (l' : Link) × (take_message sending source blank link disabled ≡ ready s l')
    × (l'.send_queue ≡ [])
    × Arrives sending receiving source link 300 5 5000
        (exchange sending receiving source link 7 s (accepted blank) (λ a. 0))
sent_over =
    exchange-Arrives sending receiving source link 300 5 5000 blank blank (λ a. 0) [] 7
      (omega arith) refl refl refl refl (omega arith)

exchange-Arrives_example :
    (s : Connection) × (l' : Link) × (take_message sending source blank link disabled ≡ ready s l')
    × (l'.send_queue ≡ [])
    × Arrives sending receiving source link 300 5 5000
        (exchange sending receiving source link 7 s (accepted blank) (λ a. 0))
exchange-Arrives_example =
    exchange-Arrives sending receiving source link 300 5 5000 blank blank (λ a. 0) [] 7
      (omega arith) refl refl refl refl (omega arith)

abbrev arrived :
    Arrives sending receiving source link 300 5 5000
      (exchange sending receiving source link 7 sent_over.0 (accepted blank) (λ a. 0))
arrived = sent_over.4

receipt-settles_example :
    sender_readable sending done
      (receipt sending receiving source link 300 5 5000 arrived)
      arrived.s'
      link
    ≡ (
      watch_out (
          aim 0 0 disabled
            (completed (receipt sending receiving source link 300 5 5000 arrived) arrived.s')),
      link,
    )
receipt-settles_example = receipt-settles sending receiving source link 300 5 5000 arrived link

-- The header of a block of 65,793 bytes.
abbrev huge : Connection
huge = record blank { bytes = λ a. 1 }
