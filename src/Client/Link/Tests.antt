-- ===== src/Client/Link/Tests.antt =====
-- Runs of the theorems on the reconnect loops.
use go_amqp_adapter.Base.{◌≡◌, refl, true, false, none, some, List, [], ◌∷◌}
use go_amqp_adapter.Client.Session.{State}
use go_amqp_adapter.Client.Close.{close}
use go_amqp_adapter.Client.Link.{Round, Failed, Live, returned, handle_reconnect}
use go_amqp_adapter.Client.Link.Late.{accepting, last_round, handle_reconnect_late}
use go_amqp_adapter.Samples.{harsh, fresh_state}

-- The channel is lost once, and then the client is closed while the loop dials again.
abbrev unlucky : List Round
unlucky =
    record {
      shut = false;
      stop = false;
      turns =
          record { shut = false; failed = Failed.on_timer; live = Live.on_chan_closed }
          ∷ record { shut = true; failed = Failed.on_done; live = Live.on_conn_closed }
          ∷ [];
    }
    ∷ last_round
    ∷ []

abbrev shut_state : State
shut_state = record fresh_state {
  client = record (fresh_state.client) { closed_once = true; done = true };
}

handle_reconnect_late_example :
    let (l, s) =
      handle_reconnect (accepting harsh) "amqp://localhost" (last_round ∷ []) shut_state in
    (l ≡ returned true)
    × (s.client.is_ready ≡ 1)
    × (s.client.conn ≡ some 0)
    × (close (accepting harsh) s ≡ (none, s))
handle_reconnect_late_example = handle_reconnect_late harsh "amqp://localhost" shut_state refl
