-- ===== src/Udp/Client/Tests.antt =====
-- A client whose Close comes while its goroutine holds a datagram.
use vibe_vpn.Base.{◌≡◌, ◌⊎◌, refl, true, false, none, some, [], ◌∷◌}
use vibe_vpn.Udp.Client.{
  UdpClient, dial_udp, read_udp, pass_on, receive_udp, waits, close_client_done, close_conn, reads,
  passes, receives, closes_done, closes_conn, Steps, here, then_step, close_while_held,
  receive_udp_stuck, receive_udp_fed,
}

abbrev fresh : UdpClient
fresh = record {
  queue = [];
  ch_closed = false;
  is_done = false;
  conn_closed = false;
  reading = true;
  held = none;
}

abbrev holding : UdpClient
holding = record fresh { held = some (7 ∷ []) }

abbrev closing : UdpClient
closing = record holding { is_done = true }

abbrev stopped : UdpClient
stopped = record closing { reading = false; held = none }

abbrev closed : UdpClient
closed = record stopped { conn_closed = true }

stops : pass_on closing (7 ∷ []) false ≡ some stopped
unfolding pass_on
stops = refl

-- Close has returned, and the client is stuck.
reaches : Steps dial_udp closed
unfolding dial_udp read_udp close_client_done close_conn
reaches =
    then_step stopped closed
      (then_step closing stopped
        (then_step holding closing (then_step fresh holding here (reads (7 ∷ []) refl refl refl))
          closes_done)
        (passes (7 ∷ []) false stopped refl refl stops))
      (closes_conn refl)

closes : close_while_held (7 ∷ []) ≡ some closed
unfolding close_while_held dial_udp read_udp close_client_done close_conn pass_on
closes = refl

again : Steps closed closed
unfolding receive_udp
again = then_step closed closed here receives

receive_udp_stuck_example :
    Steps dial_udp closed × (true ≡ true) × (true ≡ true) × (receive_udp closed ≡ (waits, closed))
receive_udp_stuck_example = receive_udp_stuck 7 [] closed closed closes again

nothing_comes : (receive_udp closed).0 ≡ waits
unfolding receive_udp
nothing_comes = refl

receive_udp_fed_example : (false ≡ true) ⊎ (true ≡ true)
receive_udp_fed_example = receive_udp_fed closed reaches nothing_comes
