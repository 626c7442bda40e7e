-- ===== src/Udp/Tests.antt =====
-- Runs of internal/transport/udp/udp.go: two peers, one of which sends again.
use vibe_vpn.Base.{
  ℕ, ◌+◌, ◌≤◌, ◌≡◌, refl, true, false, none, some, List, [], ◌∷◌, ◌++◌, length, Bytes, arith,
}
use vibe_vpn.Base.Panic.{◌>>=◌}
use vibe_vpn.Base.Assoc.{find}
use vibe_vpn.Session.Pool.{update}
use vibe_vpn.Udp.{UdpServer, queue_len, new_endpoint, begin_close, close_each, close_endpoint}
use vibe_vpn.Udp.Valid.{IsValid, IsLive}
use vibe_vpn.Udp.Safety.{
  Action, arrives, reads, closes, shuts, acts, empty_server, empty-IsValid, acts_never_panic,
}
use vibe_vpn.Udp.Demux.{queue_of, read_all, sent_by, read_all-sent_by}
use vibe_vpn.Udp.Race.{close_race}

abbrev three : List (ℕ × Bytes)
three = (7, 1 ∷ []) ∷ (9, 2 ∷ []) ∷ (7, 3 ∷ []) ∷ []

three_room : (key : ℕ) → length (queue_of empty_server key) + length (sent_by key three) ≤ queue_len
unfolding queue_of
three_room key = ground arith

read_all-sent_by_example :
    (t : UdpServer) × (read_all empty_server three ≡ some t)
    × ((key : ℕ) → queue_of t key ≡ queue_of empty_server key ++ sent_by key three)
read_all-sent_by_example = read_all-sent_by three empty_server empty-IsValid refl three_room

abbrev some_actions : List Action
some_actions =
    arrives 7 (1 ∷ []) true true
    ∷ arrives 9 (2 ∷ []) true false
    ∷ arrives 7 (3 ∷ []) true true
    ∷ reads 0 true
    ∷ closes 0
    ∷ shuts
    ∷ closes 0
    ∷ []

acts_never_panic_example :
    (s : UdpServer) × (acts empty_server some_actions ≡ some s)
    × ((key r : ℕ) → find s.eps key ≡ some r → IsLive s key r)
acts_never_panic_example = acts_never_panic some_actions

-- A server with one peer.
abbrev one_peer : UdpServer
one_peer = record {
  eps = (7, 0) ∷ [];
  endpoint = update new_endpoint 0 (new_endpoint 7);
  next_ref = 1;
  closed = false;
}

one_peer-IsValid : IsValid one_peer
unfolding IsValid
one_peer-IsValid = (refl, refl, omega arith, refl, refl)

close_race_example :
    let (eps, s1) = begin_close one_peer in close_endpoint s1 0 >>= close_each eps ≡ none
close_race_example = close_race one_peer 7 0 one_peer-IsValid refl refl
