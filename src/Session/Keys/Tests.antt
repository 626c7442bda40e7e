-- ===== src/Session/Keys/Tests.antt =====
-- A client that sends one data frame to a server, under the cipher of Aead.Clear.
use vibe_vpn.Base.{
  ◌+◌, ◌≡◌, ◌^◌, ◌-◌, refl, true, false, some, [], ◌∷◌, ◌++◌, Bytes, AreBytes, ok, err, arith,
  get_be,
}
use vibe_vpn.Aead.{IsAead}
use vibe_vpn.Aead.Clear.{clear, clear-IsAead}
use vibe_vpn.Replay.{IsValid, new_replay_window, check, add, unanchored}
use vibe_vpn.Replay.Valid.{new_replay_window-IsValid}
use vibe_vpn.Framing
use vibe_vpn.Framing.{Frame}
use vibe_vpn.Session.Keys.{Keys, replay, new_keys, seal, open_wire, open_all}
use vibe_vpn.Session.Keys.Replayed.{opened_once}

abbrev zeros : Bytes
zeros = 0 ∷ 0 ∷ 0 ∷ 0 ∷ 0 ∷ 0 ∷ 0 ∷ 0 ∷ 0 ∷ 0 ∷ 0 ∷ 0 ∷ []

abbrev tag : Bytes
tag = 1 ∷ 2 ∷ 3 ∷ 4 ∷ []

abbrev wire : Bytes
wire = zeros ++ (0 ∷ 0 ∷ 0 ∷ 0 ∷ zeros) ++ (1 ∷ 2 ∷ 3 ∷ 4 ∷ 4 ∷ 0 ∷ 0 ∷ 0 ∷ 0 ∷ 0 ∷ 1 ∷ 65 ∷ [])

abbrev frame : Frame
frame = record { tag = tag; type = 4; seq = 0; payload = 65 ∷ [] }

abbrev client : Keys
client = new_keys true clear clear

abbrev client1 : Keys
client1 = record client { send_seq = 1 }

abbrev server : Keys
server = new_keys false clear clear

abbrev server1 : Keys
server1 = record server { replay = add server.replay 0 }

sealed : seal client zeros tag 4 (65 ∷ []) [] ≡ some (wire, 0, client1)
unfolding seal new_keys Framing.seal Framing.inner_plaintext clear
sealed = refl

opened : open_wire server wire ≡ some (ok frame, server1)
unfolding open_wire new_keys Framing.open_frame Framing.open_into Framing.parse_inner clear get_be
    new_replay_window check
opened = refl

client-IsAead : IsAead client.send_aead
unfolding new_keys
client-IsAead = clear-IsAead

server-IsAead : IsAead server.recv_aead
unfolding new_keys
server-IsAead = clear-IsAead

same_key : server.recv_aead ≡ client.send_aead
unfolding new_keys
same_key = refl

server-IsValid : IsValid server.replay
unfolding new_keys
server-IsValid = new_replay_window-IsValid 2048 (omega arith)

server-high : server.replay.high ≡ unanchored
unfolding new_keys new_replay_window
server-high = refl

bytes : AreBytes (tag ++ (4 ∷ (65 ∷ [])))
bytes = (omega arith, (omega arith, (omega arith, (omega arith, (omega arith, (omega arith, tt))))))

nothing_between : open_all server1 [] ≡ some server1
unfolding open_all
nothing_between = refl

accepts_zero : check server.replay 0 ≡ true
unfolding new_keys new_replay_window check
accepts_zero = refl

opened_once_example : open_wire server1 wire ≡ some (err replay, server1)
opened_once_example =
    opened_once server server1 server1 wire frame [] server-IsAead server-IsValid
      (λ used. absurd (used server-high)) opened nothing_between

-- The sender after 2 ^ 32 frames, and the receiver after number 2 ^ 32 - 1.
abbrev worn : Keys
worn = record client { send_seq = 2 ^ 32 }

abbrev worn1 : Keys
worn1 = record client { send_seq = 2 ^ 32 + 1 }

abbrev late : Keys
late = record server { replay = add server.replay (2 ^ 32 - 1) }

late-high : (late.replay.high ≡ 2 ^ 32 - 1) × (late.replay.size ≡ 2048)
unfolding new_keys new_replay_window add
late-high = (refl, refl)

worn_sealed : seal worn zeros tag 4 (65 ∷ []) [] ≡ some (wire, 0, worn1)
unfolding seal new_keys Framing.seal Framing.inner_plaintext clear
worn_sealed = refl
