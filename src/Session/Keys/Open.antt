-- ===== src/Session/Keys/Open.antt =====
-- `Keys.open` on every outcome, and after `Keys.seal`.
use vibe_vpn.Base.{
  ℕ, ◌%◌, ◌^◌, ◌<◌, ◌≡◌, ◌≢◌, true, none, some, Bytes, AreBytes, ◌++◌, ok, err, arith, length, ◌∷◌,
}
use vibe_vpn.Aead.{IsAead}
use vibe_vpn.Replay.{check, add}
use vibe_vpn.Replay.History.{receive}
use vibe_vpn.Framing
use vibe_vpn.Framing.{Frame}
use vibe_vpn.Framing.Parse
use vibe_vpn.Framing.RoundTrip.{open_frame-seal}
use vibe_vpn.Session.Keys.{Keys, Error, seal, open_wire}

-- Opening a frame never panics, whatever arrives.
pub open_wire_total : (k : Keys) (wire : Bytes) → open_wire k wire ≢ none
unfolding open_wire
open_wire_total k wire = ground (arith, Framing.Parse.open_frame_total k.recv_aead wire)

-- A frame that does not authenticate, does not parse or is a replay leaves the keys, and with
-- them the replay window, as they were.
pub open_wire_err :
    (k k' : Keys) (wire : Bytes) (e : Error) → open_wire k wire ≡ some (err e, k') → k' ≡ k
unfolding open_wire
open_wire_err k k' wire e h = ground arith

-- A frame that opens was accepted by the window, which records its number; nothing else changes.
pub open_wire_ok :
    (k k' : Keys) (wire : Bytes) (f : Frame)
    → open_wire k wire ≡ some (ok f, k')
    → (Framing.open_frame k.recv_aead wire ≡ some (ok f))
      × (receive k.replay f.seq ≡ (k'.replay, true))
      × (k' ≡ record k { replay = add k.replay f.seq })
unfolding open_wire receive
open_wire_ok k k' wire f h = ground arith

-- Under an AEAD with its documented behaviour, the peer that holds the same key opens what `seal` returns to the type and payload that went
-- in, as long as the number is one that its window accepts.
pub open_wire-seal :
    (k k' : Keys) (peer : Keys) (nonce tag : Bytes) (typ : ℕ) (payload padding wire : Bytes)
    (seq : ℕ)
    → IsAead k.send_aead
    → peer.recv_aead ≡ k.send_aead
    → length nonce ≡ 12
    → length tag ≡ 4
    → length payload < 2 ^ 16
    → AreBytes (tag ++ (typ ∷ (payload ++ padding)))
    → seal k nonce tag typ payload padding ≡ some (wire, seq, k')
    → check peer.replay seq ≡ true
    → open_wire peer wire
      ≡ some (
        ok (record { tag = tag; type = typ; seq = seq; payload = payload }),
        record peer { replay = add peer.replay seq },
      )
unfolding open_wire seal
open_wire-seal k k' peer nonce tag typ payload padding wire seq v same hn ht hp hb sealed good =
    ground (
      arith,
      open_frame-seal k.send_aead nonce tag typ (k.send_seq % 2 ^ 32) payload padding wire v hn ht
          hp hb,
    )
