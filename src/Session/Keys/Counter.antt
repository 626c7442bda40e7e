-- ===== src/Session/Keys/Counter.antt =====
-- The 32 bits of the send counter on the wire.
use vibe_vpn.Base.{
  ℕ, ◌+◌, ◌-◌, ◌%◌, ◌^◌, ◌<◌, ◌≤◌, ◌≡◌, ◌≢◌, false, some, Bytes, AreBytes, ◌++◌, ok, err, arith,
  length, ◌∷◌,
}
use vibe_vpn.Aead.{IsAead}
use vibe_vpn.Replay.{ReplayWindow, check, unanchored}
use vibe_vpn.Framing
use vibe_vpn.Framing.RoundTrip.{open_frame-seal}
use vibe_vpn.Session.Keys.{Keys, replay, open_wire, seal}
use vibe_vpn.Session.Keys.Replayed.{open_wire-refused}

-- Each frame carries the low 32 bits of the counter, which goes up by one.
pub seal-counts :
    (k k' : Keys) (nonce tag : Bytes) (typ : ℕ) (payload padding wire : Bytes) (seq : ℕ)
    → k.send_seq < 2 ^ 64 - 1
    → seal k nonce tag typ payload padding ≡ some (wire, seq, k')
    → (seq ≡ k.send_seq % 2 ^ 32) × (k'.send_seq ≡ k.send_seq + 1)
unfolding seal
seal-counts k k' nonce tag typ payload padding wire seq h e = ground arith

check-stale :
    (w : ReplayWindow) (s : ℕ) → w.high ≢ unanchored → s + w.size ≤ w.high → check w s ≡ false
unfolding check
check-stale w s h old = ground arith

-- A sender that goes on past 2 ^ 32 frames under one key is cut off: a receiver that has opened
-- a frame from near the end of the number space refuses the frames after the wrap as replays.
pub wrapped_refused :
    (k k' : Keys) (peer : Keys) (nonce tag : Bytes) (typ : ℕ) (payload padding wire : Bytes)
    (seq over : ℕ)
    → IsAead k.send_aead
    → peer.recv_aead ≡ k.send_aead
    → length nonce ≡ 12
    → length tag ≡ 4
    → length payload < 2 ^ 16
    → AreBytes (tag ++ (typ ∷ (payload ++ padding)))
    → k.send_seq ≡ 2 ^ 32 + over
    → over + peer.replay.size ≤ peer.replay.high
    → peer.replay.high < 2 ^ 32
    → seal k nonce tag typ payload padding ≡ some (wire, seq, k')
    → open_wire peer wire ≡ some (err replay, peer)
unfolding seal
wrapped_refused k k' peer nonce tag typ payload padding wire seq over v same hn ht hp hb past old
      small sealed =
    let opened : Framing.open_frame k.send_aead wire
        ≡ some (
            ok (record {
              tag = tag;
              type = typ;
              seq = k.send_seq % 2 ^ 32 % 2 ^ 32;
              payload = payload;
            })) =
      (open_frame-seal k.send_aead nonce tag typ (k.send_seq % 2 ^ 32) payload padding wire v hn ht
        hp hb (ground arith)).0 in
    let e : k.send_seq % 2 ^ 32 % 2 ^ 32 ≡ over = omega arith in
    let f : Framing.Frame = record {
      tag = tag;
      type = typ;
      seq = k.send_seq % 2 ^ 32 % 2 ^ 32;
      payload = payload;
    } in
    open_wire-refused peer wire f (rw same opened)
      (rw e (check-stale peer.replay over (omega arith) old))
