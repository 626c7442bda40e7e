-- ===== src/Session/Keys.antt =====
-- `Keys` of internal/session/session.go: one AEAD and one counter for each direction. The reused
-- plaintext buffer is not modelled: its content is consumed before the next `open`.
pub mod Open
pub mod Replayed
pub mod Counter
mod Tests
use vibe_vpn.Base.{
  ℕ, ◌+◌, ◌%◌, ◌^◌, ◌≡◌, Bool, true, false, not, Option, none, some, List, [], ◌∷◌, Bytes, Result,
  ok, err, if◌then◌else◌,
}
use vibe_vpn.Base.Panic.{◌>>=◌}
use vibe_vpn.Aead.{Aead}
use vibe_vpn.Replay.{ReplayWindow, new_replay_window, check, add}
use vibe_vpn.Framing
use vibe_vpn.Framing.{Frame}

pub data Error : Type 0 where
  auth replay short timeout peer_closed : Error

abbrev pub replay_window_size : ℕ
replay_window_size = 2048

pub record Keys : Type 0 where
  pub send_aead : Aead
  pub recv_aead : Aead
  pub send_seq : ℕ
  pub replay : ReplayWindow

-- The two ciphers that a finished Noise handshake returns, as the AEADs that `aeadFrom` makes.
unfoldable pub new_keys : Bool → Aead → Aead → Keys
new_keys is_client c2s s2c = record {
  send_aead = if is_client then c2s else s2c;
  recv_aead = if is_client then s2c else c2s;
  send_seq = 0;
  replay = new_replay_window replay_window_size;
}

-- The wire bytes, the 32-bit number that went into them, and the keys afterwards.
unfoldable pub seal : Keys → Bytes → Bytes → ℕ → Bytes → Bytes → Option (Bytes × ℕ × Keys)
seal k nonce tag typ payload padding = do
  let seq = k.send_seq % 2 ^ 32
  wire ← Framing.seal k.send_aead nonce tag typ seq payload padding
  some (wire, seq, record k { send_seq = (k.send_seq + 1) % 2 ^ 64 })

-- `errors.Is(err, framing.ErrAuth)` becomes the session's own error; the rest is passed on.
session_error : Framing.Error → Error
session_error Framing.Error.auth = auth
session_error Framing.Error.short = short

accept : Keys → Frame → Result Error Frame × Keys
accept k f =
    if not (check k.replay f.seq)
    then (err replay, k)
    else (ok f, record k { replay = add k.replay f.seq })

checked : Keys → Result Framing.Error Frame → Result Error Frame × Keys
checked k (err e) = (err (session_error e), k)
checked k (ok f) = accept k f

unfoldable pub open_wire : Keys → Bytes → Option (Result Error Frame × Keys)
unfolding session_error accept checked
open_wire k wire = do parsed ← Framing.open_frame k.recv_aead wire; some (checked k parsed)

unfoldable pub seq : Keys → ℕ
seq k = k.send_seq

-- The frames of a session, one after the other.
unfoldable pub open_all : Keys → List Bytes → Option Keys
open_all k [] = some k
open_all k (wire ∷ wires) = open_wire k wire >>= λ r. open_all r.1 wires
