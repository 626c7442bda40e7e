-- ===== src/Session/Jitter.antt =====
-- internal/framing/jitter.go: the wrapper that waits before every Send, and what the server can
-- still ask of a wrapped transport. The wait itself is left out.
mod Tests
use vibe_vpn.Base.{
  ℕ, ◌+◌, ◌-◌, ◌≡◌, ◌≤◌, refl, ap, ◌∙◌, Bool, true, false, not, ◌&&◌, Option, none, some, ◌==◌, leb,
  if◌then◌else◌, ℤ, pos_part, Bytes, length, take, drop, arith, [], Option-cases, Bool-cases, inl,
  inr,
}
use vibe_vpn.Base.Panic.{◌>>=◌}
use vibe_vpn.Wire.{cookie_len}
use vibe_vpn.Session.Server.{Env, Server, Verdict, noise1, gate, handshake1, send_raw}

-- A transport as the session sees it. `send` is success; `remote_addr` is what the interface
-- RemoteAddr gives, if the transport has it, read as an address; `releases` says whether it has
-- BufferReleaser.
pub record Transport : Type 0 where
  pub send : Bytes → Bool
  pub remote_addr : Option (Option (ℕ × Bytes))
  pub releases : Bool

-- `jitterTransport` has Send, Receive and Close only.
unfoldable pub jitter : Transport → ℤ → Transport
jitter t max =
    if leb (pos_part max) 0
    then t
    else record { send = t.send; remote_addr = none; releases = false }

-- The type assertion of peerIP, and the address if it can be read.
unfoldable pub peer_ip : Transport → Option (ℕ × Bytes)
peer_ip t = elim t.remote_addr [ none ↦ none | some ip ↦ ip ]

-- The session over a transport.
abbrev pub over : {H : Type 0} → Env H → Transport → Env H
over env t = record env { sends = t.send; peer_ip = peer_ip t }

module _ {H : Type 0} (env : Env H) where
  noise1-rate : (st : Server H) (msg : Bytes) → (noise1 env st msg).1.rate ≡ st.rate
  unfolding noise1 send_raw
  noise1-rate st msg = ground arith

jitter_unknown : (t : Transport) (max : ℤ) → 1 ≤ pos_part max → peer_ip (jitter t max) ≡ none
unfolding jitter peer_ip
jitter_unknown t max delays = ground arith

gate_open :
    {H : Type 0} (env : Env H) (st : Server H) (msg : Bytes) (cookie : Option Bytes)
    → env.peer_ip ≡ none
    → gate env st msg cookie ≡ noise1 env st msg
unfolding gate
gate_open env st msg cookie unknown = ground arith

-- Where a delay is configured, the session does not know the peer's address: a first message is
-- answered whatever cookie it has or lacks, and not counted.
pub gate-jitter :
    {H : Type 0} (env : Env H) (t : Transport) (max : ℤ) (st : Server H) (msg : Bytes)
    (cookie : Option Bytes)
    → 1 ≤ pos_part max
    → (gate (over env (jitter t max)) st msg cookie ≡ noise1 (over env (jitter t max)) st msg)
      × ((gate (over env (jitter t max)) st msg cookie).1.rate ≡ st.rate)
gate-jitter env t max st msg cookie delays =
    let wrapped = over env (jitter t max) in
    let no_gate = gate_open wrapped st msg cookie (jitter_unknown t max delays) in
    (no_gate, ap (λ (r : Verdict × Server _). r.1.rate) no_gate ∙ noise1-rate wrapped st msg)
