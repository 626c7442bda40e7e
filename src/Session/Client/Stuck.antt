-- ===== src/Session/Client/Stuck.antt =====
-- What the client does after a rekey that failed on it.
use vibe_vpn.Base.{ℕ, ◌+◌, ◌-◌, ◌≡◌, ◌≤◌, ap, ◌∙◌, true, some, List, [], ◌∷◌, length, Bytes, arith}
use vibe_vpn.Session.Client.{ClientEnv, Client, rekey_failed, lost, continue_rekey}
use vibe_vpn.Session.Client.Connect.{Tunnel, Attempt}
use vibe_vpn.Session.Client.Safety.{continue_rekey_failed, send_packet-lost}
use vibe_vpn.Session.Client.Run.{next, drain_packets, keepalive_tick}

-- The client after that many dropped packets.
abbrev pub dropped : {H : Type 0} → ℕ → Client H → Client H
dropped n c = record c {
  stats = record (c.stats) { packets_dropped = c.stats.packets_dropped + n };
}

module _ {H : Type 0} (env : ClientEnv H) where
  drain_packets-dropped :
      (pkts : List Bytes) (c : Client H)
      → c.rekeying ≡ true
      → drain_packets env c pkts ≡ some (dropped (length pkts) c)
  unfolding drain_packets
  drain_packets-dropped [] c on = ground arith
  drain_packets-dropped (p ∷ pkts) c on =
      ground (arith, send_packet-lost env c p on, drain_packets-dropped pkts (lost c))

  tick_idle :
      (timeout : ℕ) (rounds : List Attempt) (t : Tunnel H)
      → t.session.rekeying ≡ true
      → env.now - t.last_recv ≤ timeout
      → keepalive_tick env timeout rounds t ≡ some (next t)
  unfolding keepalive_tick
  tick_idle timeout rounds t on recent = ground arith

  -- When a rekey that is under way fails on the client, it stays under way. In the state that this
  -- leaves, each packet that the TUN device gives, however many they are, is dropped and counted,
  -- and a keepalive tick within the session timeout changes nothing: it sends no keepalive and
  -- begins no other rekey.
  pub continue_rekey_stuck :
      (c c' : Client H) (h : H) (msg : Bytes) (pkts : List Bytes) (timeout : ℕ)
      (rounds : List Attempt) (t : Tunnel H)
      → c.rekeying ≡ true
      → continue_rekey env c h msg ≡ some (rekey_failed, c')
      → t.session ≡ c'
      → env.now - t.last_recv ≤ timeout
      → (c'.rekeying ≡ true)
        × (drain_packets env c' pkts ≡ some (dropped (length pkts) c'))
        × (keepalive_tick env timeout rounds t ≡ some (next t))
  continue_rekey_stuck c c' h msg pkts timeout rounds t on e same recent =
      let still = continue_rekey_failed env c c' h msg on e in
      (
        still,
        drain_packets-dropped pkts c' still,
        tick_idle timeout rounds t (ap (λ (x : Client H). x.rekeying) same ∙ still) recent,
      )
