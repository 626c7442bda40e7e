-- ===== src/Session/Client/Trusted.antt =====
-- Where the client's keys come from, over the whole of `Run`, and with them the packets that reach
-- its TUN device.
use vibe_vpn.Base.{
  ℕ, ◌+◌, ◌%◌, ◌^◌, ◌≡◌, refl, ap, ◌∙◌, Bool, true, false, Option, none, some, [], length, Bytes,
  Result, ok, err, arith, Option-cases, Bool-cases, inl, inr, ◌⊎◌,
}
use vibe_vpn.Base.Panic.{◌>>=◌}
use vibe_vpn.Aead.{Aead}
use vibe_vpn.Wire.{msg_data, msg_rekey1}
use vibe_vpn.Framing
use vibe_vpn.Framing.{Frame, inner_header_len}
use vibe_vpn.Framing.Shaping.{padding_for}
use vibe_vpn.Session.Keys.{Keys, Error, new_keys, open_wire, seal}
use vibe_vpn.Session.Keys.Open.{open_wire_total, open_wire_err, open_wire_ok}
use vibe_vpn.Session.Noise.{Noise, Ciphers}
use vibe_vpn.Session.Client.{
  ClientEnv, Client, Reply, client_transmit, client_encrypt_with, client_encrypt_send,
  client_handle_data, send_packet, start_rekey, maybe_rekey, change_keys, continue_rekey, rekey2,
  client_dispatch, client_opened, handle_frame,
}
use vibe_vpn.Session.Cookie.{bytes_eq}

-- The cipher of the other side.
abbrev pub recv_of : Option Keys → Option Aead
recv_of none = none
recv_of (some k) = some k.recv_aead

-- A cipher that a finished handshake of `noise` gave for what the server sends.
pub record FromHandshake {H : Type 0} (noise : Noise H) (a : Aead) : Type 0 where
  pub last : H
  pub message : Bytes
  pub over : H
  pub ciphers : Ciphers
  pub wrote : noise.write last [] ≡ some (message, some ciphers, over)
  pub is_cipher : a ≡ ciphers.s2c

pub seal-recv :
    (k k1 : Keys) (nonce tag payload padding wire : Bytes) (typ seq : ℕ)
    → seal k nonce tag typ payload padding ≡ some (wire, seq, k1)
    → k1.recv_aead ≡ k.recv_aead
unfolding seal
seal-recv k k1 nonce tag payload padding wire typ seq e =
    elim (Option-cases
      (Framing.seal k.send_aead nonce tag typ (k.send_seq % 2 ^ 32) payload padding)) [
        | inl bad ↦ absurd (ground arith)
        | inr (w, sealed) ↦ ground arith
      ]

module _ {H : Type 0} (env : ClientEnv H) where
  pub encrypt-recv :
      (c c' : Client H) (typ : ℕ) (pt : Bytes) (b : Bool)
      → client_encrypt_send env c typ pt ≡ some (b, c')
      → (recv_of c'.keys ≡ recv_of c.keys) × (c'.delivered ≡ c.delivered)
  unfolding client_encrypt_send client_encrypt_with client_transmit
  encrypt-recv c c' typ pt b e = elim (Option-cases c.keys) [
    | inl no_keys ↦ ground arith
    | inr (k, has) ↦
        let n = (padding_for env.shaping (inner_header_len + length pt) env.rng).0 in
        elim (Option-cases (seal k env.nonce c.tag typ pt (env.random n))) [
          | inl bad ↦ ground arith
          | inr ((wire, seq, k1), sealed) ↦
              ground (arith, seal-recv k k1 env.nonce c.tag pt (env.random n) wire typ seq sealed)
        ]
  ]

  -- Either the cipher stays, or a handshake that has just finished gave it.
  abbrev pub Kept : Client H → Client H → Type 0
  Kept c c' =
      (recv_of c'.keys ≡ recv_of c.keys)
      ⊎ ((a : Aead) × (recv_of c'.keys ≡ some a) × FromHandshake env.noise a)

  change_keys-recv :
      (c c' : Client H) (h h' : H) (m3 : Bytes) (cs : Ciphers) (r : Reply)
      → env.noise.write h [] ≡ some (m3, some cs, h')
      → change_keys env c m3 cs ≡ some (r, c')
      → Kept c c'
  unfolding change_keys new_keys
  change_keys-recv c c' h h' m3 cs r w e = elim (Option-cases (client_encrypt_send env c 9 m3)) [
    | inl bad ↦ absurd (ground arith)
    | inr ((true, c1), sent) ↦ inr (
      cs.s2c,
      ground arith,
      record { last = h; message = m3; over = h'; ciphers = cs; wrote = w; is_cipher = refl },
    )
    | inr ((false, c1), sent) ↦ inl (ground (arith, encrypt-recv c c1 9 m3 false sent))
  ]

  continue_rekey-recv :
      (c c' : Client H) (h : H) (msg : Bytes) (r : Reply)
      → continue_rekey env c h msg ≡ some (r, c')
      → Kept c c'
  unfolding continue_rekey
  continue_rekey-recv c c' h msg r e = elim (Option-cases (env.noise.read h msg)) [
    | inl bad ↦ inl (ground arith)
    | inr ((pt, cs, h1), read) ↦ elim (Option-cases (env.noise.write h1 [])) [
      | inl bad ↦ inl (ground arith)
      | inr ((m3, none, h2), wrote) ↦ inl (ground arith)
      | inr ((m3, some cs2, h2), wrote) ↦
          change_keys-recv (record c { rekey_hs = some h2 }) c' h1 h2 m3 cs2 r wrote (ground arith)
    ]
  ]

  handle_data-recv : (c : Client H) (pt : Bytes) → (client_handle_data env c pt).keys ≡ c.keys
  unfolding client_handle_data
  handle_data-recv c pt = ground arith

  rekey2-recv :
      (c c' : Client H) (msg : Bytes) (r : Reply) → rekey2 env c msg ≡ some (r, c') → Kept c c'
  unfolding rekey2
  rekey2-recv c c' msg r e = elim (Bool-cases c.rekeying) [
    | inr calm ↦ inl (ground arith)
    | inl going ↦ elim (Option-cases c.rekey_hs) [
      | inl bad ↦ absurd (ground arith)
      | inr (h, has) ↦ continue_rekey-recv c c' h msg r (ground arith)
    ]
  ]

  dispatch-cases :
      (c c' : Client H) (f : Frame) (r : Reply)
      → client_dispatch env c f ≡ some (r, c')
      → (c'.keys ≡ c.keys) ⊎ (rekey2 env c f.payload ≡ some (r, c'))
  unfolding client_dispatch
  dispatch-cases c c' f r e = ground (arith, handle_data-recv c f.payload)

  dispatch-recv :
      (c c' : Client H) (f : Frame) (r : Reply) → client_dispatch env c f ≡ some (r, c') → Kept c c'
  dispatch-recv c c' f r e = elim (dispatch-cases c c' f r e) [
    | inl same ↦ inl (ap recv_of same)
    | inr going ↦ rekey2-recv c c' f.payload r going
  ]

  opened-recv :
      (c c' : Client H) (k k1 : Keys) (msg : Bytes) (result : Result Error Frame) (r : Reply)
      → c.keys ≡ some k
      → open_wire k msg ≡ some (result, k1)
      → client_opened env c (result, k1) ≡ some (r, c')
      → Kept c c'
  unfolding client_opened
  opened-recv c c' k k1 msg (err why) r has o e = inl (ground (arith, open_wire_err k k1 msg why o))
  opened-recv c c' k k1 msg (ok f) r has o e =
      let (_, _, after) = open_wire_ok k k1 msg f o in
      let same : recv_of (some k1) ≡ recv_of c.keys = ground arith in
      elim (Bool-cases (bytes_eq f.tag c.tag)) [
        | inr wrong ↦ inl (ground arith)
        | inl right ↦ elim (dispatch-recv (record c { keys = some k1 }) c' f r (ground arith)) [
          | inl kept ↦ inl (kept ∙ same)
          | inr fresh ↦ inr fresh
        ]
      ]

  pub handle_frame-recv :
      (c c' : Client H) (msg : Bytes) (r : Reply)
      → handle_frame env c msg ≡ some (r, c')
      → Kept c c'
  unfolding handle_frame
  handle_frame-recv c c' msg r e = elim (Option-cases c.keys) [
    | inl no_keys ↦ inl (ground arith)
    | inr (k, has) ↦ elim (Option-cases (open_wire k msg)) [
      | inl bad ↦ absurd (open_wire_total k msg bad)
      | inr ((result, k1), o) ↦ opened-recv c c' k k1 msg result r has o (ground arith)
    ]
  ]

  -- Sending never changes the cipher, nor what was delivered.
  abbrev pub Same : Client H → Client H → Type 0
  Same c c' = (recv_of c'.keys ≡ recv_of c.keys) × (c'.delivered ≡ c.delivered)

  pub send_packet-Same :
      (c c' : Client H) (pkt : Bytes) → send_packet env c pkt ≡ some c' → Same c c'
  unfolding send_packet
  send_packet-Same c c' pkt e = elim (Option-cases (client_encrypt_send env c msg_data pkt)) [
    | inl bad ↦ ground arith
    | inr ((b, c1), sent) ↦ ground (arith, encrypt-recv c c1 msg_data pkt b sent)
  ]

  start_rekey-Same : (c c' : Client H) → start_rekey env c ≡ some c' → Same c c'
  unfolding start_rekey
  start_rekey-Same c c' e =
      elim (Option-cases (env.noise.new_client >>= λ h. env.noise.write h [])) [
        | inl bad ↦ ground arith
        | inr ((m1, cs, h), wrote) ↦ elim (Option-cases (client_encrypt_send env c msg_rekey1 m1)) [
          | inl bad ↦ absurd (ground arith)
          | inr ((b, c1), sent) ↦ ground (arith, encrypt-recv c c1 msg_rekey1 m1 b sent)
        ]
      ]

  pub maybe_rekey-Same : (c c' : Client H) → maybe_rekey env c ≡ some c' → Same c c'
  unfolding maybe_rekey
  maybe_rekey-Same c c' e = ground (arith, start_rekey-Same c c')
