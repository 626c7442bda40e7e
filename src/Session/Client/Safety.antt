-- ===== src/Session/Client/Safety.antt =====
-- What a datagram can put on the client's TUN device, and a rekey that fails.
use vibe_vpn.Base.{
  ℕ, ◌^◌, ◌≡◌, ◌<◌, ◌≤◌, Bool, true, false, none, some, length, [], ◌∷◌, ◌++◌, Bytes, ok, err,
  arith, ◌⊎◌, inl, inr, Option-cases, Bool-cases, get_be-put_u32,
}
use vibe_vpn.Wire.{msg_data, is_rekey}
use vibe_vpn.Framing.{Frame}
use vibe_vpn.Session.Keys.{Keys, Error, open_wire}
use vibe_vpn.Session.Keys.Open.{open_wire_total}
use vibe_vpn.Session.Noise.{Ciphers}
use vibe_vpn.Session.Cookie.{bytes_eq, bytes_eq_sound}
use vibe_vpn.Session.Server.{assign_payload}
use vibe_vpn.Session.Client.{
  ClientEnv, Client, Reply, fine, rekey_failed, lost, is_ipv4, parse_assign, client_transmit,
  client_encrypt_with, client_encrypt_send, client_handle_data, send_packet, change_keys,
  continue_rekey, rekey2, client_dispatch, client_opened, handle_frame,
}

-- The client reads from the assignment what the server put into it.
pub parse_assign-assign_payload :
    (prefix ip gw : ℕ)
    → prefix ≤ 32
    → ip < 2 ^ 32
    → gw < 2 ^ 32
    → parse_assign (assign_payload prefix (some ip) gw) ≡ some (some (prefix, ip, gw))
unfolding parse_assign assign_payload
parse_assign-assign_payload prefix ip gw hp hi hg =
    ground (arith, get_be-put_u32 ip hi, get_be-put_u32 gw hg)

module _ {H : Type 0} (env : ClientEnv H) where
  -- What a step of the rekey leaves alone.
  encrypt-kept :
      (c c' : Client H) (typ : ℕ) (pt : Bytes) (b : Bool)
      → client_encrypt_send env c typ pt ≡ some (b, c')
      → (c'.delivered ≡ c.delivered) × (c'.rekeying ≡ c.rekeying)
  unfolding client_encrypt_send client_encrypt_with client_transmit
  encrypt-kept c c' typ pt b e = ground arith

  change_keys-kept :
      (c c' : Client H) (m3 : Bytes) (ciphers : Ciphers) (r : Reply)
      → change_keys env c m3 ciphers ≡ some (r, c')
      → (c'.delivered ≡ c.delivered) × ((r ≡ fine) ⊎ (c'.rekeying ≡ c.rekeying))
  unfolding change_keys
  change_keys-kept c c' m3 ciphers r e = elim (Option-cases (client_encrypt_send env c 9 m3)) [
    | inl bad ↦ absurd (ground arith)
    | inr ((true, c1), sent) ↦ ground (arith, encrypt-kept c c1 9 m3 true sent)
    | inr ((false, c1), sent) ↦ ground (arith, encrypt-kept c c1 9 m3 false sent)
  ]

  continue_rekey-kept :
      (c c' : Client H) (h : H) (msg : Bytes) (r : Reply)
      → continue_rekey env c h msg ≡ some (r, c')
      → (c'.delivered ≡ c.delivered) × ((r ≡ fine) ⊎ (c'.rekeying ≡ c.rekeying))
  unfolding continue_rekey
  continue_rekey-kept c c' h msg r e = elim (Option-cases (env.noise.read h msg)) [
    | inl bad ↦ ground arith
    | inr ((pt, cs, h1), read) ↦ elim (Option-cases (env.noise.write h1 [])) [
      | inl bad ↦ ground arith
      | inr ((m3, none, h2), wrote) ↦ ground arith
      | inr ((m3, some cs2, h2), wrote) ↦
          let c1 : Client H = record c { rekey_hs = some h2 } in
          ground (arith, change_keys-kept c1 c' m3 cs2 r)
    ]
  ]

  pub continue_rekey_failed :
      (c c' : Client H) (h : H) (msg : Bytes)
      → c.rekeying ≡ true
      → continue_rekey env c h msg ≡ some (rekey_failed, c')
      → c'.rekeying ≡ true
  continue_rekey_failed c c' h msg on e =
      ground (arith, continue_rekey-kept c c' h msg rekey_failed e)

  pub send_packet-lost :
      (c : Client H) (pkt : Bytes) → c.rekeying ≡ true → send_packet env c pkt ≡ some (lost c)
  unfolding send_packet client_encrypt_send is_rekey
  send_packet-lost c pkt on = ground arith

  -- The frame behind a packet that went to the client's TUN device.
  pub record ClientDelivered (c c' : Client H) (msg : Bytes) : Type 0 where
    pub keys : Keys
    pub next : Keys
    pub frame : Frame
    pub keyed : c.keys ≡ some keys
    pub opens : open_wire keys msg ≡ some (ok frame, next)
    pub tagged : frame.tag ≡ c.tag
    pub is_data : frame.type ≡ msg_data
    pub fits : length frame.payload ≤ env.mtu
    pub ipv4 : is_ipv4 frame.payload ≡ true
    pub out : c'.delivered ≡ c.delivered ++ (frame.payload ∷ [])

  handle_data-kept :
      (c : Client H) (pt : Bytes)
      → ((client_handle_data env c pt).delivered ≡ c.delivered)
        ⊎ ((length pt ≤ env.mtu)
            × (is_ipv4 pt ≡ true)
            × ((client_handle_data env c pt).delivered ≡ c.delivered ++ (pt ∷ [])))
  unfolding client_handle_data
  handle_data-kept c pt = ground arith

  dispatch-kept :
      (c c' : Client H) (f : Frame) (r : Reply)
      → client_dispatch env c f ≡ some (r, c')
      → (c'.delivered ≡ c.delivered)
        ⊎ ((f.type ≡ msg_data)
            × (length f.payload ≤ env.mtu)
            × (is_ipv4 f.payload ≡ true)
            × (c'.delivered ≡ c.delivered ++ (f.payload ∷ [])))
  unfolding client_dispatch rekey2
  dispatch-kept c c' f r e = elim (Option-cases c.rekey_hs) [
    | inl nothing ↦ ground (arith, handle_data-kept c f.payload)
    | inr (h, has) ↦
        ground (arith, handle_data-kept c f.payload, continue_rekey-kept c c' h f.payload r)
  ]

  opened-kept :
      (c c' : Client H) (msg : Bytes) (r : Reply) (k k1 : Keys) (f : Frame)
      → c.keys ≡ some k
      → open_wire k msg ≡ some (ok f, k1)
      → client_opened env c (ok f, k1) ≡ some (r, c')
      → (c'.delivered ≡ c.delivered) ⊎ ClientDelivered c c' msg
  unfolding client_opened
  opened-kept c c' msg r k k1 f has o e = elim (Bool-cases (bytes_eq f.tag c.tag)) [
    | inr wrong ↦ inl (ground arith)
    | inl right ↦
        let c1 : Client H = record c { keys = some k1 } in
        elim (dispatch-kept c1 c' f r (ground arith)) [
          | inl nothing ↦ inl nothing
          | inr (typ, small, v4, out) ↦ inr (record {
            keys = k;
            next = k1;
            frame = f;
            keyed = has;
            opens = o;
            tagged = bytes_eq_sound f.tag c.tag right;
            is_data = typ;
            fits = small;
            ipv4 = v4;
            out = out;
          })
        ]
  ]

  opened_err-kept :
      (c c' : Client H) (r : Reply) (k1 : Keys) (why : Error)
      → client_opened env c (err why, k1) ≡ some (r, c')
      → c'.delivered ≡ c.delivered
  unfolding client_opened
  opened_err-kept c c' r k1 why e = ground arith

  -- Whatever datagram arrives at the client: nothing goes to its TUN device, or the datagram is a
  -- data frame that opens under the client's keys and bears its tag, and its payload, which is not
  -- longer than the MTU and starts like an IPv4 packet, is the one packet that goes there.
  pub handle_frame-delivered :
      (c c' : Client H) (msg : Bytes) (r : Reply)
      → handle_frame env c msg ≡ some (r, c')
      → (c'.delivered ≡ c.delivered) ⊎ ClientDelivered c c' msg
  unfolding handle_frame
  handle_frame-delivered c c' msg r e = elim (Option-cases c.keys) [
    | inl no_keys ↦ inl (ground arith)
    | inr (k, has) ↦ elim (Option-cases (open_wire k msg)) [
      | inl bad ↦ absurd (open_wire_total k msg bad)
      | inr ((ok f, k1), o) ↦ opened-kept c c' msg r k k1 f has o (ground arith)
      | inr ((err why, k1), o) ↦ inl (ground (arith, opened_err-kept c c' r k1 why))
    ]
  ]
