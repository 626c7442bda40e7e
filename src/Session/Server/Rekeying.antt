-- ===== src/Session/Server/Rekeying.antt =====
-- How a session of the server gets its keys, changes them, and ends.
use vibe_vpn.Base.{
  ℕ, ◌-◌, ◌≡◌, ◌≤◌, true, false, Option, none, some, Bytes, ok, err, arith, refl, ◌⊎◌, inl, inr,
  Option-cases, Bool-cases,
}
use vibe_vpn.Session.Keys.{Keys, Error, new_keys, open_wire}
use vibe_vpn.Session.Keys.Open.{open_wire_err}
use vibe_vpn.Session.Noise.{Ciphers}
use vibe_vpn.Session.Manager.{Manager}
use vibe_vpn.Session.Manager.Adopt.{adopt, allow_peer, set_client_key}
use vibe_vpn.Session.Server.{Env, Server, Verdict, go_on, own, drop_packet, handshake3, admit}
use vibe_vpn.Session.Server.Deliver.{handshake1-Keeps}
use vibe_vpn.Session.Server.Handle.{
  handle, opened, rekey3, finish_rekey, switch_keys, is_key, tick, has_keys,
}

is_key_sound : (a b : Option ℕ) → is_key a b ≡ true → a ≡ b
is_key_sound none none e = refl
is_key_sound (some a) (some b) e = ground arith
is_key_sound none (some b) e = absurd (ground arith)
is_key_sound (some a) none e = absurd (ground arith)

module _ {H : Type 0} (env : Env H) where
  -- After the handshake, a datagram that does not open (it was not sealed under the session's key,
  -- is too short or is a replay) only adds to the count of dropped packets.
  pub handle_unopened :
      (st : Server H) (msg : Bytes) (k k1 : Keys) (why : Error)
      → st.session.keys ≡ some k
      → open_wire k msg ≡ some (err why, k1)
      → handle env st msg ≡ some (go_on, drop_packet st)
  unfolding handle opened
  handle_unopened st msg k k1 why has o = ground (arith, open_wire_err k k1 msg why o)

  -- The rekey handshake that the datagram finished, with the client of the session.
  pub record Rekeyed (st st' : Server H) (msg : Bytes) : Type 0 where
    pub before : H
    pub after : H
    pub payload : Bytes
    pub ciphers : Ciphers
    pub in_rekey : (st.session.rekeying ≡ true) × (st.session.rekey_hs ≡ some before)
    pub reads : env.noise.read before msg ≡ some (payload, some ciphers, after)
    pub same_client : env.noise.peer_static after ≡ (own st).client_key
    pub new : st'.session.keys ≡ some (new_keys false ciphers.c2s ciphers.s2c)
    pub over : (st'.session.rekeying ≡ false) × (st'.session.rekey_hs ≡ none)

  finish_rekey-keys :
      (st st' : Server H) (msg : Bytes) (h : H)
      → st.session.rekeying ≡ true
      → st.session.rekey_hs ≡ some h
      → finish_rekey env st msg h ≡ some st'
      → (st'.session.keys ≡ st.session.keys) ⊎ Rekeyed st st' msg
  unfolding finish_rekey switch_keys
  finish_rekey-keys st st' msg h on has e = elim (Option-cases (env.noise.read h msg)) [
    | inl closed ↦ inl (ground arith)
    | inr ((pt, c?, h1), r) ↦
        elim (Bool-cases (is_key (env.noise.peer_static h1) (own st).client_key)) [
          | inr other ↦ inl (ground arith)
          | inl same ↦ elim (Option-cases c?) [
            | inl missing ↦ absurd (ground arith)
            | inr (c, complete) ↦ inr (record {
              before = h;
              after = h1;
              payload = pt;
              ciphers = c;
              in_rekey = (on, has);
              reads = ground arith;
              same_client = is_key_sound _ _ same;
              new = ground arith;
              over = ground arith;
            })
          ]
        ]
  ]

  -- A third rekey message changes the keys only when a rekey is under way, its handshake accepts
  -- the message and the client is the one that the session belongs to; then the rekey is over.
  -- In every other case the old keys stay in effect.
  pub rekey3-keys :
      (st st' : Server H) (msg : Bytes)
      → rekey3 env st msg ≡ some st'
      → (st'.session.keys ≡ st.session.keys) ⊎ Rekeyed st st' msg
  unfolding rekey3
  rekey3-keys st st' msg e = elim (Option-cases st.session.rekey_hs) [
    | inl nothing ↦ inl (ground arith)
    | inr (h, has) ↦ elim (Bool-cases st.session.rekeying) [
      | inl on ↦ finish_rekey-keys st st' msg h on has (ground arith)
      | inr off ↦ inl (ground arith)
    ]
  ]

  -- The handshake that gave a session its first keys: the client's key is allowed, and the manager
  -- adopted the session under it.
  pub record Authenticated (st : Server H) (msg : Bytes) : Type 0 where
    pub before : H
    pub after : H
    pub payload : Bytes
    pub ciphers : Ciphers
    pub key : ℕ
    pub mgr : Manager
    pub in_handshake : st.session.hs ≡ some before
    pub reads : env.noise.read before msg ≡ some (payload, some ciphers, after)
    pub named : env.noise.peer_static after ≡ some key
    pub allowed : allow_peer (set_client_key st.mgr st.session.self key) key ≡ true
    pub adopted :
        adopt (set_client_key st.mgr st.session.self key) st.session.self key ≡ some (ok mgr)

  admit-keys :
      (st st' : Server H) (key : ℕ) (c : Ciphers) (v : Verdict) (k : Keys)
      → admit env st key c ≡ some (v, st')
      → st.session.keys ≡ none
      → st'.session.keys ≡ some k
      → (mgr : Manager) × (allow_peer (set_client_key st.mgr st.session.self key) key ≡ true)
        × (adopt (set_client_key st.mgr st.session.self key) st.session.self key ≡ some (ok mgr))
  unfolding admit
  admit-keys st st' key c v k e before has =
      let m : Manager = set_client_key st.mgr st.session.self key in
      elim (Bool-cases (allow_peer m key)) [
        | inr refused ↦ absurd (ground arith)
        | inl allowed ↦ elim (Option-cases (adopt m st.session.self key)) [
          | inl bad ↦ absurd (ground arith)
          | inr (err why, full) ↦ absurd (ground arith)
          | inr (ok mgr, done) ↦ (mgr, allowed, done)
        ]
      ]

  handshake3-keys :
      (st st' : Server H) (h : H) (msg : Bytes) (v : Verdict) (k : Keys)
      → handshake3 env st h msg ≡ some (v, st')
      → st.session.hs ≡ some h
      → st.session.keys ≡ none
      → st'.session.keys ≡ some k
      → Authenticated st msg
  unfolding handshake3
  handshake3-keys st st' h msg v k e is before has = elim (Option-cases (env.noise.read h msg)) [
    | inl closed ↦ absurd (ground arith)
    | inr ((pt, none, h1), r) ↦ absurd (ground arith)
    | inr ((pt, some c, h1), r) ↦ elim (Option-cases (env.noise.peer_static h1)) [
      | inl bad ↦ absurd (ground arith)
      | inr (key, named) ↦
          let st1 : Server H = record st { session = record (st.session) { hs = some h1 } } in
          let (mgr, allowed, adopted) = admit-keys st1 st' key c v k (ground arith) before has in
          record {
            before = h;
            after = h1;
            payload = pt;
            ciphers = c;
            key = key;
            mgr = mgr;
            in_handshake = is;
            reads = r;
            named = named;
            allowed = allowed;
            adopted = adopted;
          }
    ]
  ]

  -- A session that had no keys has some after a datagram only when that was the last message of a
  -- handshake under way, the client's key is allowed, and the manager adopted the session for it.
  pub handle_authenticates :
      (st st' : Server H) (msg : Bytes) (v : Verdict) (k : Keys)
      → st.session.keys ≡ none
      → handle env st msg ≡ some (v, st')
      → st'.session.keys ≡ some k
      → Authenticated st msg
  unfolding handle
  handle_authenticates st st' msg v k before e has = elim (Option-cases st.session.hs) [
    | inl new ↦ absurd (ground (arith, handshake1-Keeps env st msg))
    | inr (h, is) ↦ handshake3-keys st st' h msg v k (ground arith) is before has
  ]

  -- The server goes on after a tick only with a session that has keys or is within the time for
  -- its handshake, that has received something within the session timeout, and whose rekey, if it
  -- still has one, is within the time for a handshake.
  pub tick-timeouts :
      (st st' : Server H)
      → tick env st ≡ some (true, st')
      → ((has_keys env st'.session.keys ≡ true)
          ⊎ (env.now - st'.session.created ≤ env.handshake_timeout))
        × (env.now - st'.session.last_recv ≤ env.session_timeout)
        × ((st'.session.rekeying ≡ false)
            ⊎ (env.now - st'.session.rekey_start ≤ env.handshake_timeout))
  unfolding tick
  tick-timeouts st st' e = ground arith
