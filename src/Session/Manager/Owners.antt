-- ===== src/Session/Manager/Owners.antt =====
-- Who holds which address, in every state that the server's manager can reach.
use vibe_vpn.Base.{
  ℕ, ◌≡◌, ◌≢◌, ◌<◌, refl, true, false, none, some, length, List, ok, arith, ◌⊎◌, inl, inr,
  Option-cases, ℤ, ◌∙◌, ap, Bytes, get_be,
}
use vibe_vpn.Ippkt.{parse, Header, never_panics}
use vibe_vpn.Session.Pool.{Subnet, IsSubnet, contains, release}
use vibe_vpn.Session.Manager.{Manager, drop_one, new_manager}
use vibe_vpn.Session.Manager.Adopt.{adopt, remove, register, take_over}
use vibe_vpn.Session.Manager.Invariant.{Inv, Holds, InHandshake}
use vibe_vpn.Session.Manager.Route.{View, lookup_ip, reply, tun_packet, reply_capacity}
use vibe_vpn.Session.Manager.Steps.{
  Valid, Reach, Reach-Valid, new_manager-Valid, pushed, reply-cases,
}

-- An address that the pool counts as taken has a holder.
used_holder : (m : Manager) (k : ℕ) → Inv m → m.pool.used k ≡ true → (r : ℕ) × Holds m r k
used_holder m k v e = elim (Option-cases (m.by_ip k)) [
  | inl free ↦ absurd (ground (arith, v.leased k))
  | inr (r, own) ↦ (r, v.owner k r own)
]

lookup-Holds :
    (m : Manager) (r k : ℕ)
    → Inv m
    → Holds m r k
    → lookup_ip m k ≡ some (record { sid = (m.entry r).sid; ip = some k })
unfolding lookup_ip
lookup-Holds m r k v h = ground (arith, v.owned r k h)

lookup_sound :
    (m : Manager) (k : ℕ) (view : View)
    → Inv m
    → lookup_ip m k ≡ some view
    → (r : ℕ) × Holds m r k × (view.sid ≡ (m.entry r).sid)
unfolding lookup_ip
lookup_sound m k view v e = elim (Option-cases (m.by_ip k)) [
  | inl free ↦ absurd (ground arith)
  | inr (r, own) ↦ (r, v.owner k r own, ground arith)
]

reply-Holds :
    (m : Manager) (r k : ℕ) (view : View) (pkt : Bytes)
    → Valid m
    → Holds m r k
    → view.sid ≡ (m.entry r).sid
    → length (m.entry r).reply_ch < reply_capacity
    → reply m view pkt ≡ (pushed m r pkt, true)
unfolding reply
reply-Holds m r k view pkt v h same room = ground (arith, v.index.listed r)

-- A packet goes to the channel of the one session that holds its destination, or is dropped.
abbrev pub Delivers : Manager → Bytes → Manager → Type 0
Delivers m pkt m' =
    (m' ≡ drop_one m)
    ⊎ ((h : Header) × (r : ℕ) × (parse pkt ≡ some (some h))
        × Holds m r (get_be h.dst)
        × (m' ≡ pushed m r pkt))

tun_packet-drop :
    (m m' : Manager) (pkt : Bytes)
    → parse pkt ≡ some none
    → tun_packet m pkt ≡ some m'
    → m' ≡ drop_one m
unfolding tun_packet
tun_packet-drop m m' pkt p e = ground arith

tun_packet-miss :
    (m m' : Manager) (pkt : Bytes) (h : Header)
    → parse pkt ≡ some (some h)
    → lookup_ip m (get_be h.dst) ≡ none
    → tun_packet m pkt ≡ some m'
    → m' ≡ drop_one m
unfolding tun_packet
tun_packet-miss m m' pkt h p miss e = ground arith

tun_packet-hit :
    (m : Manager) (pkt : Bytes) (h : Header) (view : View)
    → parse pkt ≡ some (some h)
    → lookup_ip m (get_be h.dst) ≡ some view
    → tun_packet m pkt ≡ some (reply m view pkt).0
unfolding tun_packet
tun_packet-hit m pkt h view p hit = ground arith

Valid-Delivers :
    (m m' : Manager) (pkt : Bytes) → Valid m → tun_packet m pkt ≡ some m' → Delivers m pkt m'
Valid-Delivers m m' pkt v e = elim (Option-cases (parse pkt)) [
  | inl bad ↦ absurd (never_panics pkt bad)
  | inr (none, p) ↦ inl (tun_packet-drop m m' pkt p e)
  | inr (some h, p) ↦ elim (Option-cases (lookup_ip m (get_be h.dst))) [
    | inl miss ↦ inl (tun_packet-miss m m' pkt h p miss e)
    | inr (view, hit) ↦
        let (r, held, same) = lookup_sound m (get_be h.dst) view v.inv hit in
        let ends : m' ≡ (reply m view pkt).0 = ground (arith, tun_packet-hit m pkt h view p hit) in
        elim (reply-cases m view pkt) [
          | inl dropped ↦ inl (ends ∙ dropped)
          | inr (q, found, put) ↦
              let at : q ≡ r = ground (arith, v.index.listed r) in
              inr (h, r, p, held, ends ∙ put ∙ ap (λ x. pushed m x pkt) at)
        ]
  ]
]

-- The state after the reconnect of the client `key`, whose session so far was `old`.
pub record Reconnected (m m' : Manager) (s old key k : ℕ) : Type 0 where
  pub was_held : Holds m old k
  pub succeeded : adopt m s key ≡ some (ok m')
  pub holds : Holds m' s k
  pub old_stops : ((m'.entry old).transferred ≡ true) × ((m'.entry old).cancelled ≡ true)
  pub current : m'.by_static key ≡ some s
  pub same_pool : m'.pool ≡ m.pool

reconnect_ip-Holds :
    (m : Manager) (s key old k : ℕ)
    → InHandshake m s
    → old ≢ s
    → Holds m old k
    → m.by_static key ≡ some old
    → (m.entry s).transferred ≡ false
    → Reconnected m (register (take_over m s old k) s key k) s old key k
unfolding adopt register take_over
reconnect_ip-Holds m s key old k h differ held was kept = record {
  was_held = held;
  succeeded = ground arith;
  holds = ground (arith, h.running);
  old_stops = ground arith;
  current = ground arith;
  same_pool = refl;
}

module _ (n : Subnet) (max : ℤ) (peers : List ℕ) (m0 m : Manager)
    (e : new_manager (some n) max peers ≡ ok m0) (h : IsSubnet n) (path : Reach m0 m) where
  reached : Valid m
  reached = Reach-Valid (new_manager-Valid n max peers m0 e h) path

  -- In every state that the manager of a well-formed subnet can reach from NewManager by critical
  -- sections in any order, no two sessions hold one address.
  pub holders_unique : (r q k : ℕ) → Holds m r k → Holds m q k → r ≡ q
  holders_unique r q k hr hq = ground (arith, reached.inv.owned r k hr, reached.inv.owned q k hq)

  -- In every reachable state no address is lost: an address that the pool counts as taken is held
  -- by a session, is one of the pool's subnet and is not the gateway's.
  pub used_held :
      (k : ℕ)
      → m.pool.used k ≡ true
      → (r : ℕ) × Holds m r k × (contains m.pool.network k ≡ true) × (k ≢ m.pool.gateway_ip)
  used_held k u =
      let (r, held) = used_holder m k reached.inv u in
      let (within, other) = reached.inv.inside k r (reached.inv.owned r k held) in
      (r, held, within, other)

  -- In every reachable state, an address that a session holds is taken in the pool, and LookupIP
  -- gives the view of that session for it.
  pub held_lookup :
      (r k : ℕ)
      → Holds m r k
      → (m.pool.used k ≡ true)
        × (lookup_ip m k ≡ some (record { sid = (m.entry r).sid; ip = some k }))
  held_lookup r k held = (
    ground (arith, reached.inv.leased k, reached.inv.owned r k held),
    lookup-Holds m r k reached.inv held,
  )

  -- In every reachable state, a packet of the TUN device goes to the channel of the one session
  -- that holds its destination, or is counted as dropped; no other channel or map changes.
  pub tun_packet_isolated :
      (m' : Manager) (pkt : Bytes) → tun_packet m pkt ≡ some m' → Delivers m pkt m'
  tun_packet_isolated m' pkt sent = Valid-Delivers m m' pkt reached sent

  -- In every reachable state, an IPv4 packet for an address that a session holds is put at the end
  -- of the channel of that session, when the channel has room.
  pub tun_packet_delivered :
      (r : ℕ) (pkt : Bytes) (hdr : Header)
      → parse pkt ≡ some (some hdr)
      → Holds m r (get_be hdr.dst)
      → length (m.entry r).reply_ch < reply_capacity
      → tun_packet m pkt ≡ some (pushed m r pkt)
  tun_packet_delivered r pkt hdr p held room =
      let view : View = record { sid = (m.entry r).sid; ip = some (get_be hdr.dst) } in
      tun_packet-hit m pkt hdr view p (lookup-Holds m r (get_be hdr.dst) reached.inv held)
      ∙ ap (λ x. some x.0) (reply-Holds m r (get_be hdr.dst) view pkt reached held refl room)

  -- In every reachable state, when a session in its handshake is adopted for a key that another
  -- session is known under, adopt succeeds: the new session holds the address of the old one and
  -- is the key's, the old one is cancelled and marked as transferred, and the pool is unchanged.
  pub adopt_reconnects :
      (s key old : ℕ)
      → InHandshake m s
      → old ≢ s
      → m.by_static key ≡ some old
      → (m' : Manager) × (k : ℕ) × Reconnected m m' s old key k
  adopt_reconnects s key old hs differ was =
      let (_, has, kept, run) = reached.inv.keyed key old was in
      elim (Option-cases (m.entry old).ip) [
        | inl bad ↦ absurd (ground arith)
        | inr (k, at) ↦ (
          register (take_over m s old k) s key k,
          k,
          reconnect_ip-Holds m s key old k hs differ (at, kept, run) was
              (reached.inv.kept s hs.no_ip),
        )
      ]

  -- In every reachable state, the end of a session gives its address back: it is free in the pool
  -- and has no entry in byIP.
  pub remove-frees :
      (s k : ℕ) → Holds m s k → ((remove m s).pool.used k ≡ false) × ((remove m s).by_ip k ≡ none)
  unfolding remove release
  remove-frees s k held = ground (arith, reached.inv.owned s k held)

  -- In every reachable state, the end of a session that has passed its address on leaves the
  -- address with its present holder: neither the pool nor byIP changes.
  pub remove-keeps :
      (s k j : ℕ)
      → (m.entry s).transferred ≡ true
      → (m.entry s).ip ≡ some k
      → ((remove m s).pool ≡ m.pool) × ((remove m s).by_ip j ≡ m.by_ip j)
  unfolding remove
  remove-keeps s k j gone at = ground (arith, reached.inv.owner k s)
