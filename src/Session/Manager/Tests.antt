-- ===== src/Session/Manager/Tests.antt =====
-- A server on 10.8.0.0/24 with a session that has an address, and a second one of the same client.
use vibe_vpn.Base.{
  ℕ, ◌+◌, ◌*◌, ◌^◌, ◌≡◌, ◌≢◌, ◌<◌, refl, true, false, none, some, ok, arith, pos, List, [], ◌∷◌,
  ◌-◌, Bytes, get_be, length,
}
use vibe_vpn.Ippkt.{Header, parse}
use vibe_vpn.Session.Pool.{
  Subnet, IsSubnet, new_ip_pool, update, gateway, contains, hosts, scan, alloc,
}
use vibe_vpn.Session.Manager.{
  Manager, new_manager, begin_transport, insert_session, alloc_id, find, admitted, no_entry,
}
use vibe_vpn.Session.Manager.Adopt.{adopt, set_client_key, register, set_ip, take_over}
use vibe_vpn.Session.Manager.Invariant.{Holds, InHandshake}
use vibe_vpn.Session.Manager.Steps.{begins, inserts, identifies, adopts, Reach, here, next, pushed}
use vibe_vpn.Session.Manager.Route.{tun_packet, reply_capacity}
use vibe_vpn.Session.Manager.Owners.{
  holders_unique, used_held, tun_packet_isolated, tun_packet_delivered, adopt_reconnects, Delivers,
  Reconnected,
}
use vibe_vpn.Session.Manager.Ids.{is_id, alloc_id_total}

abbrev base : ℕ
base = 10 * 2 ^ 24 + 8 * 2 ^ 16

abbrev net : Subnet
net = record { ip = base; ones = 24 }

net-IsSubnet : IsSubnet net
net-IsSubnet = record { word = omega arith; prefix = omega arith; masked = refl }

abbrev m0 : Manager
m0 = record {
  max_sessions = 1024;
  gw = base + 1;
  prefix = 24;
  by_id = [];
  by_ip = λ ip. none;
  by_static = λ key. none;
  next_id = 0;
  pool = record { network = net; gateway_ip = base + 1; used = λ ip. false };
  peers = [];
  stats = record { sessions = pos 0; sessions_total = 0; dropped = 0; handshakes = 0 };
  entry = λ r. no_entry;
  next_ref = 0;
}

starts : new_manager (some net) (pos 0) [] ≡ ok m0
unfolding new_manager new_ip_pool gateway
starts = refl

abbrev m1 : Manager
m1 = record m0 { next_id = 1 }

abbrev m2 : Manager
m2 = (insert_session m1 1).1

abbrev m3 : Manager
m3 = set_client_key m2 0 77

abbrev m4 : Manager
m4 =
    register
      (set_ip (record m3 { pool = record m0.pool { used = update m0.pool.used (base + 2) true } }) 0
        (base + 2))
      0 77 (base + 2)

admits : begin_transport m0 ≡ some (admitted 1, m1)
unfolding begin_transport alloc_id
admits = refl

known : 0 < m2.next_ref
unfolding insert_session
known = omega arith

shakes : InHandshake m3 0
unfolding set_client_key insert_session
shakes = record { running = refl; no_ip = refl }

shakes_before : InHandshake m2 0
unfolding insert_session
shakes_before = record { running = refl; no_ip = refl }

known3 : 0 < m3.next_ref
unfolding set_client_key insert_session
known3 = omega arith

named : (m3.entry 0).client_key ≡ some 77
unfolding set_client_key insert_session
named = refl

adopted : adopt m3 0 77 ≡ some (ok m4)
unfolding adopt set_client_key insert_session alloc scan hosts
adopted = refl

path : Reach m0 m4
path =
    next
      (next (next (next here (begins m1 (admitted 1) admits)) (inserts 1 refl))
        (identifies 0 77 known shakes_before))
      (adopts m4 0 77 known3 shakes named adopted)

held : Holds m4 0 (base + 2)
unfolding register set_ip set_client_key insert_session
held = (refl, refl, refl)

holders_unique_example : ◌≡◌ {A = ℕ} 0 0
holders_unique_example =
    holders_unique net (pos 0) [] m0 m4 starts net-IsSubnet path 0 0 (base + 2) held held

taken : m4.pool.used (base + 2) ≡ true
unfolding register set_ip
taken = refl

used_held_example :
    (r : ℕ) × Holds m4 r (base + 2)
    × (contains m4.pool.network (base + 2) ≡ true)
    × (base + 2 ≢ m4.pool.gateway_ip)
used_held_example = used_held net (pos 0) [] m0 m4 starts net-IsSubnet path (base + 2) taken

abbrev packet : Bytes
packet = 0x45 ∷ 0 ∷ 0 ∷ 20 ∷ 0 ∷ 0 ∷ 0 ∷ 0 ∷ 64 ∷ 17 ∷ 0 ∷ 0 ∷ 1 ∷ 1 ∷ 1 ∷ 1 ∷ 10 ∷ 8 ∷ 0 ∷ 2 ∷ []

abbrev header : Header
header = record { src = 1 ∷ 1 ∷ 1 ∷ 1 ∷ []; dst = 10 ∷ 8 ∷ 0 ∷ 2 ∷ [] }

parsed : parse packet ≡ some (some header)
unfolding parse get_be
parsed = refl

held_dst : Holds m4 0 (get_be header.dst)
unfolding register set_ip set_client_key insert_session get_be
held_dst = (refl, refl, refl)

room : length (m4.entry 0).reply_ch < reply_capacity
unfolding register set_ip set_client_key insert_session
room = omega arith

tun_packet_delivered_example : tun_packet m4 packet ≡ some (pushed m4 0 packet)
tun_packet_delivered_example =
    tun_packet_delivered net (pos 0) [] m0 m4 starts net-IsSubnet path 0 packet header parsed
      held_dst room

tun_packet_isolated_example : Delivers m4 packet (pushed m4 0 packet)
tun_packet_isolated_example =
    tun_packet_isolated net (pos 0) [] m0 m4 starts net-IsSubnet path (pushed m4 0 packet) packet
      tun_packet_delivered_example

-- The client comes back while its first session is still there.
abbrev m5 : Manager
m5 = record m4 { next_id = 2 }

abbrev m6 : Manager
m6 = (insert_session m5 2).1

abbrev m7 : Manager
m7 = set_client_key m6 1 77

admits_again : begin_transport m4 ≡ some (admitted 2, m5)
unfolding begin_transport alloc_id register set_ip set_client_key insert_session
admits_again = refl

free2 : find m5.by_id 2 ≡ none
unfolding register set_ip set_client_key insert_session
free2 = refl

known6 : 1 < m6.next_ref
unfolding register set_ip set_client_key insert_session
known6 = omega arith

shakes6 : InHandshake m6 1
unfolding register set_ip set_client_key insert_session
shakes6 = record { running = refl; no_ip = refl }

shakes7 : InHandshake m7 1
unfolding register set_ip set_client_key insert_session
shakes7 = record { running = refl; no_ip = refl }

path7 : Reach m0 m7
path7 =
    next (next (next path (begins m5 (admitted 2) admits_again)) (inserts 2 free2))
      (identifies 1 77 known6 shakes6)

was : m7.by_static 77 ≡ some 0
unfolding register set_ip set_client_key insert_session
was = refl

adopt_reconnects_example : (m' : Manager) × (k : ℕ) × Reconnected m7 m' 1 0 77 k
adopt_reconnects_example =
    adopt_reconnects net (pos 0) [] m0 m7 starts net-IsSubnet path7 1 77 0 shakes7 (ground arith)
      was

-- The old session ends after that, and the address stays with the new one.
abbrev m8 : Manager
m8 = register (take_over m7 1 0 (base + 2)) 1 77 (base + 2)

known7 : 1 < m7.next_ref
unfolding register set_ip set_client_key insert_session
known7 = omega arith

named7 : (m7.entry 1).client_key ≡ some 77
unfolding register set_ip set_client_key insert_session
named7 = refl

adopted_again : adopt m7 1 77 ≡ some (ok m8)
unfolding adopt register set_ip set_client_key insert_session
adopted_again = refl

path8 : Reach m0 m8
path8 = next path7 (adopts m8 1 77 known7 shakes7 named7 adopted_again)

passed_on : ((m8.entry 0).transferred ≡ true) × ((m8.entry 0).ip ≡ some (base + 2))
unfolding take_over register set_ip set_client_key insert_session
passed_on = (refl, refl)

-- The counter wraps around, and the first three ids are taken.
abbrev three_ids : List (ℕ × ℕ)
three_ids = (1, 0) ∷ (2, 1) ∷ (3, 2) ∷ []

alloc_id_total_example :
    (j : ℕ) × (alloc_id (length three_ids + 1) three_ids (2 ^ 32 - 1) ≡ some j)
    × (find three_ids j ≡ none)
    × (is_id j ≡ true)
alloc_id_total_example = alloc_id_total three_ids (2 ^ 32 - 1) (omega arith) (omega arith)
