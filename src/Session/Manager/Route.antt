-- ===== src/Session/Manager/Route.antt =====
-- The data plane of the server: `LookupIP`, `Reply` and the body of `TunLoop`, with `Active` and
-- `CloseAll`. `WritePacket` of the capture file has no part in it.
use vibe_vpn.Base.{
  ℕ, Bool, true, false, Option, none, some, if◌then◌else◌, ltb, length, List, [], ◌∷◌, ◌++◌, Bytes,
  get_be,
}
use vibe_vpn.Base.Panic.{◌>>=◌}
use vibe_vpn.Ippkt.{parse, Header}
use vibe_vpn.Session.Pool.{update}
use vibe_vpn.Session.Manager.{Entry, Manager, find, drop_one}

-- `SessionView`: the id and the address of a session.
pub record View : Type 0 where
  pub sid : ℕ
  pub ip : Option ℕ

unfoldable pub lookup_ip : Manager → ℕ → Option View
lookup_ip m ip = elim (m.by_ip ip) [
  | none ↦ none
  | some r ↦ some (record { sid = (m.entry r).sid; ip = (m.entry r).ip })
]

-- The capacity of a reply channel. A session that has not yet made its channel takes nothing; here
-- the channel is there from the start.
abbrev pub reply_capacity : ℕ
reply_capacity = 512

send_reply : Manager → ℕ → Bytes → Manager × Bool
send_reply m r pkt =
    let e = m.entry r in
    if ltb (length e.reply_ch) reply_capacity
    then (
      record m { entry = update m.entry r (record e { reply_ch = e.reply_ch ++ (pkt ∷ []) }) },
      true,
    )
    else (drop_one m, false)

unfoldable pub reply : Manager → View → Bytes → Manager × Bool
unfolding send_reply
reply m view pkt = elim (find m.by_id view.sid) [
  | none ↦ (drop_one m, false)
  | some r ↦ send_reply m r pkt
]

route : Manager → Option Header → Bytes → Manager
route m none pkt = drop_one m
route m (some h) pkt = elim (lookup_ip m (get_be h.dst)) [
  | none ↦ drop_one m
  | some view ↦ (reply m view pkt).0
]

-- One packet that the TUN device delivered. The outer `none` is a panic.
unfoldable pub tun_packet : Manager → Bytes → Option Manager
unfolding route
tun_packet m pkt = do header ← parse pkt; some (route m header pkt)

unfoldable pub active : Manager → ℕ
active m = length m.by_id

-- CloseAll cancels every session of `byID`, in any order.
cancel_each : List (ℕ × ℕ) → (ℕ → Entry) → ℕ → Entry
cancel_each [] entry = entry
cancel_each ((id, r) ∷ m) entry =
    let rest = cancel_each m entry in update rest r (record (rest r) { cancelled = true })

unfoldable pub close_all : Manager → Manager
unfolding cancel_each
close_all m = record m { entry = cancel_each m.by_id m.entry }
