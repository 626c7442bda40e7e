-- ===== src/Session/Manager.antt =====
-- `Manager` of internal/session/server.go: all sessions of the server and the maps from ids,
-- addresses and static keys to them. A *serverSession is a number, and `entry` holds, for each,
-- the fields that the manager reads or writes. Each function is one critical section of `m.mu`,
-- but `tun_packet` of Route, which puts the two of LookupIP and Reply into one step.
-- A client's public key stands for its base64 text; time is an argument.
pub mod Adopt
pub mod Invariant
pub mod Preserve
pub mod Index
pub mod Steps
pub mod Route
pub mod Owners
pub mod Ids
mod Tests
use vibe_vpn.Base.{
  ℕ, zero, suc, ◌+◌, ◌-◌, ◌%◌, ◌^◌, ◌≡◌, ◌<◌, ◌≤◌, Bool, true, false, not, ◌&&◌, Option, none, some,
  ◌==◌, ltb, leb, if◌then◌else◌, List, [], ◌∷◌, ◌++◌, length, Bytes, Result, ok, err, ℤ, pos, sub_ℕ,
  pos_part, neg_part,
}
pub use vibe_vpn.Base.Assoc.{find, erase, insert}
use vibe_vpn.Base.Panic.{◌>>=◌}
use vibe_vpn.Session.Pool.{Subnet, IpPool, update, gateway, new_ip_pool, alloc, release}

pub record Entry : Type 0 where
  pub sid : ℕ
  pub client_key : Option ℕ
  pub requested_ip : Option ℕ
  pub ip : Option ℕ
  pub transferred : Bool
  pub cancelled : Bool
  pub reply_ch : List Bytes
  -- `run` has been started and has not yet called `remove`.
  pub running : Bool

pub record Stats : Type 0 where
  pub sessions : ℤ
  pub sessions_total : ℕ
  pub dropped : ℕ
  pub handshakes : ℕ

pub record Manager : Type 0 where
  pub max_sessions : ℕ
  pub gw : ℕ
  pub prefix : ℕ
  pub by_id : List (ℕ × ℕ)
  pub by_ip : ℕ → Option ℕ
  pub by_static : ℕ → Option ℕ
  pub next_id : ℕ
  pub pool : IpPool
  pub peers : List ℕ
  pub stats : Stats
  pub entry : ℕ → Entry
  pub next_ref : ℕ

pub data Error : Type 0 where
  no_subnet subnet_too_small exhausted : Error

abbrev pub default_max_sessions : ℕ
default_max_sessions = 1024

abbrev pub no_entry : Entry
no_entry = record {
  sid = 0;
  client_key = none;
  requested_ip = none;
  ip = none;
  transferred = false;
  cancelled = false;
  reply_ch = [];
  running = false;
}

-- `max` and `peers` come from the configuration; a negative maximum counts as none.
unfoldable pub new_manager : Option Subnet → ℤ → List ℕ → Result Error Manager
new_manager none max peers = err no_subnet
new_manager (some n) max peers =
    if ltb n.ones 2
    then err subnet_too_small
    else ok (record {
      max_sessions = if leb (pos_part max) 0 then default_max_sessions else pos_part max;
      gw = gateway n;
      prefix = n.ones;
      by_id = [];
      by_ip = λ ip. none;
      by_static = λ key. none;
      next_id = 0;
      pool = new_ip_pool n;
      peers = peers;
      stats = record { sessions = pos 0; sessions_total = 0; dropped = 0; handshakes = 0 };
      entry = λ r. no_entry;
      next_ref = 0;
    })

-- The pointer stored under a key is `r`.
abbrev pub is_ref : Option ℕ → ℕ → Bool
is_ref none r = false
is_ref (some q) r = q == r

-- m.nextID++, skipping 0 when it wraps.
abbrev pub next_of : ℕ → ℕ
next_of id = let n = (id + 1) % 2 ^ 32 in if n == 0 then 1 else n

abbrev pub is_none : {A : Type 0} → Option A → Bool
is_none none = true
is_none (some a) = false

-- The loop of `allocIDLocked` on fuel; `none` is a loop that has not ended.
unfoldable pub alloc_id : ℕ → List (ℕ × ℕ) → ℕ → Option ℕ
alloc_id zero by_id id = none
alloc_id (suc fuel) by_id id =
    let rest = alloc_id fuel by_id (next_of id) in
    if is_none (find by_id (next_of id)) then some (next_of id) else rest

abbrev pub drop_one : Manager → Manager
drop_one m = record m { stats = record (m.stats) { dropped = m.stats.dropped + 1 } }

-- The first critical section of HandleTransport: `ok id`, or the refusal of the peer.
pub data Admission : Type 0 where
  admitted : ℕ → Admission
  full : Admission

unfoldable pub begin_transport : Manager → Option (Admission × Manager)
begin_transport m =
    let go_on = alloc_id (length m.by_id + 1) m.by_id m.next_id >>= λ id.
    some (admitted id, record m { next_id = id }) in
    if leb m.max_sessions (length m.by_id) then some (full, drop_one m) else go_on

-- The second one: the session gets its number and enters the map.
unfoldable pub insert_session : Manager → ℕ → ℕ × Manager
insert_session m id = (
  m.next_ref,
  record m {
    by_id = insert m.by_id id m.next_ref;
    stats = record (m.stats) {
      sessions = sub_ℕ (pos_part m.stats.sessions + 1) (neg_part m.stats.sessions);
      sessions_total = m.stats.sessions_total + 1;
    };
    entry = update m.entry m.next_ref (record no_entry { sid = id; running = true });
    next_ref = m.next_ref + 1;
  },
)
