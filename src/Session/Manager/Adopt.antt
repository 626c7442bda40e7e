-- ===== src/Session/Manager/Adopt.antt =====
-- `adopt`, `remove` and the allowlist of internal/session/server.go.
use vibe_vpn.Base.{
  ℕ, ◌+◌, Bool, true, false, not, Option, none, some, ◌==◌, if◌then◌else◌, List, [], ◌∷◌, length,
  Result, ok, err, sub_ℕ, pos_part, neg_part, ◌||◌,
}
use vibe_vpn.Base.Panic.{◌>>=◌}
use vibe_vpn.Session.Pool.{update, alloc, release}
use vibe_vpn.Session.Manager.{Manager, Error, exhausted, find, erase, is_ref}

abbrev pub member : List ℕ → ℕ → Bool
member [] key = false
member (p ∷ peers) key = p == key || member peers key

unfoldable pub allow_peer : Manager → ℕ → Bool
allow_peer m key = if length m.peers == 0 then true else member m.peers key

unfoldable pub set_peers : Manager → List ℕ → Manager
set_peers m peers = record m { peers = peers }

-- The end of `adopt`, on both branches: the session `s` owns the key and the address.
unfoldable pub register : Manager → ℕ → ℕ → ℕ → Manager
register m s key ip = record m {
  by_static = update m.by_static key (some s);
  by_ip = update m.by_ip ip (some s);
  stats = record (m.stats) { handshakes = m.stats.handshakes + 1 };
}

unfoldable pub set_ip : Manager → ℕ → ℕ → Manager
set_ip m s ip = record m { entry = update m.entry s (record (m.entry s) { ip = some ip }) }

-- The reconnect branch: the address moves over from `old`, which is told to stop.
unfoldable pub take_over : Manager → ℕ → ℕ → ℕ → Manager
unfolding set_ip
take_over m s old ip =
    let m1 = set_ip m s ip in
    record m1 {
      by_ip = update m.by_ip ip (some s);
      entry = update m1.entry old (record (m1.entry old) { transferred = true; cancelled = true });
      by_id = erase m.by_id (m.entry old).sid;
    }

unfoldable pub fresh_ip : Manager → ℕ → ℕ → Result Error Manager
unfolding set_ip register
fresh_ip m s key = elim (alloc m.pool (m.entry s).requested_ip) [
  | none ↦ err exhausted
  | some (ip, pool) ↦ ok (register (set_ip (record m { pool = pool }) s ip) s key ip)
]

unfoldable pub reconnect_ip : Manager → ℕ → ℕ → ℕ → Option (Result Error Manager)
unfolding take_over register
reconnect_ip m s key old = do
  ip ← (m.entry old).ip
  some (ok (register (take_over m s old ip) s key ip))

-- `key` stands for the base64 text of `s.clientKey`. An old session without an address would
-- make the conversion to [4]byte panic: the outer `none`.
unfoldable pub adopt : Manager → ℕ → ℕ → Option (Result Error Manager)
unfolding fresh_ip reconnect_ip
adopt m s key = elim (m.by_static key) [
  | none ↦ some (fresh_ip m s key)
  | some old ↦ if old == s then some (fresh_ip m s key) else reconnect_ip m s key old
]

-- if s.ip != nil { … }
unfoldable pub remove_ip : Manager → ℕ → Option ℕ → Manager
remove_ip m s none = m
remove_ip m s (some k) = record m {
  by_ip = if is_ref (m.by_ip k) s then update m.by_ip k none else m.by_ip;
  pool = if not (m.entry s).transferred then release m.pool k else m.pool;
}

-- if s.clientKey != nil { … }
unfoldable pub remove_key : Manager → ℕ → Option ℕ → Manager
remove_key m s none = m
remove_key m s (some key) = record m {
  by_static = if is_ref (m.by_static key) s then update m.by_static key none else m.by_static;
}

unfoldable pub remove_id : Manager → ℕ → Manager
remove_id m s = record m {
  by_id =
      if is_ref (find m.by_id (m.entry s).sid) s then erase m.by_id (m.entry s).sid else m.by_id;
}

unfoldable pub remove : Manager → ℕ → Manager
unfolding remove_id remove_ip remove_key
remove m s =
    let e = m.entry s in
    let m1 = remove_key (remove_ip (remove_id m s) s e.ip) s e.client_key in
    record m1 {
      stats = record (m.stats) {
        sessions = sub_ℕ (pos_part m.stats.sessions) (neg_part m.stats.sessions + 1);
      };
      entry = update m.entry s (record e { running = false });
    }

-- `s.clientKey = s.hs.PeerStatic()`, which `handshake3` does before it calls `adopt`.
unfoldable pub set_client_key : Manager → ℕ → ℕ → Manager
set_client_key m s key = record m {
  entry = update m.entry s (record (m.entry s) { client_key = some key });
}
