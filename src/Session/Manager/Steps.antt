-- ===== src/Session/Manager/Steps.antt =====
-- The manager under any interleaving of its critical sections, and what that keeps true.
use vibe_vpn.Base.{
  ℕ, ◌≡◌, ◌<◌, true, false, none, some, ltb, length, List, [], ◌∷◌, ◌++◌, ok, arith, ◌⊎◌, inl, inr,
  Option-cases, Bool-cases, ℤ, Bytes,
}
use vibe_vpn.Session.Pool.{Subnet, IsSubnet, update, new_ip_pool}
use vibe_vpn.Session.Manager.{
  Manager, Admission, find, no_entry, drop_one, new_manager, begin_transport, insert_session,
}
use vibe_vpn.Session.Manager.Adopt.{adopt, remove, set_client_key, set_peers}
use vibe_vpn.Session.Manager.Invariant.{Inv, InHandshake, remove-Inv}
use vibe_vpn.Session.Manager.Preserve.{insert-Inv, begin-Inv, frame-Inv, key-Inv, adopt-Inv}
use vibe_vpn.Session.Manager.Index.{
  Indexed, insert-Indexed, frame-Indexed, key-Indexed, adopt-Indexed, remove-Indexed,
}
use vibe_vpn.Session.Manager.Route.{View, reply, reply_capacity}

-- One critical section of some goroutine. A session is inserted under an id that
-- `allocIDLocked` found free and that no other session has taken since; its key is set and it is
-- adopted during its handshake; it is removed once, when its `run` returns.
pub data Step (m : Manager) : Manager → Type 0 where
  begins : (m' : Manager) (a : Admission) → begin_transport m ≡ some (a, m') → Step m m'
  inserts : (id : ℕ) → find m.by_id id ≡ none → Step m (insert_session m id).1
  identifies : (s key : ℕ) → s < m.next_ref → InHandshake m s → Step m (set_client_key m s key)
  adopts :
      (m' : Manager) (s key : ℕ)
      → s < m.next_ref
      → InHandshake m s
      → (m.entry s).client_key ≡ some key
      → adopt m s key ≡ some (ok m')
      → Step m m'
  ends : (s : ℕ) → s < m.next_ref → (m.entry s).running ≡ true → Step m (remove m s)
  reloads : (peers : List ℕ) → Step m (set_peers m peers)
  replies : (view : View) (pkt : Bytes) → Step m (reply m view pkt).0

pub data Reach (m : Manager) : Manager → Type 0 where
  here : Reach m m
  next : {m1 m2 : Manager} → Reach m m1 → Step m1 m2 → Reach m m2

pub record Valid (m : Manager) : Type 0 where
  pub inv : Inv m
  pub index : Indexed m

abbrev pub pushed : Manager → ℕ → Bytes → Manager
pushed m r pkt = record m {
  entry = update m.entry r (record (m.entry r) { reply_ch = (m.entry r).reply_ch ++ (pkt ∷ []) });
}

pushed-Valid :
    (m : Manager) (r : ℕ) (pkt : Bytes) → r < m.next_ref → Valid m → Valid (pushed m r pkt)
pushed-Valid m r pkt known v = record {
  inv = record {
    owner = λ k q e. ground (arith, v.inv.owner k q);
    owned = λ q k e. ground (arith, v.inv.owned q k);
    leased = v.inv.leased;
    inside = v.inv.inside;
    keyed = λ k q e. ground (arith, v.inv.keyed k q);
    kept = λ q e. ground (arith, v.inv.kept q);
    unused = λ q e. ground (arith, v.inv.unused q);
    subnet = v.inv.subnet;
  };
  index = record {
    indexed = λ j q e. ground (arith, v.index.indexed j q);
    listed = λ q t run. ground (arith, v.index.listed q);
  };
}

-- What stands in `byID` is a session that was created.
known-indexed : (m : Manager) (id r : ℕ) → Valid m → find m.by_id id ≡ some r → r < m.next_ref
known-indexed m id r v e = ground (arith, v.index.indexed id r e, v.inv.unused r)

-- A reply ends up in one channel, or is counted as dropped.
pub reply-cases :
    (m : Manager) (view : View) (pkt : Bytes)
    → ((reply m view pkt).0 ≡ drop_one m)
      ⊎ ((r : ℕ) × (find m.by_id view.sid ≡ some r) × ((reply m view pkt).0 ≡ pushed m r pkt))
unfolding reply
reply-cases m view pkt = elim (Option-cases (find m.by_id view.sid)) [
  | inl gone ↦ inl (ground arith)
  | inr (r, e) ↦ elim (Bool-cases (ltb (length (m.entry r).reply_ch) reply_capacity)) [
    | inl room ↦ inr (r, e, ground arith)
    | inr busy ↦ inl (ground arith)
  ]
]

dropped-Valid : (m : Manager) → Valid m → Valid (drop_one m)
dropped-Valid m v = record {
  inv = frame-Inv m m.next_id _ m.peers v.inv;
  index = frame-Indexed m m.next_id _ m.peers v.index;
}

reply-Valid : (m : Manager) (view : View) (pkt : Bytes) → Valid m → Valid (reply m view pkt).0
reply-Valid m view pkt v = elim (reply-cases m view pkt) [
  | inl e ↦ rw e (dropped-Valid m v)
  | inr (r, found, e) ↦ rw e (pushed-Valid m r pkt (known-indexed m view.sid r v found) v)
]

begin-Indexed :
    (m m' : Manager) (a : Admission) → begin_transport m ≡ some (a, m') → Indexed m → Indexed m'
unfolding begin_transport
begin-Indexed m m' a e x = record {
  indexed = λ j r f. ground (arith, x.indexed j r);
  listed = λ r t run. ground (arith, x.listed r);
}

-- Every critical section keeps the manager valid.
pub Step-Valid : {m m' : Manager} → Step m m' → Valid m → Valid m'
unfolding set_peers
Step-Valid {m} (begins m' a e) v = record {
  inv = begin-Inv m m' a e v.inv;
  index = begin-Indexed m m' a e v.index;
}
Step-Valid {m} (inserts id free) v = record {
  inv = insert-Inv m id v.inv;
  index = insert-Indexed m id v.inv v.index free;
}
Step-Valid {m} (identifies s key known h) v = record {
  inv = key-Inv m s key known h v.inv;
  index = key-Indexed m s key v.index;
}
Step-Valid {m} (adopts m' s key known h named e) v = record {
  inv = adopt-Inv m m' s key v.inv h named known e;
  index = adopt-Indexed m m' s key v.inv v.index e;
}
Step-Valid {m} (ends s known run) v = record {
  inv = remove-Inv m v.inv s run known;
  index = remove-Indexed m s v.index;
}
Step-Valid {m} (reloads peers) v = record {
  inv = frame-Inv m m.next_id m.stats peers v.inv;
  index = frame-Indexed m m.next_id m.stats peers v.index;
}
Step-Valid {m} (replies view pkt) v = reply-Valid m view pkt v

pub Reach-Valid : {m m' : Manager} → Valid m → Reach m m' → Valid m'
Reach-Valid v here = v
Reach-Valid v (next r st) = Step-Valid st (Reach-Valid v r)

-- The state that NewManager sets up on the subnet `n`.
module _ (n : Subnet) (max : ℤ) (peers : List ℕ) (m : Manager)
    (e : new_manager (some n) max peers ≡ ok m) where
  new_manager-by_id : m.by_id ≡ []
  unfolding new_manager
  new_manager-by_id = ground arith

  new_manager-by_ip : (k : ℕ) → m.by_ip k ≡ none
  unfolding new_manager
  new_manager-by_ip k = ground arith

  new_manager-by_static : (k : ℕ) → m.by_static k ≡ none
  unfolding new_manager
  new_manager-by_static k = ground arith

  new_manager-entry : (r : ℕ) → m.entry r ≡ no_entry
  unfolding new_manager
  new_manager-entry r = ground arith

  new_manager-used : (k : ℕ) → m.pool.used k ≡ false
  unfolding new_manager new_ip_pool
  new_manager-used k = ground arith

  new_manager-network : m.pool.network ≡ n
  unfolding new_manager new_ip_pool
  new_manager-network = ground arith

  pub new_manager-Valid : IsSubnet n → Valid m
  new_manager-Valid h = record {
    inv = record {
      owner = λ k r f. ground (arith, new_manager-by_ip k);
      owned = λ r k f. ground (arith, new_manager-entry r);
      leased = λ k. ground (arith, new_manager-by_ip k, new_manager-used k);
      inside = λ k r f. ground (arith, new_manager-by_ip k);
      keyed = λ k r f. ground (arith, new_manager-by_static k);
      kept = λ r f. ground (arith, new_manager-entry r);
      unused = λ r f. new_manager-entry r;
      subnet = rw new_manager-network h;
    };
    index = record {
      indexed = λ id r f. ground (arith, new_manager-by_id);
      listed = λ r t run. ground (arith, new_manager-entry r);
    };
  }
