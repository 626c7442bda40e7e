-- ===== src/Udp/Valid.antt =====
-- The invariant of the endpoints of a `Server`, and the operations of internal/transport/udp/udp.go
-- on the table of endpoints.
use vibe_vpn.Base.{ℕ, ◌+◌, ◌<◌, ◌≡◌, ◌≢◌, refl, true, false, none, some, List, [], ◌∷◌, arith}
use vibe_vpn.Base.Assoc.{find, erase, find-erase}
use vibe_vpn.Session.Pool.{update}
use vibe_vpn.Udp.{Endpoint, UdpServer, set_endpoint, close_done, close_each}

-- Every entry is an endpoint in use, under the key of its peer, and no key stands twice.
abbrev pub Live : (ℕ → Endpoint) → ℕ → List (ℕ × ℕ) → Type 0
Live ep n [] = true ≡ true
Live ep n ((key, r) ∷ eps) =
    ((ep r).remote ≡ key)
    × ((ep r).is_done ≡ false)
    × (r < n)
    × (find eps key ≡ none)
    × Live ep n eps

unfoldable pub IsValid : UdpServer → Type 0
IsValid s = Live s.endpoint s.next_ref s.eps

-- What an entry that is found says of its endpoint.
pub record IsLive (s : UdpServer) (key r : ℕ) : Type 0 where
  pub remote : (s.endpoint r).remote ≡ key
  pub running : (s.endpoint r).is_done ≡ false
  pub below : r < s.next_ref

find-Live :
    (ep : ℕ → Endpoint) (n : ℕ) (eps : List (ℕ × ℕ)) (key r : ℕ)
    → Live ep n eps
    → find eps key ≡ some r
    → ((ep r).remote ≡ key) × ((ep r).is_done ≡ false) × (r < n)
find-Live ep n [] key r v e = ground arith
find-Live ep n ((k, q) ∷ eps) key r v e = ground (arith, find-Live ep n eps key r)

pub find-IsLive : (s : UdpServer) (key r : ℕ) → IsValid s → find s.eps key ≡ some r → IsLive s key r
unfolding IsValid
find-IsLive s key r v e =
    let (a, b, c) = find-Live s.endpoint s.next_ref s.eps key r v e in
    record { remote = a; running = b; below = c }

pub erase-Live :
    (ep : ℕ → Endpoint) (n : ℕ) (eps : List (ℕ × ℕ)) (key : ℕ)
    → Live ep n eps
    → Live ep n (erase eps key)
erase-Live ep n [] key v = v
erase-Live ep n ((k, q) ∷ eps) key v = ground (arith, erase-Live ep n eps key, find-erase eps key k)

-- An endpoint that no entry names may be changed.
pub update-Live :
    (ep : ℕ → Endpoint) (n : ℕ) (eps : List (ℕ × ℕ)) (r : ℕ) (e : Endpoint)
    → Live ep n eps
    → find eps (ep r).remote ≢ some r
    → Live (update ep r e) n eps
update-Live ep n [] r e v f = v
update-Live ep n ((k, q) ∷ eps) r e v f = ground (arith, update-Live ep n eps r e)

-- A change that keeps the peer and `done` is no matter to the table.
pub set-Live :
    (ep : ℕ → Endpoint) (n : ℕ) (eps : List (ℕ × ℕ)) (r : ℕ) (e : Endpoint)
    → Live ep n eps
    → e.remote ≡ (ep r).remote
    → e.is_done ≡ (ep r).is_done
    → Live (update ep r e) n eps
set-Live ep n [] r e v f g = v
set-Live ep n ((k, q) ∷ eps) r e v f g = ground (arith, set-Live ep n eps r e)

-- The endpoint of the next number is new.
pub fresh-Live :
    (ep : ℕ → Endpoint) (n : ℕ) (eps : List (ℕ × ℕ)) (e : Endpoint)
    → Live ep n eps
    → Live (update ep n e) (n + 1) eps
fresh-Live ep n [] e v = v
fresh-Live ep n ((k, q) ∷ eps) e v = ground (arith, fresh-Live ep n eps e)

-- The loop of `Close` finds no endpoint closed, and leaves the table alone.
pub close_each-Live :
    (eps : List (ℕ × ℕ)) (s : UdpServer)
    → Live s.endpoint s.next_ref eps
    → (s' : UdpServer) × (close_each eps s ≡ some s') × (s'.eps ≡ s.eps) × (s'.closed ≡ s.closed)
unfolding close_each close_done
close_each-Live [] s v = (s, refl, refl, refl)
close_each-Live ((key, r) ∷ eps) s v =
    let e = s.endpoint r in
    let s1 = set_endpoint s r (record e { is_done = true }) in
    let (s', run, same, shut) =
      close_each-Live eps s1
        (ground (arith, update-Live s.endpoint s.next_ref eps r (record e { is_done = true }))) in
    (s', ground arith, ground arith, ground arith)
