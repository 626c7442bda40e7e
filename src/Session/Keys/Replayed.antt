-- ===== src/Session/Keys/Replayed.antt =====
-- A frame is opened at most once.
use mathlib.Core.Option.{some-injective}
use vibe_vpn.Base.{
  subst, ℕ, ◌^◌, ◌<◌, ◌≡◌, false, some, Bytes, Result, ok, err, arith, Option-cases, inl, inr, List,
  [], ◌∷◌, ap,
}
use vibe_vpn.Aead.{Aead, IsAead}
use vibe_vpn.Replay.{IsValid, check}
use vibe_vpn.Replay.History.{receive, receive-IsValid, receive-rejected, receive-marks, NoJump}
use vibe_vpn.Framing
use vibe_vpn.Framing.{Frame}
use vibe_vpn.Framing.RoundTrip.{open_frame-seq-lt}
use vibe_vpn.Session.Keys.{Keys, Error, replay, open_wire, open_all}
use vibe_vpn.Session.Keys.Open.{open_wire_err, open_wire_ok}

-- The keys still decrypt with `a` and refuse the number `s`.
record Refuses (a : Aead) (s : ℕ) (k : Keys) : Type 0 where
  same : k.recv_aead ≡ a
  valid : IsValid k.replay
  refused : check k.replay s ≡ false

open_wire-Refuses :
    (a : Aead) (s : ℕ) (k k' : Keys) (wire : Bytes) (r : Result Error Frame)
    → IsAead a
    → Refuses a s k
    → open_wire k wire ≡ some (r, k')
    → Refuses a s k'
open_wire-Refuses a s k k' wire (err e) v h o = rw (open_wire_err k k' wire e o) h
open_wire-Refuses a s k k' wire (ok f) v h o =
    let (opened, took, next) = open_wire_ok k k' wire f o in
    let small : f.seq < 2 ^ 32 = open_frame-seq-lt k.recv_aead wire f (rw h.same v) opened in
    let window : (receive k.replay f.seq).0 ≡ k'.replay = ap (λ x. x.0) took in
    record {
      same = ground (arith, h.same);
      valid = rw (← window) (receive-IsValid k.replay f.seq small h.valid);
      refused = rw (← window) (receive-rejected k.replay f.seq s small h.valid h.refused);
    }

open_all-Refuses :
    (a : Aead) (s : ℕ) (wires : List Bytes) (k k' : Keys)
    → IsAead a
    → Refuses a s k
    → open_all k wires ≡ some k'
    → Refuses a s k'
unfolding open_all
open_all-Refuses a s [] k k' v h o = subst (Refuses a s) (some-injective _ _ o) h
open_all-Refuses a s (wire ∷ wires) k k' v h o = elim (Option-cases (open_wire k wire)) [
  | inl bad ↦ absurd (ground arith)
  | inr ((r, next), e) ↦
      open_all-Refuses a s wires next k' v (open_wire-Refuses a s k next wire r v h e)
        (ground arith)
]

pub open_wire-refused :
    (k : Keys) (wire : Bytes) (f : Frame)
    → Framing.open_frame k.recv_aead wire ≡ some (ok f)
    → check k.replay f.seq ≡ false
    → open_wire k wire ≡ some (err replay, k)
unfolding open_wire
open_wire-refused k wire f o c = rw (o, open_wire) (ground arith)

-- Under an AEAD with its documented behaviour, a frame that opened, with a number that did not jump over the window, is refused as a replay
-- when it comes again, whatever frames came in between.
pub opened_once :
    (k k1 k2 : Keys) (wire : Bytes) (f : Frame) (wires : List Bytes)
    → IsAead k.recv_aead
    → IsValid k.replay
    → NoJump k.replay f.seq
    → open_wire k wire ≡ some (ok f, k1)
    → open_all k1 wires ≡ some k2
    → open_wire k2 wire ≡ some (err replay, k2)
opened_once k k1 k2 wire f wires v w near o later =
    let (opened, took, next) = open_wire_ok k k1 wire f o in
    let small : f.seq < 2 ^ 32 = open_frame-seq-lt k.recv_aead wire f v opened in
    let window : (receive k.replay f.seq).0 ≡ k1.replay = ap (λ x. x.0) took in
    let first : Refuses k.recv_aead f.seq k1 = record {
      same = ground arith;
      valid = rw (← window) (receive-IsValid k.replay f.seq small w);
      refused = rw (← window) (receive-marks k.replay f.seq small w near);
    } in
    let last : Refuses k.recv_aead f.seq k2 =
      open_all-Refuses k.recv_aead f.seq wires k1 k2 v first later in
    open_wire-refused k2 wire f (rw last.same opened) last.refused
