-- ===== src/Replay.antt =====
-- internal/protocol/replay.go: the anti-replay sliding window. A uint64 is a number below 2 ^ 64
-- and the bitmap is the list of its words; `diff` and `slide` are differences of which the code
-- has just tested that they are not negative.
pub mod Bitmap
pub mod Bound
pub mod Window
pub mod Valid
pub mod History
pub mod Spec
mod Tests
use vibe_vpn.Base.{
  ℕ, zero, suc, ◌+◌, ◌-◌, ◌*◌, ◌/◌, ◌%◌, ◌^◌, ◌<◌, ◌≡◌, ◌≢◌, bit_and, bit_or, Bool, true, false,
  List, ltb, leb, ◌==◌, if◌then◌else◌, length, set, get_or, replicate, All, ◌||◌, ◌≤◌,
}
use vibe_vpn.Base.Bits.{test_bit}

-- ^uint64(0), which stands for "no packet yet".
abbrev pub unanchored : ℕ
unanchored = 2 ^ 64 - 1

pub record ReplayWindow : Type 0 where
  pub size : ℕ
  pub high : ℕ
  pub bits : List ℕ

unfoldable pub new_replay_window : ℕ → ReplayWindow
new_replay_window n =
    let size = bit_and (if ltb n 64 then 64 else n) (2 ^ 64 - 64) in
    record { size = size; high = unanchored; bits = replicate (size / 64) 0 }

unfoldable pub check : ReplayWindow → ℕ → Bool
check w seq =
    let diff = w.high - seq in
    if w.high == unanchored
    then true
    else if ltb w.high seq
    then true
    else if leb w.size diff
    then false
    else bit_and (get_or w.bits (diff / 64) 0) (1 * 2 ^ (diff % 64)) == 0

-- The new word at place `i`. It reads the places `i - words` and below, which the loop, going
-- down, has not written yet.
pub shifted_word : List ℕ → ℕ → ℕ → ℕ → ℕ
shifted_word bits words rem i =
    let v = if leb words i then get_or bits (i - words) 0 else 0 in
    let u = v * 2 ^ rem % 2 ^ 64 in
    if rem == 0
    then v
    else if leb (words + 1) i
    then bit_or u (get_or bits (i - words - 1) 0 / 2 ^ (64 - rem))
    else u

-- for i := k - 1; i >= 0; i-- { bits[i] = … }
pub shift_loop : ℕ → ℕ → ℕ → List ℕ → List ℕ
shift_loop zero words rem bits = bits
shift_loop (suc k) words rem bits =
    shift_loop k words rem (set bits k (shifted_word bits words rem k))

unfoldable pub shift_up : List ℕ → ℕ → List ℕ
unfolding shifted_word shift_loop
shift_up bits n =
    let nw = length bits in
    if leb nw (n / 64) then replicate nw 0 else shift_loop nw (n / 64) (n % 64) bits

-- bits[i] |= m
abbrev pub or_at : List ℕ → ℕ → ℕ → List ℕ
or_at bits i m = set bits i (bit_or (get_or bits i 0) m)

add_within : ReplayWindow → ℕ → ReplayWindow
add_within w diff =
    if ltb diff w.size
    then record w { bits = or_at w.bits (diff / 64) (1 * 2 ^ (diff % 64)) }
    else w

add_above : ReplayWindow → ℕ → ℕ → ReplayWindow
add_above w seq slide =
    if leb w.size slide
    then record w { bits = replicate (length w.bits) 0; high = seq }
    else record w { bits = or_at (shift_up w.bits slide) 0 1; high = seq }

unfoldable pub add : ReplayWindow → ℕ → ReplayWindow
unfolding add_within add_above
add w seq =
    if w.high == unanchored
    then record w { high = seq; bits = or_at w.bits 0 1 }
    else if leb seq w.high
    then add_within w (w.high - seq)
    else add_above w seq (seq - w.high)

-- Place `p` of the bitmap: the packet `p` numbers below the highest.
abbrev pub marked : List ℕ → ℕ → Bool
marked bits p = test_bit (get_or bits (p / 64) 0) (p % 64)

pub record IsValid (w : ReplayWindow) : Type 0 where
  pub sized : w.size ≡ 64 * length w.bits
  pub nonempty : 0 < length w.bits
  pub small : w.size < 2 ^ 63
  pub words : All (λ x. x < 2 ^ 64) w.bits
  pub fresh : w.high ≡ unanchored → (p : ℕ) → marked w.bits p ≡ false
