-- ===== src/Pcap.antt =====
-- internal/pcap/pcap.go: the writer of a capture file. The file is the bytes written to it; what a
-- write of the file system does is an argument: `none` writes all, `some n` fails after n bytes.
pub mod ReadBack
mod Tests
use vibe_vpn.Base.{
  ℕ, ◌+◌, ◌-◌, ◌*◌, ◌/◌, ◌%◌, ◌^◌, ◌≡◌, Bool, true, false, not, ◌&&◌, ◌||◌, Option, none, some, ltb,
  if◌then◌else◌, List, [], ◌∷◌, ◌++◌, length, take, Bytes,
}

abbrev pub dlt_raw : ℕ
dlt_raw = 101

-- len(w.buf)
abbrev pub buf_len : ℕ
buf_len = 65535

-- binary.LittleEndian
unfoldable pub put_le16 : ℕ → Bytes
put_le16 n = (n % 256) ∷ (n / 256 % 256) ∷ []

unfoldable pub put_le32 : ℕ → Bytes
put_le32 n = (n % 256) ∷ (n / 256 % 256) ∷ (n / 65536 % 256) ∷ (n / 16777216 % 256) ∷ []

-- `file` is none when the file is closed; `err` is the error that sticks.
pub record Writer : Type 0 where
  pub written : Bytes
  pub is_open : Bool
  pub err : Bool
  pub pkts : ℕ

abbrev pub file_header : Bytes
file_header =
    put_le32 0xa1b2c3d4
    ++ (put_le16 2
        ++ (put_le16 4 ++ (put_le32 0 ++ (put_le32 0 ++ (put_le32 65535 ++ put_le32 dlt_raw)))))

-- `creates` says whether os.Create succeeds.
unfoldable pub open_pcap : Bool → Option ℕ → Option Writer
open_pcap creates fails =
    let w : Option Writer = elim fails [
      | some n ↦ none
      | none ↦ some (record { written = file_header; is_open = true; err = false; pkts = 0 })
    ] in
    if creates then w else none

unfoldable pub clamp : Bytes → Bytes
clamp pkt = if ltb (buf_len - 16) (length pkt) then take (buf_len - 16) pkt else pkt

unfoldable pub packet_record : ℕ → ℕ → Bytes → Bytes
unfolding put_le32
packet_record sec usec pkt =
    put_le32 sec ++ (put_le32 usec ++ (put_le32 (length pkt) ++ (put_le32 (length pkt) ++ pkt)))

-- `sec` and `nsec` are the time; `nsec` is below a second.
unfoldable pub write_packet : Writer → ℕ → ℕ → Option ℕ → Bytes → Writer
write_packet w sec nsec fails pkt =
    let rec = packet_record sec (nsec / 1000) (clamp pkt) in
    let tried : Writer = elim fails [
      | none ↦ record w { written = w.written ++ rec; pkts = w.pkts + 1 }
      | some n ↦ record w { written = w.written ++ take n rec; err = true }
    ] in
    if not w.is_open then w else if w.err then w else tried

-- The Boolean says whether `Close` returns an error; `closes` whether closing the file succeeds.
unfoldable pub close_pcap : Writer → Bool → Bool × Writer
close_pcap w closes =
    if not w.is_open
    then (false, w)
    else (w.err || not closes, record w { err = false; is_open = false })
