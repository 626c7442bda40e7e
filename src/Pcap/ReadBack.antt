-- ===== src/Pcap/ReadBack.antt =====
-- A reader of the capture format, and what it finds in the files of internal/pcap/pcap.go.
use vibe_vpn.Base.{
  ℕ, zero, suc, ◌+◌, ◌*◌, ◌/◌, ◌^◌, ◌≡◌, ◌≤◌, ◌<◌, refl, sym, Bool, true, false, Option, none, some,
  ltb, if◌then◌else◌, List, [], ◌∷◌, ◌++◌, length, take, drop, Bytes, length-append, length-take,
  take-append, drop-append, arith, ◌∙◌, map,
}
use mathlib.Core.List.{append_assoc, append-nil}
use vibe_vpn.Base.Panic.{◌>>=◌}
use vibe_vpn.Pcap.{
  Writer, put_le16, put_le32, file_header, open_pcap, clamp, packet_record, write_packet,
  close_pcap,
}

abbrev pub read_le32 : Bytes → Option (ℕ × Bytes)
read_le32 (a ∷ b ∷ c ∷ d ∷ rest) = some (a + 256 * b + 65536 * c + 16777216 * d, rest)
read_le32 _ = none

-- A record of the file: seconds, microseconds and the bytes.
abbrev pub read_record : Bytes → Option ((ℕ × ℕ × Bytes) × Bytes)
read_record b = do
  (sec, b1) ← read_le32 b
  (usec, b2) ← read_le32 b1
  (captured, b3) ← read_le32 b2
  (original, b4) ← read_le32 b3
  (if ltb (length b4) captured
      then none
      else some ((sec, usec, take captured b4), drop captured b4))

-- The records of a file, on fuel.
abbrev pub read_records : ℕ → Bytes → Option (List (ℕ × ℕ × Bytes))
read_records n [] = some []
read_records zero b = none
read_records (suc n) b = do (r, rest) ← read_record b; rs ← read_records n rest; some (r ∷ rs)

read_le32-put_le32 :
    (n : ℕ) (rest : Bytes) → n < 2 ^ 32 → read_le32 (put_le32 n ++ rest) ≡ some (n, rest)
unfolding put_le32
read_le32-put_le32 n rest h = ground arith

length-cut : (n : ℕ) (pkt : Bytes) → length (if ltb n (length pkt) then take n pkt else pkt) ≤ n
length-cut n pkt = ground (arith, length-take n pkt)

length-clamp : (pkt : Bytes) → length (clamp pkt) < 2 ^ 32
unfolding clamp
length-clamp pkt = omega (arith, length-cut 65519 pkt)

read_record-packet_record :
    (sec usec : ℕ) (pkt rest : Bytes)
    → sec < 2 ^ 32
    → usec < 2 ^ 32
    → length pkt < 2 ^ 32
    → read_record (packet_record sec usec pkt ++ rest) ≡ some ((sec, usec, pkt), rest)
unfolding packet_record
read_record-packet_record sec usec pkt rest s u n =
    let c : Bytes = pkt ++ rest in
    let l : ℕ = length pkt in
    ground (
      arith,
      append_assoc (put_le32 sec) (put_le32 usec ++ (put_le32 l ++ (put_le32 l ++ pkt))) rest,
      append_assoc (put_le32 usec) (put_le32 l ++ (put_le32 l ++ pkt)) rest,
      append_assoc (put_le32 l) (put_le32 l ++ pkt) rest,
      append_assoc (put_le32 l) pkt rest,
      read_le32-put_le32 sec (put_le32 usec ++ (put_le32 l ++ (put_le32 l ++ c))) s,
      read_le32-put_le32 usec (put_le32 l ++ (put_le32 l ++ c)) u,
      read_le32-put_le32 l (put_le32 l ++ c) n,
      read_le32-put_le32 l c n,
      length-append pkt rest,
      take-append l pkt rest refl,
      drop-append l pkt rest refl,
    )

-- The packets given to the writer, with the seconds and the nanoseconds of their times.
abbrev pub Packet : Type 0
Packet = ℕ × ℕ × Bytes

abbrev pub write_all : Writer → List Packet → Writer
write_all w [] = w
write_all w ((sec, nsec, pkt) ∷ pkts) = write_all (write_packet w sec nsec none pkt) pkts

-- What a reader is to find of a packet.
abbrev pub as_read : Packet → Packet
as_read (sec, nsec, pkt) = (sec, nsec / 1000, clamp pkt)

abbrev pub AreTimes : List Packet → Type 0
AreTimes [] = true ≡ true
AreTimes ((sec, nsec, pkt) ∷ pkts) = (sec < 2 ^ 32) × (nsec < 1000000000) × AreTimes pkts

abbrev records : List Packet → Bytes
records [] = []
records ((sec, nsec, pkt) ∷ pkts) = packet_record sec (nsec / 1000) (clamp pkt) ++ records pkts

written_all :
    (pkts : List Packet) (w : Writer)
    → w.is_open ≡ true
    → w.err ≡ false
    → ((write_all w pkts).written ≡ w.written ++ records pkts)
      × ((write_all w pkts).pkts ≡ w.pkts + length pkts)
unfolding write_packet
written_all [] w o e = (sym (append-nil w.written), ground arith)
written_all ((sec, nsec, pkt) ∷ pkts) w o e =
    let w1 : Writer = write_packet w sec nsec none pkt in
    let (same, n) = written_all pkts w1 (ground arith) (ground arith) in
    (
      same
          ∙ ground (
            arith,
            append_assoc w.written (packet_record sec (nsec / 1000) (clamp pkt)) (records pkts),
          ),
      ground (arith, n),
    )

read_records-records :
    (pkts : List Packet)
    → AreTimes pkts
    → read_records (length pkts) (records pkts) ≡ some (map as_read pkts)
read_records-records [] t = refl
read_records-records ((sec, nsec, pkt) ∷ pkts) t = ground (
  arith,
  not_nil sec (nsec / 1000) (clamp pkt) (records pkts) (length pkts),
  read_record-packet_record sec (nsec / 1000) (clamp pkt) (records pkts) t.0 (omega arith)
      (length-clamp pkt),
  read_records-records pkts t.2,
)
  where
    not_nil :
        (sec usec : ℕ) (pkt rest : Bytes) (n : ℕ)
        → read_records (suc n) (packet_record sec usec pkt ++ rest) ≡ (do
          (r, rest) ← read_record (packet_record sec usec pkt ++ rest)
          rs ← read_records n rest
          some (r ∷ rs))
    not_nil sec usec pkt rest n = unfold packet_record put_le32 in refl

-- A new capture file whose writes all succeed reads back: behind the file header stand the packets
-- in the order in which they were written, each with its time in microseconds and cut to 65519
-- bytes, and as many as `Packets` counts. The times are before 2^32 seconds.
pub read_records-write_all :
    (w : Writer) (pkts : List Packet)
    → open_pcap true none ≡ some w
    → AreTimes pkts
    → (take 24 (write_all w pkts).written ≡ file_header)
      × (read_records (length pkts) (drop 24 (write_all w pkts).written) ≡ some (map as_read pkts))
      × ((write_all w pkts).pkts ≡ length pkts)
unfolding open_pcap
read_records-write_all w pkts o t =
    let (same, n) = written_all pkts w (ground arith) (ground arith) in
    let header : w.written ≡ file_header = ground arith in
    let long : length file_header ≡ 24 = unfold put_le32 put_le16 in refl in
    (
      ground (arith, take-append 24 file_header (records pkts) long),
      ground (arith, drop-append 24 file_header (records pkts) long, read_records-records pkts t),
      ground arith,
    )

dropped_all : (pkts : List Packet) (w : Writer) → w.err ≡ true → write_all w pkts ≡ w
unfolding write_packet
dropped_all [] w e = refl
dropped_all ((sec, nsec, pkt) ∷ pkts) w e = ground (arith, dropped_all pkts w e)

-- Once a write has failed, packets are dropped: the file and the count stay, and `Close` returns
-- the error.
pub write_packet_stuck :
    (w : Writer) (sec nsec : ℕ) (n : ℕ) (pkt : Bytes) (rest : List Packet)
    → w.is_open ≡ true
    → w.err ≡ false
    → let failed = write_packet w sec nsec (some n) pkt in
      (write_all failed rest ≡ failed)
      × (failed.pkts ≡ w.pkts)
      × ((closes : Bool) → (close_pcap failed closes).0 ≡ true)
unfolding write_packet close_pcap
write_packet_stuck w sec nsec n pkt rest o e = (
  dropped_all rest (write_packet w sec nsec (some n) pkt) (ground arith),
  ground arith,
  λ closes. ground arith,
)
