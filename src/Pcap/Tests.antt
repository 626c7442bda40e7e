-- ===== src/Pcap/Tests.antt =====
-- A capture file with two packets, and one whose second write fails.
use vibe_vpn.Base.{◌≡◌, refl, true, false, none, some, List, [], ◌∷◌, take, drop, map, arith}
use vibe_vpn.Pcap.{Writer, file_header, open_pcap}
use vibe_vpn.Pcap.ReadBack.{Packet, write_all, read_records, as_read, read_records-write_all}

abbrev created : Writer
created = record { written = file_header; is_open = true; err = false; pkts = 0 }

opens : open_pcap true none ≡ some created
unfolding open_pcap
opens = refl

abbrev two : List Packet
two = (1700000000, 999999999, 0x45 ∷ 0 ∷ []) ∷ (1700000001, 1000, 0x45 ∷ 1 ∷ 2 ∷ []) ∷ []

read_records-write_all_example :
    (take 24 (write_all created two).written ≡ file_header)
    × (read_records 2 (drop 24 (write_all created two).written) ≡ some (map as_read two))
    × ((write_all created two).pkts ≡ 2)
read_records-write_all_example =
    read_records-write_all created two opens
      (omega arith, omega arith, (omega arith, omega arith, refl))
