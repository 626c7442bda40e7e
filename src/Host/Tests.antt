-- ===== src/Host/Tests.antt =====
-- A host that is a table and a process.
use Prim.Native.String.{String}
use text.Mathlib.Text.{◌==◌ as str_eq}
use vibe_vpn.Base.{◌≡◌, refl, Bool, true, false, none, some, if◌then◌else◌, ◌==◌, List, ◌∷◌}
use vibe_vpn.Host.{Host}
use vibe_vpn.Host.Desync.{Processes, DesyncConfig, failed, setup_nft, start}

-- Whether the table stands, and whether the process runs. `rule_works` is false on a host without
-- the queue module.
abbrev Machine : Type 0
Machine = Bool × Bool

abbrev nft : Bool → List String → Machine → Bool × Machine
nft rule_works (a ∷ b ∷ c ∷ rest) (table, process) =
    if str_eq b "delete"
    then (true, (false, process))
    else if str_eq c "rule"
    then (rule_works, (table, process))
    else (true, (true, process))
nft rule_works args m = (false, m)

abbrev machine : Bool → Host Machine
machine rule_works = record {
  exec = λ m args. nft rule_works args m;
  output = λ m args. (none, m);
  cidr = λ ip prefix. "";
  show_ip = λ ip. "";
  show = λ n. if n == 443 then "443" else "200";
}

abbrev processes : Processes Machine
processes = record { spawn = λ m path args. (some 1, (m.0, true)); kill = λ m pid. (m.0, false) }

abbrev config : DesyncConfig
config = record {
  enabled = true;
  nfqws = "/usr/local/bin/nfqws";
  queue = 200;
  dpi_desync = "split2";
  split_pos = "2";
  fooling = "";
}

sets_up : (setup_nft (machine true) processes config 443 (false, false)).0 ≡ true
unfolding setup_nft
sets_up = refl

-- A rule that fails ends `Start`, and the table stays.
table_stays : start (machine false) processes config 443 (false, false) ≡ (failed, (true, false))
unfolding start setup_nft
table_stays = refl
