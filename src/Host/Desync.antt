-- ===== src/Host/Desync.antt =====
-- internal/desync/desync.go. A process is the number that starting it gives.
use Prim.Native.String.{String, ◌++◌ as push_str}
use text.Mathlib.Text.{◌==◌ as str_eq}
use vibe_vpn.Base.{ℕ, Bool, not, Option, none, some, if◌then◌else◌, List, [], ◌∷◌, ◌++◌}
use vibe_vpn.Host.{Host}
use vibe_vpn.Host.Routing.{◌and_then◌, run}

-- The host's processes: exec.Cmd's Start, with nfqws for the binary, and Process.Kill.
pub record Processes (W : Type 0) : Type 0 where
  pub spawn : W → String → List String → Option ℕ × W
  pub kill : W → ℕ → W

pub record DesyncConfig : Type 0 where
  pub enabled : Bool
  pub nfqws : String
  pub queue : ℕ
  pub dpi_desync : String
  pub split_pos : String
  pub fooling : String

pub record DesyncManager : Type 0 where
  pub cfg : DesyncConfig
  pub dport : ℕ
  pub cmd : ℕ

abbrev pub delete_table : List String
delete_table = "nft" ∷ "delete" ∷ "table" ∷ "inet" ∷ "vibe-desync" ∷ []

abbrev pub add_table : List String
add_table = "nft" ∷ "add" ∷ "table" ∷ "inet" ∷ "vibe-desync" ∷ []

abbrev pub add_chain : List String
add_chain =
    "nft" ∷ "add" ∷ "chain" ∷ "inet" ∷ "vibe-desync" ∷ "out"
    ∷ "{ type filter hook output priority 0; }" ∷ []

abbrev pub add_rule : String → String → List String
add_rule dport queue =
    "nft" ∷ "add" ∷ "rule" ∷ "inet" ∷ "vibe-desync" ∷ "out" ∷ "tcp" ∷ "dport" ∷ dport ∷ "queue"
    ∷ "num" ∷ queue ∷ []

unfoldable pub build_nfqws_args : String → String → String → String → String → List String
build_nfqws_args dport queue dpi_desync split_pos fooling =
    (push_str "--filter-tcp=" dport
      ∷ push_str "--dpi-desync=" dpi_desync
      ∷ push_str "--qnum=" queue
      ∷ [])
    ++ ((if str_eq split_pos "" then [] else push_str "--dpi-desync-split-pos=" split_pos ∷ [])
        ++ (if str_eq fooling "" then [] else push_str "--dpi-desync-fooling=" fooling ∷ []))

-- What `Start` returns: (nil, nil), an error, or a manager.
pub data Started : Type 0 where
  disabled failed : Started
  running : DesyncManager → Started

module _ {W : Type 0} (h : Host W) (p : Processes W) where
  abbrev pub teardown_nft : W → W
  teardown_nft w = (h.exec w delete_table).1

  unfoldable pub setup_nft : DesyncConfig → ℕ → W → Bool × W
  setup_nft cfg dport w =
      ((λ w. run h add_table w)
          and_then (λ w. run h add_chain w)
          and_then (λ w. run h (add_rule (h.show dport) (h.show cfg.queue)) w))
        (teardown_nft w)

  unfoldable pub nfqws_cmd : DesyncConfig → ℕ → W → Option ℕ × W
  unfolding build_nfqws_args
  nfqws_cmd cfg dport w =
      p.spawn w cfg.nfqws (
        build_nfqws_args (h.show dport) (h.show cfg.queue) cfg.dpi_desync cfg.split_pos cfg.fooling)

  -- The end of `Start`, from nfqws on.
  unfoldable pub start_nfqws : DesyncConfig → ℕ → W → Started × W
  unfolding nfqws_cmd
  start_nfqws cfg dport w =
      let (cmd, w1) = nfqws_cmd cfg dport w in
      elim cmd [
        | none ↦ (failed, teardown_nft w1)
        | some pid ↦ (running (record { cfg = cfg; dport = dport; cmd = pid }), w1)
      ]

  unfoldable pub start : DesyncConfig → ℕ → W → Started × W
  unfolding setup_nft start_nfqws
  start cfg dport w =
      let (good, w1) = setup_nft cfg dport w in
      if not cfg.enabled
      then (disabled, w)
      else if str_eq cfg.nfqws ""
      then (failed, w)
      else if good
      then start_nfqws cfg dport w1
      else (failed, w1)

  unfoldable pub stop : DesyncManager → W → W
  stop m w = teardown_nft (p.kill w m.cmd)
