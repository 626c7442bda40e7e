-- ===== src/Host.antt =====
-- What the program does to its host: the commands of internal/routing/routing_linux.go and
-- internal/desync/desync.go. The host is a state `W` and what a command makes of it, which is not
-- code of the repository: a parameter.
pub mod Routing
pub mod Plan
pub mod Desync
mod Tests
use Prim.Native.String.{String}
use vibe_vpn.Base.{ℕ, Bool, Option, List}

-- `exec` runs a command and says whether it succeeded; `output` gives the fields of what it
-- prints (strings.Fields). `cidr`, `show_ip` and `show` are fmt.Sprintf("%s/%d"), net.IP.String
-- and fmt.Sprint.
pub record Host (W : Type 0) : Type 0 where
  pub exec : W → List String → Bool × W
  pub output : W → List String → Option (List String) × W
  pub cidr : ℕ → ℕ → String
  pub show_ip : ℕ → String
  pub show : ℕ → String
