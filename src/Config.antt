-- ===== src/Config.antt =====
-- internal/config/config.go: defaults and validation of both roles. Checks of net and os are
-- parameters: whether a text is host:port, a CIDR or a loopback address, and whether a path is a
-- file. Texts of errors are left out; fields that no function here reads are, too.
mod Tests
use Prim.Native.String.{String}
use text.Mathlib.Text.{◌==◌ as str_eq}
use text.Mathlib.TextEquality.{eq_iff}
use vibe_vpn.Base.{
  ℕ, ◌+◌, ◌^◌, ◌*◌, ◌≡◌, ◌≤◌, ◌<◌, ◌⊎◌, Bool, true, false, not, ◌&&◌, ◌||◌, Option, none, some,
  ◌==◌, ltb, leb, if◌then◌else◌, ℤ, pos, pos_part, neg_part, arith, Option-cases, Bool-cases, inl,
  inr,
}

abbrev pub default_mtu : ℕ
default_mtu = 1280

abbrev pub default_keepalive : ℕ
default_keepalive = 20

abbrev pub default_session_timeout : ℕ
default_session_timeout = 300

abbrev pub default_stats_interval : ℕ
default_stats_interval = 15

abbrev pub default_rekey_seconds : ℕ
default_rekey_seconds = 120

pub record Checks : Type 0 where
  pub is_host_port : String → Bool
  pub is_cidr : String → Bool
  pub is_loopback : String → Bool
  pub is_file : String → Bool

pub data Problem : Type 0 where
  server private_key server_key mtu keepalive tls tls_file raw transport metrics shaping subnet
        max_sessions :
      Problem

pub record ShapingConfig : Type 0 where
  pub padding : String
  pub pad_to : ℤ
  pub bucket : ℤ
  pub rand_max : ℤ

pub record ClientTls : Type 0 where
  pub server_name : String
  pub fingerprint : String
  pub ca : String
  pub insecure : Bool

pub record ServerTls : Type 0 where
  pub listen : String
  pub cert : String
  pub key : String

-- What both roles share.
pub record Common : Type 0 where
  pub transport : String
  pub private_key : String
  pub private_key_encrypted : String
  pub mtu : ℤ
  pub keepalive : ℤ
  pub session_timeout : ℤ
  pub metrics : String
  pub shaping : ShapingConfig
  pub stats_interval : ℤ

pub record ClientConfig : Type 0 where
  pub common : Common
  pub server : String
  pub server_public_key : String
  pub rekey_after_packets : ℕ
  pub rekey_after_seconds : ℤ
  pub raw_server : String
  pub tls : Option ClientTls

pub record ServerConfig : Type 0 where
  pub common : Common
  pub listen : String
  pub interface : String
  pub subnet : String
  pub outbound_interface : String
  pub max_sessions : ℤ
  pub tls : Option ServerTls
  pub raw : Option String

abbrev or_int : ℤ → ℕ → ℤ
or_int z n = if pos_part z + neg_part z == 0 then pos n else z

abbrev or_text : String → String → String
or_text s t = if str_eq s "" then t else s

common_defaults : Common → Common
common_defaults c = record c {
  mtu = or_int c.mtu default_mtu;
  keepalive = or_int c.keepalive default_keepalive;
  session_timeout = or_int c.session_timeout default_session_timeout;
  stats_interval = or_int c.stats_interval default_stats_interval;
}

unfoldable pub client_defaults : ClientConfig → ClientConfig
unfolding common_defaults
client_defaults c = record c {
  common = common_defaults c.common;
  rekey_after_packets = if c.rekey_after_packets == 0 then 1 * 2 ^ 28 else c.rekey_after_packets;
  rekey_after_seconds = or_int c.rekey_after_seconds default_rekey_seconds;
}

unfoldable pub server_defaults : ServerConfig → ServerConfig
unfolding common_defaults
server_defaults s = record s {
  common = common_defaults s.common;
  listen = or_text s.listen "0.0.0.0:4433";
  interface = or_text s.interface "vpn0";
  subnet = or_text s.subnet "10.77.0.0/24";
  outbound_interface = or_text s.outbound_interface "eth0";
  max_sessions = or_int s.max_sessions 1024;
}

unfoldable pub validate_shaping : ShapingConfig → Bool
validate_shaping s =
    (str_eq s.padding ""
      || str_eq s.padding "none"
      || str_eq s.padding "pad"
      || str_eq s.padding "bucket"
      || str_eq s.padding "random"
      || str_eq s.padding "web")
    && not (str_eq s.padding "pad" && leb (pos_part s.pad_to) 0)
    && not (str_eq s.padding "bucket" && leb (pos_part s.bucket) 0)
    && not (str_eq s.padding "random" && ltb 0 (neg_part s.rand_max))

unfoldable pub validate_transport : String → Bool → Bool
validate_transport sel tls_present =
    (str_eq sel "" || str_eq sel "udp" || str_eq sel "tls" || str_eq sel "raw")
    && not (str_eq sel "tls" && not tls_present)

has : {A : Type 0} → Option A → Bool
has none = false
has (some a) = true

-- MTU < 576 || MTU > 65535, and the keepalive against a positive session timeout.
bad_mtu : Common → Bool
bad_mtu c = ltb (pos_part c.mtu) 576 || ltb 65535 (pos_part c.mtu)

bad_keepalive : Common → Bool
bad_keepalive c =
    ltb 0 (pos_part c.session_timeout) && leb (pos_part c.session_timeout) (pos_part c.keepalive)

same_emptiness : Common → Bool
same_emptiness c =
    if str_eq c.private_key ""
    then str_eq c.private_key_encrypted ""
    else not (str_eq c.private_key_encrypted "")

module _ (checks : Checks) where
  unfoldable pub validate_metrics : String → Bool
  validate_metrics addr = str_eq addr "" || (checks.is_host_port addr && checks.is_loopback addr)

  -- The checks that both roles make at the end.
  unfoldable pub validate_tail : Common → Bool → Option Problem
  validate_tail c tls_present =
      if not (validate_transport c.transport tls_present)
      then some transport
      else if not (validate_metrics c.metrics)
      then some metrics
      else if not (validate_shaping c.shaping)
      then some shaping
      else none

  unfoldable pub client_tls : Option ClientTls → Option Problem
  client_tls none = none
  client_tls (some t) =
      if str_eq t.ca "" && not t.insecure
      then some tls
      else if not (str_eq t.ca "") && not (checks.is_file t.ca)
      then some tls_file
      else none

  unfoldable pub server_tls : Option ServerTls → Option Problem
  server_tls none = none
  server_tls (some t) =
      if str_eq t.listen "" || str_eq t.cert "" || str_eq t.key ""
      then some tls
      else if not (checks.is_file t.cert) || not (checks.is_file t.key)
      then some tls_file
      else none

  -- `none` is a valid configuration.
  unfoldable pub validate_client : ClientConfig → Option Problem
  unfolding bad_mtu bad_keepalive same_emptiness has
  validate_client c =
      let rest =
        if not (str_eq c.raw_server "") && not (checks.is_host_port c.raw_server)
        then some raw
        else validate_tail c.common (has c.tls) in
      if str_eq c.server ""
      then some server
      else if not (checks.is_host_port c.server)
      then some server
      else if same_emptiness c.common
      then some private_key
      else if str_eq c.server_public_key ""
      then some server_key
      else if bad_mtu c.common
      then some mtu
      else if bad_keepalive c.common
      then some keepalive
      else elim (client_tls c.tls) [ some p ↦ some p | none ↦ rest ]

  unfoldable pub raw_listener : Option String → Bool
  raw_listener none = true
  raw_listener (some listen) = not (str_eq listen "")

  unfoldable pub validate_server : ServerConfig → Option Problem
  unfolding bad_mtu bad_keepalive same_emptiness has
  validate_server s =
      let rest =
        if not (raw_listener s.raw) then some raw else validate_tail s.common (has s.tls) in
      if same_emptiness s.common
      then some private_key
      else if not (checks.is_cidr s.subnet)
      then some subnet
      else if bad_mtu s.common
      then some mtu
      else if bad_keepalive s.common
      then some keepalive
      else if ltb 0 (neg_part s.max_sessions)
      then some max_sessions
      else elim (server_tls s.tls) [ some p ↦ some p | none ↦ rest ]

-- What the parts behind the configuration rely on.
pub record IsSane (c : Common) : Type 0 where
  pub mtu_range : (576 ≤ pos_part c.mtu) × (pos_part c.mtu ≤ 65535)
  pub one_key : (str_eq c.private_key "") ≡ not (str_eq c.private_key_encrypted "")
  pub alive : (pos_part c.session_timeout ≡ 0) ⊎ (pos_part c.keepalive < pos_part c.session_timeout)
  pub shaped : validate_shaping c.shaping ≡ true

module _ (checks : Checks) where
  -- A client's configuration that is valid has an MTU between 576 and 65535, exactly one of the
  -- two private keys, a keepalive below the session timeout if there is one, and a shaping policy
  -- that is known and has its parameter.
  pub validate_client-IsSane :
      (c : ClientConfig) → validate_client checks c ≡ none → IsSane c.common
  unfolding validate_client validate_tail
  validate_client-IsSane c e = record {
    mtu_range = ground arith;
    one_key = ground arith;
    alive = ground arith;
    shaped = ground arith;
  }

  -- The same holds of a server's valid configuration.
  pub validate_server-IsSane :
      (s : ServerConfig) → validate_server checks s ≡ none → IsSane s.common
  unfolding validate_server validate_tail
  validate_server-IsSane s e = record {
    mtu_range = ground arith;
    one_key = ground arith;
    alive = ground arith;
    shaped = ground arith;
  }
