-- ===== src/Web/ClientIp.antt =====
-- ClientIP and isTrusted of internal/web/ratelimit.go. Addresses and headers are texts of code points.
-- net.ParseIP, (*IPNet).Contains and net.SplitHostPort of Go's library are parameters.
pub mod Spoofing
use is_ntust_down.Prelude.{
  ℕ, Bool, true, false, Option, none, some, List, [], ◌∷◌, Text, trim_space, split, any_by,
  is_empty, if◌then◌else◌,
}
use mathlib.Core.List.{reverse}

pub record Net : Type 1 where
  pub Ip : Type 0
  pub Range : Type 0
  pub parse_ip : Text → Option Ip
  pub contains : Range → Ip → Bool
  -- the host of `host:port`
  pub split_host_port : Text → Option Text

module _ (net : Net) (trusted : List net.Range) where
  unfoldable pub is_trusted : Text → Bool
  is_trusted ip_str = elim (net.parse_ip ip_str) [
    | none ↦ false
    | some ip ↦ any_by (λ n. net.contains n ip) trusted
  ]

  -- the walk over the parts, the last one first
  unfoldable pub walk : Text → List Text → Text
  walk peer [] = peer
  walk peer (part ∷ parts) =
      let candidate = trim_space part in
      let rest = walk peer parts in
      if is_empty candidate then rest else if is_trusted candidate then rest else candidate

  abbrev pub peer_of : Text → Text
  peer_of remote_addr = elim (net.split_host_port remote_addr) [
    | none ↦ remote_addr
    | some host ↦ host
  ]

  unfoldable pub client_ip : Text → Text → Text
  client_ip remote_addr xff =
      let peer = peer_of remote_addr in
      if is_trusted peer
      then if is_empty xff then peer else walk peer (reverse (split b',' xff))
      else peer
