-- ===== src/Web/ClientIp/Spoofing.antt =====
-- What a client can and cannot do to the identity that ClientIP of internal/web/ratelimit.go gives it.
use is_ntust_down.Prelude.{
  ◌≡◌, ◌≢◌, ◌⊎◌, inl, refl, ap, true, false, List, [], ◌∷◌, ◌++◌, Text, split, split-append,
  is_empty, arith,
}
use mathlib.Core.List.{reverse, reverse-append}
use is_ntust_down.Web.ClientIp.{Net, is_trusted, walk, peer_of, client_ip}

not_empty : (s t : Text) → is_empty (s ++ b',' ∷ t) ≡ false
not_empty [] t = refl
not_empty (c ∷ s) t = refl

module _ (net : Net) (trusted : List net.Range) where
  walk_cases :
      (peer : Text) (parts : List Text)
      → (walk net trusted peer parts ≡ peer)
        ⊎ (is_trusted net trusted (walk net trusted peer parts) ≡ false)
  unfolding walk
  walk_cases peer [] = inl refl
  walk_cases peer (part ∷ parts) = ground (arith, walk_cases peer parts)

  walk-append :
      (peer : Text) (parts more : List Text)
      → walk net trusted peer parts ≢ peer
      → walk net trusted peer (parts ++ more) ≡ walk net trusted peer parts
  unfolding walk
  walk-append peer [] more h = absurd (h refl)
  walk-append peer (part ∷ parts) more h = ground (arith, walk-append peer parts more)

  -- A client's address is the peer's, or one that no trusted range contains.
  client_ip_cases :
      (remote_addr xff : Text)
      → let ip = client_ip net trusted remote_addr xff in
        (ip ≡ peer_of net trusted remote_addr) ⊎ (is_trusted net trusted ip ≡ false)
  unfolding client_ip
  client_ip_cases remote_addr xff =
      ground (arith, walk_cases (peer_of net trusted remote_addr) (reverse (split b',' xff)))

  -- Behind a trusted peer, if the forwarded header yields an address other than the peer's,
  -- putting any text and a comma in front of the header does not change the address that it
  -- yields.
  pub client_ip-append :
      (remote_addr forged xff : Text)
      → is_trusted net trusted (peer_of net trusted remote_addr) ≡ true
      → client_ip net trusted remote_addr xff ≢ peer_of net trusted remote_addr
      → client_ip net trusted remote_addr (forged ++ b',' ∷ xff)
        ≡ client_ip net trusted remote_addr xff
  unfolding client_ip
  client_ip-append remote_addr forged xff h ne =
      let peer = peer_of net trusted remote_addr in
      ground (
        arith,
        not_empty forged xff,
        walk-append peer (reverse (split b',' xff)) (reverse (split b',' forged)),
        ap reverse (split-append b',' forged xff),
        reverse-append (split b',' forged) (split b',' xff),
      )
