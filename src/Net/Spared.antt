-- ===== src/Net/Spared.antt =====
-- The sources that the host's own addresses protect from automatic bans.
use ai_firewall.Prelude.{
  ℕ, ◌^◌, ◌<◌, ◌≡◌, Bool, true, ◌&&◌, Option, some, List, ◌∷◌, map, any, retain, contains,
}
use ai_firewall.Text.{Text}
use ai_firewall.Config.Cidr
use ai_firewall.Config.Cidr.{Cidr, single}
use ai_firewall.Detector.{Detector}
use ai_firewall.Net.{
  IfAddr, interface_networks, own_addresses, is_virt_bridge, loopback, gateway_of,
}

abbrev inside : ℕ → Cidr → Bool
inside ip c = Cidr.contains c ip

-- Who must never be banned by the detector: the gateway, a name server, an own address, and an
-- address of the network of a virtual bridge.
pub data IsOurs (route : Option (Text × ℕ)) (servers : List ℕ) (entries : List IfAddr) (ip : ℕ)
    : Type 0 where
  gateway : (iface : Text) → route ≡ some (iface, ip) → IsOurs route servers entries ip
  server : contains ip servers ≡ true → IsOurs route servers entries ip
  own : contains ip (own_addresses entries) ≡ true → IsOurs route servers entries ip
  guest :
      any (λ n. is_virt_bridge n.iface && Cidr.contains n.net ip) (interface_networks entries)
        ≡ true
      → IsOurs route servers entries ip

module _ (route : Option (Text × ℕ)) (servers : List ℕ) (entries : List IfAddr) (ip : ℕ)
    (fits : ip < 2 ^ 32) where
  abbrev front : List Cidr
  front = loopback ∷ single 0 ∷ gateway_of route

  abbrev own_nets : List Cidr
  own_nets = map single (own_addresses entries)

  abbrev guest_nets : List Cidr
  guest_nets = map (λ n. n.net) (retain (λ n. is_virt_bridge n.iface) (interface_networks entries))
