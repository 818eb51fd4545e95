-- ===== src/Init/Network.antt =====
-- `bringUpNetwork`, cmd/ossein-kernel/init/main.go.
use ossein_kernel.Base.{
  Bytes, List, Option, [], codes, equal, if◌then◌else◌, none, not, some, ◌&&◌, ◌++◌, ◌∷◌,
}
use ossein_kernel.Init.{
  Answer, Call, Lease, Link, M, addr_add, attempt, call_failed, dhcp_client, dhcp_close,
  dhcp_request, lease, link_list, link_set_up, links, mkdir_all, no_ethernet, pure, request,
  route_add, throw, write_file, ◌>>=◌, ◌>>◌,
}

abbrev pub loopback : Bytes
loopback = codes "lo"

unfoldable pub first_ethernet : List Link → M Link
first_ethernet [] = throw no_ethernet
first_ethernet (l ∷ ls) =
    if not (equal l.name loopback) && not (equal l.kind []) then pure l else first_ethernet ls

abbrev pub listed : Answer → M (List Link)
listed (links ls) = pure ls
listed _ = throw (call_failed link_list)

unfoldable pub find_ethernet : M Link
find_ethernet = request link_list >>= listed >>= first_ethernet

abbrev pub leased : Answer → M Lease
leased (lease l) = pure l
leased _ = throw (call_failed dhcp_request)

-- The mask of a /24.
abbrev pub default_mask : Bytes
default_mask = codes "ffffff00"

abbrev pub mask_of : Option Bytes → Bytes
mask_of none = default_mask
mask_of (some mask) = mask

abbrev pub add_route : Link → List Bytes → M (Unit {0})
add_route l [] = pure tt
add_route l (router ∷ rest) = attempt (route_add l.index router)

unfoldable pub resolv_lines : List Bytes → Bytes
resolv_lines [] = []
resolv_lines (server ∷ rest) = codes "nameserver " ++ (server ++ (b'\n' ∷ resolv_lines rest))

abbrev pub write_nonempty : Bytes → M (Unit {0})
write_nonempty [] = pure tt
write_nonempty (c ∷ s) =
    attempt (mkdir_all (codes "/etc")) >> attempt (write_file (codes "/etc/resolv.conf") (c ∷ s))

unfoldable pub write_resolv_conf : List Bytes → M (Unit {0})
write_resolv_conf servers = write_nonempty (resolv_lines servers)

abbrev pub configure : Link → Lease → M (Unit {0})
configure l ack =
    attempt (addr_add l.name ack.your_ip (mask_of ack.subnet_mask))
    >> add_route l ack.routers
    >> write_resolv_conf ack.dns

-- A deferred call: made when `m` is over, with or without an error.
abbrev pub finally : {A : Type 0} → M A → Call → M A
finally m c w h = ((m w h).0, c ∷ (m w h).1)

unfoldable pub bring_up_network : M (Unit {0})
bring_up_network = find_ethernet >>= λ l.
    attempt (link_set_up l.name)
    >> attempt (dhcp_client l.name)
    >> finally (request dhcp_request >>= leased >>= configure l) dhcp_close
