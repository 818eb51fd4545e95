-- ===== src/Init/Required/SetUp.antt =====
-- The set-up of the guest ends well only after calls that were answered as it needs: the network and
-- the whole of `run` before the build, cmd/ossein-kernel/init/main.go.
use ossein_kernel.Base.{
  Bool-cases, Bytes, List, [], codes, equal, inl, inr, not, refl, true, ◌&&◌, ◌∷◌, ◌≡◌,
}
use ossein_kernel.Init.{
  Answer, Call, Failure, History, Lease, Link, M, Result, World, addr_add, dhcp_client, dhcp_close,
  dhcp_request, done, err, exited, failed, lease, link_list, link_set_up, links, mkdir_all,
  no_ethernet, ok, route_add, text, throw, write_file,
}
use ossein_kernel.Init.Mounts.{when}
use ossein_kernel.Init.Network.{
  add_route, bring_up_network, configure, finally, find_ethernet, first_ethernet, leased, listed,
  loopback, mask_of, resolv_lines, write_nonempty, write_resolv_conf,
}
use ossein_kernel.Init.Main.{net_token, set_up}
use ossein_kernel.Init.Required.{
  Good, Keeps, Keeps-bind, Keeps-pure, Keeps-request, Reads, accepted, cmdline_has-Keeps,
  mount_base-Keeps, mount_shares-Keeps, needed, setup_overlay_root-Keeps, when-Keeps, ◌then◌,
}

Good-closed :
    {A : Type 0} (w : World) (r : Result A) (h : History) (c : Call)
    → accepted c (w h c) ≡ true
    → Good w r h
    → Good w r (c ∷ h)
Good-closed w (ok a) h c e g = (e, g)
Good-closed w (err f) h c e g = tt

pub Keeps-finally :
    {A : Type 0} {m : M A} (c : Call)
    → ((a : Answer) → accepted c a ≡ true)
    → Keeps m
    → Keeps (finally m c)
Keeps-finally {m = m} c e k = record {
  keeps = λ w h s. Good-closed w (m w h).0 (m w h).1 c (e (w (m w h).1 c)) (k.keeps w h s);
}

Keeps-throw : {A : Type 0} (e : Failure) → Keeps {A = A} (throw e)
Keeps-throw e = record { keeps = λ w h s. tt }

first_ethernet-Keeps : (ls : List Link) → Keeps (first_ethernet ls)
unfolding first_ethernet
first_ethernet-Keeps [] = Keeps-throw no_ethernet
first_ethernet-Keeps (l ∷ ls) =
    elim (Bool-cases (not (equal l.name loopback) && not (equal l.kind []))) [
      | inl e ↦ rw e (Keeps-pure l)
      | inr e ↦ rw e (first_ethernet-Keeps ls)
    ]

Reads-listed : Reads link_list listed
Reads-listed (links ls) w h s = s refl
Reads-listed done w h s = tt
Reads-listed (failed e) w h s = tt
Reads-listed (text t) w h s = tt
Reads-listed (lease l) w h s = tt
Reads-listed (exited n) w h s = tt

Reads-leased : Reads dhcp_request leased
Reads-leased (lease l) w h s = s refl
Reads-leased done w h s = tt
Reads-leased (failed e) w h s = tt
Reads-leased (text t) w h s = tt
Reads-leased (links ls) w h s = tt
Reads-leased (exited n) w h s = tt

find_ethernet-Keeps : Keeps find_ethernet
unfolding find_ethernet
find_ethernet-Keeps =
    Keeps-bind first_ethernet (Keeps-request listed Reads-listed) first_ethernet-Keeps

add_route-Keeps : (l : Link) (routers : List Bytes) → Keeps (add_route l routers)
add_route-Keeps l [] = Keeps-pure tt
add_route-Keeps l (router ∷ rest) = needed (route_add l.index router) refl

write_nonempty-Keeps : (s : Bytes) → Keeps (write_nonempty s)
write_nonempty-Keeps [] = Keeps-pure tt
write_nonempty-Keeps (c ∷ s) =
    needed (mkdir_all (codes "/etc")) refl
    then needed (write_file (codes "/etc/resolv.conf") (c ∷ s)) refl

configure-Keeps : (l : Link) (ack : Lease) → Keeps (configure l ack)
unfolding write_resolv_conf
configure-Keeps l ack =
    needed (addr_add l.name ack.your_ip (mask_of ack.subnet_mask)) refl
    then add_route-Keeps l ack.routers
    then write_nonempty-Keeps (resolv_lines ack.dns)

bring_up_network-Keeps : Keeps bring_up_network
unfolding bring_up_network
bring_up_network-Keeps = Keeps-bind _ find_ethernet-Keeps (λ l.
    needed (link_set_up l.name) refl
    then needed (dhcp_client l.name) refl
    then Keeps-finally dhcp_close (λ a. refl)
        (Keeps-bind (configure l) (Keeps-request leased Reads-leased) (configure-Keeps l)))

pub set_up-Keeps : Keeps set_up
unfolding set_up
set_up-Keeps =
    setup_overlay_root-Keeps
    then mount_base-Keeps
    then mount_shares-Keeps
    then Keeps-bind (λ declared. when declared bring_up_network) (cmdline_has-Keeps net_token)
        (λ declared. when-Keeps declared bring_up_network bring_up_network-Keeps)
