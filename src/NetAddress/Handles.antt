-- ===== src/NetAddress/Handles.antt =====
-- Network addresses of src/ppb_net_address.c as resources: what is read from a handle that was made.
use freshplayerplugin.Base.{
  ℕ, ◌<◌, ◌≡◌, refl, ap, ◌∙◌, true, false, not, Option, none, some, [], ◌∷◌, ◌==◌, if◌then◌else◌,
  Bytes, length, replicate, arith,
}
use freshplayerplugin.Resource.{Res, Registry, find}
use freshplayerplugin.Resource.Find.{new_res}
use freshplayerplugin.Resource.Access.Effects.{IsFree, look-free, make-some}
use freshplayerplugin.NetAddress.{
  NetAddr, unspecified, ipv4, IpAddress, no_address, net_address_type, htons, ntohs, v4_size,
  port_bytes, v4_host, private_get_family, private_create_from_ipv4_address,
  create_from_ipv4_address, describe_as_ipv4_address, get_family,
}
use freshplayerplugin.NetAddress.Fields.{take_all}

htons-ntohs : (hi lo : ℕ) → hi < 256 → lo < 256 → htons (ntohs (hi ∷ lo ∷ [])) ≡ hi ∷ lo ∷ []
unfolding htons ntohs
htons-ntohs hi lo a b = ground arith

-- the structure that `describe_as_ipv4_address` fills
abbrev read_v4 : NetAddr → Option IpAddress
read_v4 a =
    if not (a.size == v4_size)
    then none
    else some (record { port = port_bytes a; addr = v4_host a })

read_v4-created :
    (hi lo : ℕ) (ip : Bytes)
    → hi < 256
    → lo < 256
    → length ip ≡ 4
    → read_v4 (private_create_from_ipv4_address ip (ntohs (hi ∷ lo ∷ [])))
      ≡ some (record { port = hi ∷ lo ∷ []; addr = ip })
unfolding private_create_from_ipv4_address
read_v4-created hi lo ip h l e =
    ap {B = Option IpAddress} (λ (x : Bytes × Bytes). some (record { port = x.0; addr = x.1 }))
      (pair (htons-ntohs hi lo h l) (take_all ip (replicate 120 0) 4 e))
  where
    pair : {x y u v : Bytes} → x ≡ u → y ≡ v → ◌≡◌ {A = Bytes × Bytes} (x, y) (u, v)
    pair a b = cc

-- An IPv4 address that is made for an instance from two bytes of port and four of host is a new
-- resource, and no other one changes; its handle has that family, and describes the same two and
-- four bytes, as often as it is asked, with no change to the table.
pub create_from_ipv4_address-describe :
    (inst hi lo : ℕ) (ip : Bytes) (g : Registry NetAddr)
    → hi < 256
    → lo < 256
    → length ip ≡ 4
    → let a : IpAddress = record { port = hi ∷ lo ∷ []; addr = ip } in
      (g1 : Registry NetAddr) × (g2 : Registry NetAddr) × (g3 : Registry NetAddr)
      × (create_from_ipv4_address (some inst) (some a) g ≡ some (g1, g.res_tbl_next))
      × (get_family g.res_tbl_next g1 ≡ some (g2, ipv4))
      × (describe_as_ipv4_address true g.res_tbl_next g2 ≡ some (g3, some a))
      × ((j : ℕ) → find j g3 ≡ find j g1)
      × ((j : ℕ) → (g.res_tbl_next == j) ≡ false → find j g1 ≡ find j g)
unfolding create_from_ipv4_address get_family describe_as_ipv4_address
    private_create_from_ipv4_address private_get_family
create_from_ipv4_address-describe inst hi lo ip g h l e =
    let made : NetAddr = private_create_from_ipv4_address ip (ntohs (hi ∷ lo ∷ [])) in
    let k : ℕ = g.res_tbl_next in
    let q : Res NetAddr = new_res made net_address_type inst k in
    let (g1, is1, table1) = make-some no_address (λ _. made) net_address_type inst g in
    let free1 : IsFree net_address_type k q g1 = record {
      there = table1 k ∙ ground arith;
      typed = refl;
      free = refl;
      counted = refl;
    } in
    let (g2, is2, table2) =
      look-free net_address_type k q g1 unspecified private_get_family free1 in
    let free2 : IsFree net_address_type k q g2 = record {
      there = table2 k ∙ free1.there;
      typed = refl;
      free = refl;
      counted = refl;
    } in
    let (g3, is3, table3) = look-free net_address_type k q g2 none read_v4 free2 in
    (
      g1,
      g2,
      g3,
      is1,
      is2,
      is3 ∙ ap (λ x. some (g3, x)) (read_v4-created hi lo ip h l e),
      λ j. table3 j ∙ table2 j,
      λ j n. table1 j ∙ ground arith,
    )
