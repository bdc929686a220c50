-- ===== src/NetAddress.antt =====
-- src/ppb_net_address.c: network addresses, as structures of bytes and as resources. The bytes are
-- those of `struct sockaddr_in` (16: family, port, address of 4, padding of 8) and of
-- `struct sockaddr_in6` (28: family, port, flow of 4, address of 16, scope of 4); the program leaves
-- the family 0 and tells the two apart by the size.
pub mod Fields
pub mod Handles
use freshplayerplugin.Base.{
  ℕ, zero, suc, ◌+◌, ◌-◌, ◌*◌, ◌/◌, ◌%◌, Bool, true, false, not, ◌&&◌, Option, none, some, List, [],
  ◌∷◌, ◌++◌, ◌==◌, leb, ltb, if◌then◌else◌, Bytes, codes, equal, length, take, drop, replicate,
  ◌>>=◌,
}
use freshplayerplugin.Resource.{Registry, get_type}
use freshplayerplugin.Resource.Access.{look, make, with_resource}
use freshplayerplugin.Var.{PpVar, undefined, VarTable}
use freshplayerplugin.Var.Values.{var_from_utf8_z}

-- `struct PP_NetAddress_Private`
pub record NetAddr : Type 0 where
  pub size : ℕ
  pub bytes : Bytes

abbrev pub bytes_size : ℕ
bytes_size = 128

abbrev pub v4_size : ℕ
v4_size = 16

abbrev pub v6_size : ℕ
v6_size = 28

abbrev pub net_address_type : ℕ
net_address_type = 32

pub data Family : Type 0 where
  unspecified ipv4 ipv6 : Family

-- a number of two and of four bytes in network order
unfoldable pub htons : ℕ → Bytes
htons n = n / 256 % 256 ∷ n % 256 ∷ []

unfoldable pub ntohs : Bytes → ℕ
ntohs [] = 0
ntohs (hi ∷ []) = 0
ntohs (hi ∷ lo ∷ rest) = hi * 256 + lo

unfoldable pub htonl : ℕ → Bytes
unfolding htons
htonl n = htons (n / 65536 % 65536) ++ htons (n % 65536)

unfoldable pub ntohl : Bytes → ℕ
unfolding ntohs
ntohl b = ntohs (take 2 b) * 65536 + ntohs (drop 2 b)

-- `len` bytes at an offset, and a copy of bytes to an offset
abbrev pub field : ℕ → ℕ → Bytes → Bytes
field at len d = take len (drop at d)

abbrev pub paste : ℕ → Bytes → Bytes → Bytes
paste at b d = take at d ++ (b ++ drop (at + length b) d)

-- the branches on the size
unfoldable pub private_get_family : NetAddr → Family
private_get_family a =
    if a.size == v4_size then ipv4 else if a.size == v6_size then ipv6 else unspecified

abbrev pub port_bytes : NetAddr → Bytes
port_bytes a = field 2 2 a.bytes

abbrev pub v4_host : NetAddr → Bytes
v4_host a = field 4 4 a.bytes

abbrev pub v6_host : NetAddr → Bytes
v6_host a = field 8 16 a.bytes

unfoldable pub private_are_equal : NetAddr → NetAddr → Bool
private_are_equal a b = a.size == b.size && equal (take a.size a.bytes) (take a.size b.bytes)

unfoldable pub private_are_hosts_equal : NetAddr → NetAddr → Bool
private_are_hosts_equal a b =
    if not (a.size == b.size)
    then false
    else if a.size == v4_size
    then equal (v4_host a) (v4_host b)
    else if a.size == v6_size
    then equal (v6_host a) (v6_host b)
    else false

-- "%u" and "%x" of a number below 2^16; five digits are enough
abbrev pub digit : ℕ → ℕ
digit d = if ltb d 10 then b'0' + d else b'a' + (d - 10)

unfoldable pub print_from : ℕ → ℕ → ℕ → Bytes → Bytes
print_from zero base n after = after
print_from (suc fuel) base n after =
    let more = print_from fuel base (n / base) (digit (n % base) ∷ after) in
    if ltb n base then digit n ∷ after else more

unfoldable pub print_number : ℕ → ℕ → Bytes
unfolding print_from
print_number base n = print_from 5 base n []

-- `%u.%u.%u.%u`
unfoldable pub print_v4 : Bytes → Bytes
unfolding print_number
print_v4 [] = []
print_v4 (b ∷ []) = print_number 10 b
print_v4 (b ∷ c ∷ bs) = print_number 10 b ++ (b'.' ∷ print_v4 (c ∷ bs))

-- `%x:%x:%x:%x:%x:%x:%x:%x`
unfoldable pub print_v6 : Bytes → Bytes
unfolding print_number
print_v6 [] = []
print_v6 (b ∷ []) = []
print_v6 (b ∷ c ∷ []) = print_number 16 (b * 256 + c)
print_v6 (b ∷ c ∷ d ∷ bs) = print_number 16 (b * 256 + c) ++ (b':' ∷ print_v6 (d ∷ bs))

abbrev pub print_port : NetAddr → Bytes
print_port a = b':' ∷ print_number 10 (ntohs (port_bytes a))

unfoldable pub description : NetAddr → Bool → Option Bytes
unfolding print_v4 print_v6 ntohs
description a include_port =
    if a.size == v4_size
    then some (print_v4 (v4_host a) ++ (if include_port then print_port a else []))
    else if a.size == v6_size
    then some (
        if include_port
        then b'[' ∷ (print_v6 (v6_host a) ++ (b']' ∷ print_port a))
        else print_v6 (v6_host a))
    else none

unfoldable pub private_describe : NetAddr → Bool → VarTable → Option (VarTable × PpVar)
unfolding description
private_describe a include_port t = elim (description a include_port) [
  | none ↦ some (t, undefined)
  | some s ↦ var_from_utf8_z (some s) t
]

unfoldable pub private_replace_port : NetAddr → ℕ → NetAddr × Bool
unfolding htons
private_replace_port src port =
    if src.size == v4_size
    then (record src { bytes = paste 2 (htons port) src.bytes }, true)
    else if src.size == v6_size
    then (record src { bytes = paste 2 (htons port) src.bytes }, true)
    else (src, false)

unfoldable pub private_get_any_address : Bool → NetAddr → NetAddr
private_get_any_address is_ipv6 a =
    if is_ipv6
    then record { size = v6_size; bytes = paste 0 (replicate v6_size 0) a.bytes }
    else record { size = v4_size; bytes = paste 0 (replicate v4_size 0) a.bytes }

unfoldable pub private_get_port : NetAddr → ℕ
unfolding ntohs
private_get_port a =
    if a.size == v4_size
    then ntohs (port_bytes a)
    else if a.size == v6_size
    then ntohs (port_bytes a)
    else 0

-- The address that is copied; `none` is PP_FALSE.
unfoldable pub private_get_address : NetAddr → ℕ → Option Bytes
private_get_address a address_size =
    if a.size == v4_size
    then (if leb 4 address_size then some (v4_host a) else none)
    else if a.size == v6_size
    then (if leb 16 address_size then some (v6_host a) else none)
    else none

unfoldable pub private_get_scope_id : NetAddr → ℕ
unfolding ntohl
private_get_scope_id a = if a.size == v6_size then ntohl (field 24 4 a.bytes) else 0

unfoldable pub private_create_from_ipv4_address : Bytes → ℕ → NetAddr
unfolding htons
private_create_from_ipv4_address ip port = record {
  size = v4_size;
  bytes = 0 ∷ 0 ∷ (htons port ++ (ip ++ replicate 120 0));
}

unfoldable pub private_create_from_ipv6_address : Bytes → ℕ → ℕ → NetAddr
unfolding htons htonl
private_create_from_ipv6_address ip scope_id port = record {
  size = v6_size;
  bytes = 0 ∷ 0 ∷ (htons port ++ (0 ∷ 0 ∷ 0 ∷ 0 ∷ (ip ++ (htonl scope_id ++ replicate 100 0))));
}

-- `struct PP_NetAddress_IPv4` and `struct PP_NetAddress_IPv6`, with the two bytes of the port
pub record IpAddress : Type 0 where
  pub port : Bytes
  pub addr : Bytes

abbrev pub no_address : NetAddr
no_address = record { size = 0; bytes = replicate bytes_size 0 }

-- The structure is `none` for NULL; the instance is what `tables_get_pp_instance` finds.
unfoldable pub create_from_ipv4_address :
    Option ℕ → Option IpAddress → Registry NetAddr → Option (Registry NetAddr × ℕ)
unfolding make private_create_from_ipv4_address
create_from_ipv4_address inst none g = some (g, 0)
create_from_ipv4_address inst (some a) g =
    make no_address (λ _. private_create_from_ipv4_address a.addr (ntohs a.port)) net_address_type
      inst g

unfoldable pub create_from_ipv6_address :
    Option ℕ → Option IpAddress → Registry NetAddr → Option (Registry NetAddr × ℕ)
unfolding make private_create_from_ipv6_address
create_from_ipv6_address inst none g = some (g, 0)
create_from_ipv6_address inst (some a) g =
    make no_address (λ _. private_create_from_ipv6_address a.addr 0 (ntohs a.port)) net_address_type
      inst g

unfoldable pub is_net_address : ℕ → Registry NetAddr → Bool
is_net_address h g = get_type h g == net_address_type

unfoldable pub get_family : ℕ → Registry NetAddr → Option (Registry NetAddr × Family)
unfolding look private_get_family
get_family h g = look net_address_type h g unspecified private_get_family

-- The variable is made while the address is locked.
unfoldable pub describe_as_string :
    ℕ → Bool → Registry NetAddr → VarTable → Option (Registry NetAddr × VarTable × PpVar)
unfolding look private_describe
describe_as_string h include_port g t = do
  (g', made) ←
      look net_address_type h g (some (t, undefined)) (λ a. private_describe a include_port t)
  (t', v) ← made
  some (g', t', v)

-- The structure that is filled, if the caller has given one; `none` is PP_FALSE.
unfoldable pub describe_as_ipv4_address :
    Bool → ℕ → Registry NetAddr → Option (Registry NetAddr × Option IpAddress)
unfolding look
describe_as_ipv4_address given h g =
    if not given
    then some (g, none)
    else look net_address_type h g none (λ a.
      if not (a.size == v4_size)
      then none
      else some (record { port = port_bytes a; addr = v4_host a }))

unfoldable pub describe_as_ipv6_address :
    Bool → ℕ → Registry NetAddr → Option (Registry NetAddr × Option IpAddress)
unfolding look
describe_as_ipv6_address given h g =
    if not given
    then some (g, none)
    else look net_address_type h g none (λ a.
      if not (a.size == v6_size)
      then none
      else some (record { port = port_bytes a; addr = v6_host a }))
