-- ===== src/NetAddress/Fields.antt =====
-- What the operations on the structures of src/ppb_net_address.c give back.
use freshplayerplugin.Base.{
  ℕ, zero, suc, ◌≤◌, ◌<◌, ◌^◌, ◌≡◌, ◌↔◌, refl, sym, ap, ◌∙◌, Bool, true, false, not, none, some, [],
  ◌∷◌, ◌++◌, ◌==◌, leb, if◌then◌else◌, Bytes, equal, equal_iff, length, take, drop, replicate,
  Bool-cases, inl, inr, arith,
}
use freshplayerplugin.NetAddress.{
  NetAddr, Family, ipv4, ipv6, unspecified, v4_size, v6_size, htons, ntohs, htonl, ntohl,
  private_get_family, private_are_equal, private_are_hosts_equal, private_replace_port,
  private_get_port, private_get_address, private_get_scope_id, private_create_from_ipv4_address,
  private_create_from_ipv6_address, paste, v4_host, v6_host,
}

pub ntohs-htons : (n : ℕ) → n < 2 ^ 16 → ntohs (htons n) ≡ n
unfolding ntohs htons
ntohs-htons n h = omega arith

pub ntohl-htonl : (n : ℕ) → n < 2 ^ 32 → ntohl (htonl n) ≡ n
unfolding ntohl htonl ntohs
ntohl-htonl n h = omega arith

pub take_all : (a b : Bytes) (n : ℕ) → length a ≡ n → take n (a ++ b) ≡ a
take_all [] b zero h = refl
take_all [] b (suc n) h = absurd (omega arith)
take_all (c ∷ a) b zero h = absurd (omega arith)
take_all (c ∷ a) b (suc n) h = ap (◌∷◌ c) (take_all a b n (omega arith))

pub drop_all : (a b : Bytes) (n : ℕ) → length a ≡ n → drop n (a ++ b) ≡ b
drop_all [] b zero h = refl
drop_all [] b (suc n) h = absurd (omega arith)
drop_all (c ∷ a) b zero h = absurd (omega arith)
drop_all (c ∷ a) b (suc n) h = drop_all a b n (omega arith)

-- An IPv4 address that is created from four bytes and a 16-bit port has that family, that port and
-- those bytes, which are given only into memory for four, and no scope.
pub ipv4-getters :
    (ip : Bytes) (port size : ℕ)
    → length ip ≡ 4
    → port < 2 ^ 16
    → let a = private_create_from_ipv4_address ip port in
      (private_get_family a ≡ ipv4)
      × (private_get_port a ≡ port)
      × (private_get_address a size ≡ (if leb 4 size then some ip else none))
      × (private_get_scope_id a ≡ 0)
unfolding private_create_from_ipv4_address private_get_family private_get_port private_get_address
    private_get_scope_id
ipv4-getters ip port size l h =
    (refl, ntohs-htons port h, rw (take_all ip (replicate 120 0) 4 l) refl, refl)

ntohl-htonl_padded : (n : ℕ) → n < 2 ^ 32 → ntohl (take 4 (htonl n ++ replicate 100 0)) ≡ n
unfolding htonl htons
ntohl-htonl_padded n h = ntohl-htonl n h

-- An IPv6 address that is created from sixteen bytes, a 32-bit scope and a 16-bit port has that
-- family, that port, those bytes, which are given only into memory for sixteen, and that scope.
pub ipv6-getters :
    (ip : Bytes) (scope_id port size : ℕ)
    → length ip ≡ 16
    → scope_id < 2 ^ 32
    → port < 2 ^ 16
    → let a = private_create_from_ipv6_address ip scope_id port in
      (private_get_family a ≡ ipv6)
      × (private_get_port a ≡ port)
      × (private_get_address a size ≡ (if leb 16 size then some ip else none))
      × (private_get_scope_id a ≡ scope_id)
unfolding private_create_from_ipv6_address private_get_family private_get_port private_get_address
    private_get_scope_id
ipv6-getters ip scope_id port size l s h = (
  refl,
  ntohs-htons port h,
  ap (λ x. if leb 16 size then some x else none)
      (take_all ip (htonl scope_id ++ replicate 100 0) 16 l),
  ap (λ x. ntohl (take 4 x)) (drop_all ip (htonl scope_id ++ replicate 100 0) 16 l)
      ∙ ntohl-htonl_padded scope_id s,
)

port-paste :
    (d : Bytes) (port : ℕ) → 4 ≤ length d → take 2 (drop 2 (paste 2 (htons port) d)) ≡ htons port
unfolding htons
port-paste (b ∷ c ∷ e ∷ f ∷ d) port h = refl
port-paste (b ∷ c ∷ e ∷ []) port h = absurd (omega arith)
port-paste (b ∷ c ∷ []) port h = absurd (omega arith)
port-paste (b ∷ []) port h = absurd (omega arith)
port-paste [] port h = absurd (omega arith)

host-paste :
    (d : Bytes) (port k : ℕ)
    → 4 ≤ length d
    → drop (suc (suc (suc (suc k)))) (paste 2 (htons port) d) ≡ drop (suc (suc (suc (suc k)))) d
unfolding htons
host-paste (b ∷ c ∷ e ∷ f ∷ d) port k h = refl
host-paste (b ∷ c ∷ e ∷ []) port k h = absurd (omega arith)
host-paste (b ∷ c ∷ []) port k h = absurd (omega arith)
host-paste (b ∷ []) port k h = absurd (omega arith)
host-paste [] port k h = absurd (omega arith)

equal_refl : (b : Bytes) → equal b b ≡ true
equal_refl b = (equal_iff b b).1 refl

hosts-same :
    (size : ℕ) (x y : Bytes) → y ≡ x → (if not (size == size) then false else equal x y) ≡ true
hosts-same size x y e = ground (arith, equal_refl x)

port-same :
    (d : Bytes) (port : ℕ)
    → 4 ≤ length d
    → port < 2 ^ 16
    → ntohs (take 2 (drop 2 (paste 2 (htons port) d))) ≡ port
port-same d port long h = ap ntohs (port-paste d port long) ∙ ntohs-htons port h

-- What a replacement of the port gives, by the family of the address.
abbrev pub Replaced : Family → NetAddr → ℕ → NetAddr × Bool → Type 0
Replaced unspecified a port (b, ok) = (ok ≡ false) × (b ≡ a)
Replaced family a port (b, ok) =
    (ok ≡ true)
    × (private_get_family b ≡ family)
    × (private_are_hosts_equal a b ≡ true)
    × (private_get_port b ≡ port)

-- Replacing the port of an address with a known family succeeds and gives an address of the same
-- family and host with that port; of any other address it fails and gives a copy.
pub replace_port-Replaced :
    (a : NetAddr) (port : ℕ)
    → length a.bytes ≡ 128
    → port < 2 ^ 16
    → Replaced (private_get_family a) a port (private_replace_port a port)
unfolding private_replace_port private_get_family private_are_hosts_equal private_get_port
replace_port-Replaced a port l h =
    let long : 4 ≤ length a.bytes = omega arith in
    elim (Bool-cases (a.size == v4_size)) [
      | inl e ↦ simp e (
        refl,
        refl,
        hosts-same a.size (v4_host a) _ (ap (take 4) (host-paste a.bytes port 0 long)),
        port-same a.bytes port long h,
      )
      | inr n ↦ elim (Bool-cases (a.size == v6_size)) [
        | inl e ↦
            simp (n, e)
              (
                refl,
                refl,
                hosts-same a.size (v6_host a) _ (ap (take 16) (host-paste a.bytes port 4 long)),
                port-same a.bytes port long h,
              )
        | inr m ↦ simp (n, m) (refl, refl)
      ]
    ]

host_in : (ip : Bytes) → length ip ≡ 4 → take 4 (take 12 (ip ++ replicate 120 0)) ≡ ip
host_in (a ∷ b ∷ c ∷ d ∷ []) l = refl
host_in (a ∷ b ∷ c ∷ d ∷ e ∷ ip) l = absurd (omega arith)
host_in (a ∷ b ∷ c ∷ []) l = absurd (omega arith)
host_in (a ∷ b ∷ []) l = absurd (omega arith)
host_in (a ∷ []) l = absurd (omega arith)
host_in [] l = absurd (omega arith)

equal-through_iff : {x y u v : Bytes} → x ≡ u → y ≡ v → (equal x y ≡ true) ↔ (u ≡ v)
equal-through_iff {x} {y} a b =
    (λ e. sym a ∙ (equal_iff x y).0 e ∙ b, λ e. (equal_iff x y).1 (a ∙ e ∙ sym b))

-- The bytes that `private_are_equal` compares.
abbrev compared : Bytes → ℕ → Bytes
compared ip port = 0 ∷ 0 ∷ (htons port ++ take 12 (ip ++ replicate 120 0))

compared-same :
    (ip ip' : Bytes) (port port' : ℕ)
    → length ip ≡ 4
    → length ip' ≡ 4
    → port < 2 ^ 16
    → port' < 2 ^ 16
    → compared ip port ≡ compared ip' port'
    → (ip ≡ ip') × (port ≡ port')
unfolding htons
compared-same ip ip' port port' l l' h h' e = (
  sym (host_in ip l) ∙ ap (λ x. take 4 (drop 4 x)) e ∙ host_in ip' l',
  sym (ntohs-htons port h) ∙ ap (λ x. ntohs (take 2 (drop 2 x))) e ∙ ntohs-htons port' h',
)

-- Two IPv4 addresses that are created from four bytes and 16-bit ports are equal exactly if the
-- bytes and the ports are, and their hosts exactly if the bytes are.
pub ipv4-are_equal_iff :
    (ip ip' : Bytes) (port port' : ℕ)
    → length ip ≡ 4
    → length ip' ≡ 4
    → port < 2 ^ 16
    → port' < 2 ^ 16
    → let a = private_create_from_ipv4_address ip port in
      let b = private_create_from_ipv4_address ip' port' in
      ((private_are_equal a b ≡ true) ↔ ((ip ≡ ip') × (port ≡ port')))
      × ((private_are_hosts_equal a b ≡ true) ↔ (ip ≡ ip'))
unfolding private_create_from_ipv4_address private_are_equal private_are_hosts_equal htons
ipv4-are_equal_iff ip ip' port port' l l' h h' = (
  (
    λ e.
        compared-same ip ip' port port' l l' h h'
          ((equal_iff (compared ip port) (compared ip' port')).0 e),
    λ (a, b).
        (equal_iff (compared ip port) (compared ip' port')).1
          (ap (λ x. compared x port) a ∙ ap (compared ip') b),
  ),
  equal-through_iff (take_all ip (replicate 120 0) 4 l) (take_all ip' (replicate 120 0) 4 l'),
)
