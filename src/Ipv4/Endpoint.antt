-- ===== src/Ipv4/Endpoint.antt =====
-- `ParseEndpoint` of ipv4.cc: the texts `interface@IPv4[,port]`.
use encos_driver.Prelude.{
  ℕ, ◌<◌, ◌≡◌, refl, subst, arith, Bool, true, false, Bool-cases, bit_and, not, ◌==◌, ◌&&◌, ◌||◌,
  ltb, if◌then◌else◌, inl, inr, List, [], ◌∷◌, length, get_or, Option, none, some,
}
use encos_driver.Ipv4.Text.{all_decimal, decimal_value, parse_ipv4, split_at}

pub record Endpoint : Type 0 where
  pub interface_name : List ℕ
  pub address : List ℕ
  pub port : ℕ

-- `operator==` of strings.
abbrev pub same_text : List ℕ → List ℕ → Bool
same_text [] [] = true
same_text [] (y ∷ ys) = false
same_text (x ∷ xs) [] = false
same_text (x ∷ xs) (y ∷ ys) = x == y && same_text xs ys

abbrev pub contains : ℕ → List ℕ → Bool
contains c [] = false
contains c (x ∷ xs) = x == c || contains c xs

-- "0.0.0.0", "255.255.255.255" and "192.168.100.254".
abbrev pub any_address : List ℕ
any_address = b'0' ∷ b'.' ∷ b'0' ∷ b'.' ∷ b'0' ∷ b'.' ∷ b'0' ∷ []

abbrev pub broadcast_address : List ℕ
broadcast_address =
    b'2' ∷ b'5' ∷ b'5' ∷ b'.' ∷ b'2' ∷ b'5' ∷ b'5' ∷ b'.' ∷ b'2' ∷ b'5' ∷ b'5' ∷ b'.' ∷ b'2' ∷ b'5'
    ∷ b'5' ∷ []

abbrev pub client_address : List ℕ
client_address =
    b'1' ∷ b'9' ∷ b'2' ∷ b'.' ∷ b'1' ∷ b'6' ∷ b'8' ∷ b'.' ∷ b'1' ∷ b'0' ∷ b'0' ∷ b'.' ∷ b'2' ∷ b'5'
    ∷ b'4' ∷ []

-- The port after the comma; without one, the default of the structure.
unfoldable pub parse_port : Option (List ℕ) → Option ℕ
parse_port none = some 5000
parse_port (some port) =
    if length port == 0 || ltb 5 (length port) || not (all_decimal port)
    then none
    else if decimal_value 0 port == 0 || ltb 65535 (decimal_value 0 port)
    then none
    else some (decimal_value 0 port)

unfoldable pub is_refused : List ℕ → List ℕ → Bool
is_refused address bytes =
    bit_and (get_or bytes 0 0) 0xF0 == 0xE0
    || same_text address any_address
    || same_text address broadcast_address
    || same_text address client_address

abbrev pub with_port : List ℕ → List ℕ → Option ℕ → Option Endpoint
with_port interface_name address none = none
with_port interface_name address (some port) =
    some (record { interface_name = interface_name; address = address; port = port })

-- Once the parts are split and the address is parsed.
unfoldable pub check_endpoint :
    List ℕ → List ℕ × Option (List ℕ) → Option (List ℕ) → Option Endpoint
check_endpoint interface_name (address, port) none = none
check_endpoint interface_name (address, port) (some bytes) =
    if is_refused address bytes then none else with_port interface_name address (parse_port port)

abbrev pub parse_rest : List ℕ → List ℕ × Option (List ℕ) → Option Endpoint
parse_rest interface_name parts = check_endpoint interface_name parts (parse_ipv4 parts.0)

abbrev pub parse_split : List ℕ → List ℕ × Option (List ℕ) → Option Endpoint
parse_split text (interface_name, none) = none
parse_split text (interface_name, some rest) =
    if length interface_name == 0 || contains 0 text
    then none
    else parse_rest interface_name (split_at b',' rest)

unfoldable pub parse_endpoint : List ℕ → Option Endpoint
parse_endpoint text = parse_split text (split_at b'@' text)

-- An interface, a unicast address and a port.
pub record IsUnicast (e : Endpoint) : Type 0 where
  pub named : 0 < length e.interface_name
  pub bytes : List ℕ
  pub parsed : parse_ipv4 e.address ≡ some bytes
  pub unicast : is_refused e.address bytes ≡ false
  pub port_positive : 0 < e.port
  pub port_small : e.port < 65536

none-some : (e : Endpoint) → ¬ (none ≡ some e)
none-some e h = absurd cc

parse_port-bounds :
    (o : Option (List ℕ)) (port : ℕ) → parse_port o ≡ some port → (0 < port) × (port < 65536)
unfolding parse_port
parse_port-bounds none port h = ground arith
parse_port-bounds (some text) port h = ground arith

with_port-IsUnicast :
    (interface_name address bytes : List ℕ) (o : Option ℕ) (e : Endpoint)
    → 0 < length interface_name
    → parse_ipv4 address ≡ some bytes
    → is_refused address bytes ≡ false
    → ((port : ℕ) → o ≡ some port → (0 < port) × (port < 65536))
    → with_port interface_name address o ≡ some e
    → IsUnicast e
with_port-IsUnicast i a bs none e n p u k h = absurd cc
with_port-IsUnicast i a bs (some port) e n p u k h =
    let made : Endpoint = record { interface_name = i; address = a; port = port } in
    let same : made ≡ e = cc in
    subst IsUnicast same (record {
      named = n;
      bytes = bs;
      parsed = p;
      unicast = u;
      port_positive = (k port refl).0;
      port_small = (k port refl).1;
    })

check_endpoint-IsUnicast :
    (interface_name address : List ℕ) (port : Option (List ℕ)) (o : Option (List ℕ)) (e : Endpoint)
    → 0 < length interface_name
    → parse_ipv4 address ≡ o
    → check_endpoint interface_name (address, port) o ≡ some e
    → IsUnicast e
unfolding check_endpoint
check_endpoint-IsUnicast i a port none e n p h = absurd cc
check_endpoint-IsUnicast i a port (some bs) e n p h = elim (Bool-cases (is_refused a bs)) [
  | inl refused ↦ absurd (none-some e (rw refused at h))
  | inr unicast ↦
      with_port-IsUnicast i a bs (parse_port port) e n p unicast (parse_port-bounds port)
        (rw unicast at h)
]

parse_split-IsUnicast :
    (text : List ℕ) (parts : List ℕ × Option (List ℕ)) (e : Endpoint)
    → parse_split text parts ≡ some e
    → IsUnicast e
parse_split-IsUnicast text (i, none) e h = absurd cc
parse_split-IsUnicast text (i, some rest) e h =
    let parts = split_at b',' rest in
    elim (Bool-cases (length i == 0 || contains 0 text)) [
      | inl bad ↦ absurd (none-some e (rw bad at h))
      | inr good ↦
          check_endpoint-IsUnicast i parts.0 parts.1 (parse_ipv4 parts.0) e (ground arith) refl
            (rw good at h)
    ]

-- An endpoint that is returned has a name of an interface, an address in the form that `ParseIPv4`
-- accepts, no multicast, broadcast, unspecified or own address, and a port from 1 to 65535.
pub parse_endpoint-IsUnicast :
    (text : List ℕ) (e : Endpoint) → parse_endpoint text ≡ some e → IsUnicast e
unfolding parse_endpoint
parse_endpoint-IsUnicast text e h = parse_split-IsUnicast text (split_at b'@' text) e h
