-- ===== src/Ipv4/Sums.antt =====
-- The two checksums that `EncodePacket` of plugins/adapter/ethernet/protocol/ipv4.cc fills in.
use encos_driver.Prelude.{
  ℕ, ◌+◌, ◌^◌, ◌≤◌, ◌<◌, ◌≡◌, refl, ap, ◌∙◌, ◌!=◌, inl, inr, ◌⊎◌, Bool-cases, if◌then◌else◌, List,
  [], ◌∷◌, ◌++◌, length, arith,
}
use encos_driver.Ipv4.{
  Route, address_bytes, sum, finish, ip_header, udp_header, ip_checksum, udp_checksum, pseudo_sum,
}
use encos_driver.Ipv4.Checksum.{AreBytes, word_sum-le, sum-word_sum, finish-zero, finish-Folded}

-- Bytes in the addresses and 16-bit ports.
pub record IsRoute (r : Route) : Type 0 where
  pub local_bytes : AreBytes (address_bytes r.local_ip)
  pub remote_bytes : AreBytes (address_bytes r.remote_ip)
  pub local_small : r.local_port < 65536
  pub remote_small : r.remote_port < 65536

AreBytes-append : (xs ys : List ℕ) → AreBytes xs → AreBytes ys → AreBytes (xs ++ ys)
AreBytes-append [] ys h g = g
AreBytes-append (x ∷ xs) ys (h, hs) g = (h, AreBytes-append xs ys hs g)

-- A checksum of zero is sent as its complement.
checksum_or :
    (f : ℕ)
    → ((if f != 0 then f else 0xFFFF) ≡ f) ⊎ ((f ≡ 0) × ((if f != 0 then f else 0xFFFF) ≡ 65535))
checksum_or f = elim (Bool-cases (f != 0)) [
  | inl some_ ↦ inl (rw some_ refl)
  | inr none_ ↦ inr (ground arith, rw none_ refl)
]

checksum_or-lt : (f : ℕ) → f < 65536 → (if f != 0 then f else 0xFFFF) < 65536
checksum_or-lt f h = ground arith

finish-lt : (s : ℕ) → s < 2 ^ 32 → finish s < 65536
unfolding finish
finish-lt s h = let f = finish-Folded s h in omega (arith, f.result)

module _ (r : Route) (valid : IsRoute r) where
  pub header_bytes : (total c : ℕ) → AreBytes (ip_header r total c)
  header_bytes total c =
      let (l0, (l1, (l2, (l3, u)))) = valid.local_bytes in
      (
        omega arith,
        (
          omega arith,
          (
            omega arith,
            (
              omega arith,
              (
                omega arith,
                (
                  omega arith,
                  (
                    omega arith,
                    (
                      omega arith,
                      (
                        omega arith,
                        (
                          omega arith,
                          (omega arith, (omega arith, (l0, (l1, (l2, (l3, valid.remote_bytes)))))),
                        ),
                      ),
                    ),
                  ),
                ),
              ),
            ),
          ),
        ),
      )

  ip_sum : (total c : ℕ) → c < 65536 → sum (ip_header r total c) 0 ≡ sum (ip_header r total 0) 0 + c
  ip_sum total c h =
      let with_c =
        sum-word_sum (ip_header r total c) 0 (header_bytes total c)
          (omega (arith, word_sum-le (ip_header r total c) (header_bytes total c))) in
      let without =
        sum-word_sum (ip_header r total 0) 0 (header_bytes total 0)
          (omega (arith, word_sum-le (ip_header r total 0) (header_bytes total 0))) in
      omega (arith, with_c, without)

  udp_bytes :
      (len d : ℕ) (payload : List ℕ) → AreBytes payload → AreBytes (udp_header r len d ++ payload)
  udp_bytes len d payload h = (
    omega arith,
    (
      omega arith,
      (omega arith, (omega arith, (omega arith, (omega arith, (omega arith, (omega arith, h)))))),
    ),
  )

  udp_sum :
      (len d acc : ℕ) (payload : List ℕ)
      → AreBytes payload
      → length payload ≤ 1448
      → acc < 2 ^ 24
      → d < 65536
      → sum (udp_header r len d ++ payload) acc ≡ sum (udp_header r len 0 ++ payload) acc + d
  udp_sum len d acc payload b n a h =
      let bound = word_sum-le payload b in
      let with_d =
        sum-word_sum (udp_header r len d ++ payload) acc (udp_bytes len d payload b)
          (omega arith) in
      let without =
        sum-word_sum (udp_header r len 0 ++ payload) acc (udp_bytes len 0 payload b)
          (omega arith) in
      omega (arith, with_d, without)

  ip_checksum-lt : (total : ℕ) → ip_checksum r total < 65536
  unfolding finish
  ip_checksum-lt total =
      let bytes = header_bytes total 0 in
      let le = word_sum-le (ip_header r total 0) bytes in
      let value = sum-word_sum (ip_header r total 0) 0 bytes (omega arith) in
      let f = finish-Folded (sum (ip_header r total 0) 0) (omega (arith, value, le)) in
      omega (arith, f.result)

  pub ip_checksum-finish :
      (total : ℕ) → finish (sum (ip_header r total (ip_checksum r total)) 0) ≡ 0
  ip_checksum-finish total =
      let bytes = header_bytes total 0 in
      let le = word_sum-le (ip_header r total 0) bytes in
      let value = sum-word_sum (ip_header r total 0) 0 bytes (omega arith) in
      ap finish (ip_sum total (ip_checksum r total) (ip_checksum-lt total))
      ∙ finish-zero (sum (ip_header r total 0) 0) (ip_checksum r total) (omega (arith, value))
          (omega (arith, value, le)) (inl refl)

  pseudo-lt :
      (len : ℕ)
      → len < 65536
      → pseudo_sum (address_bytes r.local_ip ++ address_bytes r.remote_ip) len < 2 ^ 24
  pseudo-lt len h =
      let bytes =
        AreBytes-append (address_bytes r.local_ip) (address_bytes r.remote_ip) valid.local_bytes
          valid.remote_bytes in
      let le = word_sum-le (address_bytes r.local_ip ++ address_bytes r.remote_ip) bytes in
      let value =
        sum-word_sum (address_bytes r.local_ip ++ address_bytes r.remote_ip) 0 bytes
          (omega arith) in
      omega (arith, value, le)

  pub udp_checksum-finish :
      (len : ℕ) (payload : List ℕ)
      → AreBytes payload
      → length payload ≤ 1448
      → 8 ≤ len
      → len < 65536
      → finish (
          sum
            (udp_header r len (udp_checksum r payload len) ++ payload)
            (pseudo_sum (address_bytes r.local_ip ++ address_bytes r.remote_ip) len))
        ≡ 0
  udp_checksum-finish len payload b n small big =
      let acc = pseudo_sum (address_bytes r.local_ip ++ address_bytes r.remote_ip) len in
      let start = sum (udp_header r len 0 ++ payload) acc in
      let below = pseudo-lt len big in
      let bytes = udp_bytes len 0 payload b in
      let value =
        sum-word_sum (udp_header r len 0 ++ payload) acc bytes
          (omega (arith, word_sum-le payload b)) in
      let bound : start + 65535 < 2 ^ 32 = omega (arith, value, word_sum-le payload b) in
      let positive : 0 < start = omega (arith, value) in
      ap finish (
        udp_sum len (udp_checksum r payload len) acc payload b n below
          (checksum_or-lt (finish start) (finish-lt start (omega arith))))
      ∙ finish-zero start (udp_checksum r payload len) positive bound (checksum_or (finish start))
