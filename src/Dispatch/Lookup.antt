-- ===== src/Dispatch/Lookup.antt =====
-- The tables of the receive path, looked up by bus and id.
use encos_driver.Prelude.{
  ℕ, ◌+◌, ◌*◌, ◌/◌, ◌%◌, ◌^◌, ◌<◌, ◌≡◌, refl, ap, ◌∙◌, arith, Bool, true, false, Bool-cases, not,
  ◌&&◌, ◌==◌, ◌!=◌, bit_or, bit_or-shl, shl, shr, u32, u64, if◌then◌else◌, inl, inr, List, [], ◌∷◌,
  ◌++◌, map, All, Option, none, some,
}
use encos_driver.Frame.{MotorPackMsg}
use encos_driver.Dispatch.{
  ReceiveRoute, Table, is_found, called, find_place, is_live, make_receive_unique_id, shift,
  system_devices, takes,
}
use encos_driver.Dispatch.Balance.{HasRoom}

-- The keys of the routes hold the bus in the upper half and the id in the lower half.
abbrev is_key_of : ℕ → ℕ → ℕ → Bool
is_key_of bus id key = key / 2 ^ 32 == bus && key % 2 ^ 32 == id

abbrev pub route_of : ℕ → ℕ → Table ReceiveRoute → Option ReceiveRoute
route_of bus id [] = none
route_of bus id ((k, r) ∷ t) = if is_key_of bus id k then some r else route_of bus id t

abbrev pub lookup : {A : Type 0} → ℕ → Table A → Option A
lookup key [] = none
lookup key ((k, a) ∷ t) = if k == key then some a else lookup key t

-- The device of a route, if it is there and live.
abbrev pub live_device : Option ReceiveRoute → List ℕ
live_device none = []
live_device (some r) = if is_live r then r.device ∷ [] else []

abbrev pub live_devices : ℕ → Table ReceiveRoute → List ℕ
live_devices bus [] = []
live_devices bus ((k, r) ∷ t) =
    if k / 2 ^ 32 == bus && is_live r then r.device ∷ live_devices bus t else live_devices bus t

abbrev pub otherwise : List ℕ → List ℕ → List ℕ
otherwise [] ys = ys
otherwise (x ∷ xs) ys = x ∷ xs

abbrev pub is_nonempty : List ℕ → Bool
is_nonempty [] = false
is_nonempty (x ∷ xs) = true

pub make_receive_unique_id-eq :
    (bus id : ℕ) → bus < 2 ^ 32 → id < 2 ^ 32 → make_receive_unique_id bus id ≡ bus * 2 ^ 32 + id
unfolding make_receive_unique_id
make_receive_unique_id-eq bus id hb hi =
    let upper : u64 (shl (u32 bus) 32) ≡ bus * 2 ^ 32 = omega arith in
    ap (λ (t : ℕ). bit_or t id) upper ∙ bit_or-shl 32 bus id hi

key_test :
    (bus id k : ℕ)
    → bus < 2 ^ 32
    → id < 2 ^ 32
    → (k == make_receive_unique_id bus id) ≡ is_key_of bus id k
key_test bus id k hb hi = rw (make_receive_unique_id-eq bus id hb hi) (ground arith)

unfoldable pub second : {A : Type 0} → Option (ℕ × A) → Option A
second none = none
second (some (i, a)) = some a

second-shift : {A : Type 0} (o : Option (ℕ × A)) → second (shift o) ≡ second o
unfolding second
second-shift none = refl
second-shift (some (i, a)) = refl

pub find_place-lookup :
    {A : Type 0} (key : ℕ) (t : Table A) → second (find_place key t) ≡ lookup key t
unfolding find_place second
find_place-lookup key [] = refl
find_place-lookup key ((k, a) ∷ t) = elim (Bool-cases (k == key)) [
  | inl yes_ ↦ rw yes_ refl
  | inr no_ ↦ rw no_ (second-shift (find_place key t) ∙ find_place-lookup key t)
]

pub lookup-route_of :
    (bus id : ℕ) (t : Table ReceiveRoute)
    → bus < 2 ^ 32
    → id < 2 ^ 32
    → lookup (make_receive_unique_id bus id) t ≡ route_of bus id t
lookup-route_of bus id [] hb hi = refl
lookup-route_of bus id ((k, r) ∷ t) hb hi =
    ap (λ b. if b then some r else lookup (make_receive_unique_id bus id) t)
      (key_test bus id k hb hi)
    ∙ ap (λ o. if is_key_of bus id k then some r else o) (lookup-route_of bus id t hb hi)

-- A key of 64 bits, and room for a call.
abbrev pub IsRoute : ℕ × ReceiveRoute → Type 0
IsRoute (key, route) = (key < 2 ^ 64) × (route.in_flight + 1 < 2 ^ 64)

pub IsRoute-HasRoom : (t : Table ReceiveRoute) → All IsRoute t → All HasRoom t
IsRoute-HasRoom [] h = tt
IsRoute-HasRoom ((k, r) ∷ t) h = (h.0.1, IsRoute-HasRoom t h.1)

takes-eq :
    (bus k : ℕ) (r : ReceiveRoute)
    → bus < 2 ^ 32
    → k < 2 ^ 64
    → takes bus k r ≡ (k / 2 ^ 32 == bus && is_live r)
takes-eq bus k r hb hk =
    let upper : not (u32 (shr k 32) != u32 bus) ≡ (k / 2 ^ 32 == bus) = ground arith in
    ap (λ (b : Bool). b && is_live r) upper

pub system_devices-live :
    (bus : ℕ) (t : Table ReceiveRoute)
    → bus < 2 ^ 32
    → All IsRoute t
    → system_devices bus t ≡ live_devices bus t
unfolding system_devices
system_devices-live bus [] hb h = refl
system_devices-live bus ((k, r) ∷ t) hb h =
    ap (λ b. if b then r.device ∷ system_devices bus t else system_devices bus t)
      (takes-eq bus k r hb h.0.0)
    ∙ ap (λ l. if k / 2 ^ 32 == bus && is_live r then r.device ∷ l else l)
        (system_devices-live bus t hb h.1)

abbrev pub is_some : {A : Type 0} → Option A → Bool
is_some none = false
is_some (some _) = true

pub map-append_devices :
    (message : MotorPackMsg) (xs ys : List ℕ)
    → map (called message) (xs ++ ys) ≡ map (called message) xs ++ map (called message) ys
map-append_devices message [] ys = refl
map-append_devices message (x ∷ xs) ys =
    ap (λ l. (x, message) ∷ l) (map-append_devices message xs ys)

pub is_found-second : {A : Type 0} (o : Option (ℕ × A)) → is_found o ≡ is_some (second o)
unfolding second
is_found-second none = refl
is_found-second (some (i, a)) = refl
