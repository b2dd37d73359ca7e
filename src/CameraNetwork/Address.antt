-- ===== src/CameraNetwork/Address.antt =====
-- selectAddress of internal/cameranetwork/network.go. An IPv4 address is a number below 2 ^ 32, and a
-- contiguous mask is the number of addresses of its networks.
use dronservice_updates.Prelude.{
  ℕ, zero, suc, ◌+◌, ◌-◌, ◌*◌, ◌/◌, Bool, false, ◌||◌, Option, none, some, List, [], ◌∷◌, ltb, ◌==◌,
  if◌then◌else◌,
}

-- `camera.Mask(mask)`
unfoldable pub network_of : ℕ → ℕ → ℕ
network_of size camera = camera / size * size

-- The network with all bits set that the mask leaves.
unfoldable pub broadcast_of : ℕ → ℕ → ℕ
unfolding network_of
broadcast_of size camera = network_of size camera + (size - 1)

unfoldable pub among : ℕ → List ℕ → Bool
among a [] = false
among a (b ∷ rest) = b == a || among a rest

unfoldable pub is_gateway : Option ℕ → ℕ → Bool
is_gateway none a = false
is_gateway (some g) a = g == a

-- The map `used`. A gateway that is no IPv4 address is no candidate.
unfoldable pub is_used : ℕ → ℕ → Option ℕ → List ℕ → ℕ → Bool
unfolding network_of broadcast_of among is_gateway
is_used size camera gateway assigned a =
    camera == a
    || network_of size camera == a
    || broadcast_of size camera == a
    || is_gateway gateway a
    || among a assigned

-- The loop `for value >= end; value--`, with the rounds that are left of 1024.
unfoldable pub search_down : (ℕ → Bool) → ℕ → ℕ → ℕ → Option ℕ
search_down used end zero value = none
search_down used end (suc rounds) value =
    let rest = search_down used end rounds (value - 1) in
    if ltb value end then none else if used value then rest else some value

-- `start - value < 1024`
abbrev pub max_candidates : ℕ
max_candidates = 1024

unfoldable pub select_address : ℕ → ℕ → Option ℕ → List ℕ → Option ℕ
unfolding network_of broadcast_of
select_address size camera gateway assigned =
    search_down (is_used size camera gateway assigned) (network_of size camera + 1) max_candidates
      (broadcast_of size camera - 1)
