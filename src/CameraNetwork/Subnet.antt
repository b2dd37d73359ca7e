-- ===== src/CameraNetwork/Subnet.antt =====
-- The networks of internal/cameranetwork/network.go as ranges of addresses.
use native.Mathlib.Nat.{le-div_iff_mul-le, div-lt_iff_lt-mul}
use dronservice_updates.Prelude.{ℕ, suc, ◌+◌, ◌*◌, ◌/◌, ◌<◌, ◌≤◌, true, ◌≡◌, ◌≢◌, ap, arith, ◌↔◌}
use dronservice_updates.CameraNetwork.Address.{network_of, broadcast_of}
use dronservice_updates.CameraNetwork.Request.{in_subnet}

-- The network of a size that has the camera has the address too, and it is not the camera's, nor the
-- first or the last of the network.
pub record InNetwork (size camera a : ℕ) : Type 0 where
  pub block : ℕ
  pub camera_least : block * size ≤ camera
  pub camera_most : camera < block * size + size
  pub least : block * size < a
  pub most : suc a < block * size + size
  pub other : a ≢ camera

pub same_network :
    (size camera a : ℕ)
    → 0 < size
    → network_of size camera ≤ a
    → a < network_of size camera + size
    → network_of size a ≡ network_of size camera
unfolding network_of
same_network size camera a positive lo hi =
    let least : camera / size ≤ a / size = (le-div_iff_mul-le positive).1 lo in
    let most : a / size < suc (camera / size) =
      (div-lt_iff_lt-mul positive).1 (grind (arith, hi)) in
    let same : a / size ≡ camera / size = omega (arith, least, most) in ap (λ k. k * size) same

network_bounds : (size a : ℕ) → 0 < size → (a / size * size ≤ a) × (a < a / size * size + size)
network_bounds size a positive =
    let least : a / size * size ≤ a = (le-div_iff_mul-le positive).0 (omega arith) in
    let most : a < suc (a / size) * size = (div-lt_iff_lt-mul positive).0 (omega arith) in
    (least, grind (arith, most))

in_subnet-InNetwork :
    (size camera a : ℕ) → 0 < size → in_subnet size camera a ≡ true → InNetwork size camera a
unfolding in_subnet network_of broadcast_of
in_subnet-InNetwork size camera a positive h =
    let bounds = network_bounds size a positive in
    let camera_bounds = network_bounds size camera positive in
    record {
      block = camera / size;
      camera_least = camera_bounds.0;
      camera_most = camera_bounds.1;
      least = ground (arith, h, bounds.0, bounds.1);
      most = ground (arith, h, bounds.0, bounds.1);
      other = λ e. ground (arith, h, e);
    }

network_block :
    (size camera a : ℕ) (n : InNetwork size camera a)
    → 0 < size
    → network_of size camera ≡ n.block * size
unfolding network_of
network_block size camera a n positive =
    let lo : n.block ≤ camera / size = (le-div_iff_mul-le positive).1 n.camera_least in
    let hi : camera / size < suc n.block =
      (div-lt_iff_lt-mul positive).1 (grind (arith, n.camera_most)) in
    let same : camera / size ≡ n.block = omega (arith, lo, hi) in ap (λ k. k * size) same

InNetwork-in_subnet :
    (size camera a : ℕ) → 0 < size → InNetwork size camera a → in_subnet size camera a ≡ true
unfolding in_subnet broadcast_of
InNetwork-in_subnet size camera a positive n =
    let block = network_block size camera a n positive in
    let same =
      same_network size camera a positive (omega (arith, block, n.least))
        (omega (arith, block, n.most)) in
    let differs : a ≢ camera = n.other in ground (arith, same, block, n.least, n.most, differs)

pub in_subnet_iff :
    (size camera a : ℕ) → 0 < size → (in_subnet size camera a ≡ true) ↔ InNetwork size camera a
in_subnet_iff size camera a positive =
    (in_subnet-InNetwork size camera a positive, InNetwork-in_subnet size camera a positive)
