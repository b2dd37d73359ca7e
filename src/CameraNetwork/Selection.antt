-- ===== src/CameraNetwork/Selection.antt =====
-- Which address selectAddress of internal/cameranetwork/network.go finds.
use native.Mathlib.Decide.{dec_lt}
use dronservice_updates.Prelude.{
  subst, ℕ, zero, suc, ◌+◌, ◌-◌, ◌≤◌, ◌<◌, Bool, true, false, Option, none, some, List, ltb, ◌≡◌,
  arith, if_ind,
}
use dronservice_updates.CameraNetwork.Address.{
  network_of, broadcast_of, is_used, search_down, select_address, max_candidates,
}

-- The result of the loop: the highest free value of the rounds, or none of them is free.
abbrev pub Finds : (ℕ → Bool) → ℕ → ℕ → ℕ → Option ℕ → Type 0
Finds used end rounds value none =
    (a : ℕ) → end ≤ a → a ≤ value → value < a + rounds → used a ≡ true
Finds used end rounds value (some found) =
    (end ≤ found)
    × (found ≤ value)
    × (value < found + rounds)
    × (used found ≡ false)
    × ((a : ℕ) → found < a → a ≤ value → used a ≡ true)

step_down :
    (used : ℕ → Bool) (end rounds value : ℕ) (o : Option ℕ)
    → 0 < end
    → end ≤ value
    → used value ≡ true
    → Finds used end rounds (value - 1) o
    → Finds used end (suc rounds) value o
step_down used end rounds value none p q u f = λ a lo hi near. elim (dec_lt a value) [
  | yes below ↦ f a lo (omega arith) (omega arith)
  | no top ↦ subst (λ b. used b ≡ true) (omega arith) u
]
step_down used end rounds value (some found) p q u f = (
  f.0,
  omega (arith, f.1, p, q),
  omega (arith, f.2, p, q),
  f.3,
  λ a lo hi. elim (dec_lt a value) [
    | yes below ↦ f.4 a lo (omega arith)
    | no top ↦ subst (λ b. used b ≡ true) (omega arith) u
  ],
)

search_down_lem :
    (used : ℕ → Bool) (end rounds value : ℕ)
    → 0 < end
    → Finds used end rounds value (search_down used end rounds value)
unfolding search_down
search_down_lem used end zero value p = λ a lo hi near. absurd (omega arith)
search_down_lem used end (suc rounds) value p =
    if_ind (Finds used end (suc rounds) value) (ltb value end) _ _
      (λ past a lo hi near. absurd (ground arith))
      (λ inside.
        if_ind (Finds used end (suc rounds) value) (used value) _ _
          (λ u.
            step_down used end rounds value _ p (ground arith) u
              (search_down_lem used end rounds (value - 1) p))
          (λ free. (ground arith, omega arith, omega arith, free, λ a lo hi. absurd (omega arith))))

-- selectAddress returns the highest address of the network that is not used, of the 1024 below the
-- broadcast address; if it returns none, they are all used.
pub select_address_lem :
    (size camera : ℕ) (gateway : Option ℕ) (assigned : List ℕ)
    → Finds
        (is_used size camera gateway assigned)
        (network_of size camera + 1)
        max_candidates
        (broadcast_of size camera - 1)
        (select_address size camera gateway assigned)
unfolding select_address
select_address_lem size camera gateway assigned =
    search_down_lem (is_used size camera gateway assigned) (network_of size camera + 1)
      max_candidates (broadcast_of size camera - 1) (omega arith)
