-- ===== src/Init/Caps.antt =====
-- The array of capabilities that src/init_bridge.cc shows, and its check of capabilities, bit by bit.
use fuse_native.Base.{
  ℕ, zero, suc, ◌+◌, ◌*◌, ◌^◌, ◌≤◌, ◌<◌, ◌≡◌, ◌↔◌, ◌⊎◌, inl, inr, refl, true, false, some, List, [],
  ◌∷◌, map, ◌==◌, All, arith, ap,
}
use fuse_native.Init.{
  InitBridge, ConnectionInfo, and_word, caps_from, caps_array, all_capable, check_capabilities,
}
use fuse_native.Init.Bits.{shift, bit, and_bits-pow, shift_split, shift-le, pow_pos}

abbrev pub sum : List ℕ → ℕ
sum [] = 0
sum (n ∷ ns) = n + sum ns

bit_cases : (i a : ℕ) → (bit i a ≡ 0) ⊎ (bit i a ≡ 1)
bit_cases i a = ground arith

-- The test of one bit.
test_clear : (i a : ℕ) → i < 32 → bit i a ≡ 0 → (and_word a (2 ^ i) == 0) ≡ true
test_clear i a h e =
    let w : and_word a (2 ^ i) ≡ 0 =
      omega (arith, and_bits-pow 32 i a h, ap (λ (t : ℕ). t * 2 ^ i) e) in
    ground (arith, w)

test_set : (i a : ℕ) → i < 32 → bit i a ≡ 1 → (and_word a (2 ^ i) == 0) ≡ false
test_set i a h e =
    let w : and_word a (2 ^ i) ≡ 2 ^ i =
      omega (arith, and_bits-pow 32 i a h, ap (λ (t : ℕ). t * 2 ^ i) e) in
    ground (arith, w, pow_pos i)

-- What one round adds is the bit's value.
round_sum :
    (left i a : ℕ)
    → i < 32
    → sum (caps_from (suc left) i a) ≡ bit i a * 2 ^ i + sum (caps_from left (suc i) a)
unfolding caps_from
round_sum left i a h = elim (bit_cases i a) [
  | inl e ↦ rw (test_clear i a h e) (omega (arith, ap (λ (t : ℕ). t * 2 ^ i) e))
  | inr e ↦ rw (test_set i a h e) (omega (arith, ap (λ (t : ℕ). t * 2 ^ i) e))
]

none_from : (i a : ℕ) → caps_from 0 i a ≡ []
unfolding caps_from
none_from i a = refl

caps_from-sum :
    (left i a : ℕ)
    → left + i ≤ 32
    → sum (caps_from left i a) + shift (left + i) a * 2 ^ (left + i) ≡ shift i a * 2 ^ i
caps_from-sum zero i a h =
    let e : 0 + i ≡ i = omega arith in rw e (rw (none_from i a) (omega arith))
caps_from-sum (suc left) i a h =
    let e : suc left + i ≡ left + suc i = omega arith in
    rw e (
      omega (
        arith,
        round_sum left i a (omega arith),
        caps_from-sum left (suc i) a (omega arith),
        shift_split i a,
      ))

-- The capabilities that JavaScript is shown one by one add up to the connection's 32-bit word.
sum-caps_array : (capable : ℕ) → capable < 2 ^ 32 → sum (caps_array capable) ≡ capable
unfolding caps_array
sum-caps_array capable h =
    omega (arith, caps_from-sum 32 0 capable (omega arith), shift-le 32 capable)

all_capable_bits :
    (capable : ℕ) (bits : List ℕ)
    → All (λ i. i < 32) bits
    → (all_capable capable (map (λ i. 2 ^ i) bits) ≡ true) ↔ All (λ i. bit i capable ≡ 1) bits
unfolding all_capable
all_capable_bits capable [] b = (λ h. tt, λ h. refl)
all_capable_bits capable (i ∷ bits) b = elim (bit_cases i capable) [
  | inl e ↦
      (λ h. absurd (ground (arith, test_clear i capable b.0 e)), λ h. absurd (ground (arith, e)))
  | inr e ↦ rw (test_set i capable b.0 e) (
    λ h. (e, (all_capable_bits capable bits b.1).0 h),
    λ h. (all_capable_bits capable bits b.1).1 h.1,
  )
]

-- Asked for single bits of a 32-bit word, the check is true exactly where the connection has them all.
pub check_capabilities_bits :
    (b : InitBridge) (info : ConnectionInfo) (bits : List ℕ)
    → All (λ i. i < 32) bits
    → b.connection_info ≡ some info
    → (check_capabilities b (map (λ i. 2 ^ i) bits) ≡ true) ↔ All (λ i. bit i info.capable ≡ 1) bits
unfolding check_capabilities
check_capabilities_bits b info bits below e = rw e (all_capable_bits info.capable bits below)
