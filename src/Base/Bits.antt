-- ===== src/Base/Bits.antt =====
-- Facts about the bit operations that the tactics do not know, and checks of every byte.
use Prim.Native.Nat.{bit_xor, digits, differ, bit_xor-bitwise}
use mathlib.Core.WellFounded.{Acc, WellFounded, induction}
use native.Mathlib.Nat.{pow-suc}
use os_lockdown.Base.{
  ℕ, zero, suc, ◌+◌, ◌*◌, ◌/◌, ◌%◌, ◌^◌, ◌≤◌, ◌<◌, ◌≡◌, refl, sym, ◌∙◌, Bool, true, ◌&&◌, arith,
}

-- Over a small range, every value is checked by evaluation.
unfoldable pub all_below : ℕ → (ℕ → Bool) → Bool
all_below zero p = true
all_below (suc n) p = p n && all_below n p

pub all_below_sound :
    (bound : ℕ) (p : ℕ → Bool) (i : ℕ) → i < bound → all_below bound p ≡ true → p i ≡ true
unfolding all_below
all_below_sound zero p i below holds = absurd (omega arith)
all_below_sound (suc bound) p i below holds = ground (arith, all_below_sound bound p i, holds)

Acc-below : (k n : ℕ) → n < k → Acc ◌<◌ n
Acc-below zero n h = absurd (omega arith)
Acc-below (suc k) n h = Acc.intro n (λ m hm. Acc-below k m (omega arith))

pub lt_wf : WellFounded ◌<◌
lt_wf = record { apply = λ n. Acc-below (suc n) n (omega arith) }

-- The digits of an exclusive or, from `fuel` of them on.
abbrev xor_digits : (fuel a b : ℕ) → ℕ
xor_digits = digits (λ y. y) differ

-- Fuel beyond the number changes nothing.
xor_digits_surplus :
    (a fuel more b : ℕ) → a ≤ fuel → fuel ≤ more → xor_digits more a b ≡ xor_digits fuel a b
xor_digits_surplus zero zero zero b enough grows = refl
xor_digits_surplus zero zero (suc more) b enough grows = refl
xor_digits_surplus zero (suc fuel) zero b enough grows = refl
xor_digits_surplus zero (suc fuel) (suc more) b enough grows = refl
xor_digits_surplus (suc a) zero more b enough grows = absurd (omega arith)
xor_digits_surplus (suc a) (suc fuel) zero b enough grows = absurd (omega arith)
xor_digits_surplus (suc a) (suc fuel) (suc more) b enough grows =
    let half = xor_digits_surplus (suc a / 2) fuel more (b / 2) (omega arith) (omega arith) in
    rw half

zero-bit_xor : (b : ℕ) → bit_xor 0 b ≡ b
zero-bit_xor b = simp bit_xor-bitwise

-- `differ` on two binary digits: equal digits give 0.
differ_table : (a b : ℕ) → a < 2 → b < 2 → (differ a (differ a b) ≡ b) × (differ a b < 2)
differ_table zero b p q = (refl, q)
differ_table (suc zero) zero p q = omega arith
differ_table (suc zero) (suc zero) p q = omega arith
differ_table (suc zero) (suc (suc b)) p q = absurd (omega arith)
differ_table (suc (suc a)) b p q = absurd (omega arith)

pub bit_xor_step : (a b : ℕ) → bit_xor a b ≡ bit_xor (a / 2) (b / 2) * 2 + differ (a % 2) (b % 2)
bit_xor_step zero b = omega (arith, zero-bit_xor b, zero-bit_xor (b / 2))
bit_xor_step (suc a) b =
    let half = xor_digits_surplus (suc a / 2) (suc a / 2) a (b / 2) (omega arith) (omega arith) in
    simp bit_xor-bitwise (omega (arith, half))

bit_xor_parts :
    (a b : ℕ)
    → (bit_xor a b / 2 ≡ bit_xor (a / 2) (b / 2)) × (bit_xor a b % 2 ≡ differ (a % 2) (b % 2))
bit_xor_parts a b =
    omega (arith, bit_xor_step a b, differ_table (a % 2) (b % 2) (omega arith) (omega arith))

bit_xor_double : (a b : ℕ) → bit_xor (a * 2) (b * 2) ≡ bit_xor a b * 2
bit_xor_double a b =
    let ha : a * 2 / 2 ≡ a = omega arith in
    let hb : b * 2 / 2 ≡ b = omega arith in
    let za : a * 2 % 2 ≡ 0 = omega arith in
    let zb : b * 2 % 2 ≡ 0 = omega arith in
    rw (bit_xor_step (a * 2) (b * 2), ha, hb, za, zb) (omega arith)

bit_xor_double_again : (k a b : ℕ) → bit_xor (a * 2 ^ k) (b * 2 ^ k) ≡ bit_xor a b * 2 ^ k
bit_xor_double_again zero a b = ground arith
bit_xor_double_again (suc k) a b =
    let ha : a * 2 ^ suc k ≡ a * 2 ^ k * 2 = grind (arith, pow-suc) in
    let hb : b * 2 ^ suc k ≡ b * 2 ^ k * 2 = grind (arith, pow-suc) in
    let hc : bit_xor a b * 2 ^ suc k ≡ bit_xor a b * 2 ^ k * 2 = grind (arith, pow-suc) in
    rw (ha, hb, hc, bit_xor_double, bit_xor_double_again k a b)

pub bit_xor_byte_shift : (a b : ℕ) → bit_xor (a * 256) (b * 256) ≡ bit_xor a b * 256
bit_xor_byte_shift a b = bit_xor_double_again 8 a b

pub bit_xor-lt : (k a b : ℕ) → a < 2 ^ k → b < 2 ^ k → bit_xor a b < 2 ^ k
bit_xor-lt zero a b p q = let z : a ≡ 0 = omega arith in rw (z, zero-bit_xor) q
bit_xor-lt (suc k) a b p q = omega (
  arith,
  pow-suc 2 k,
  bit_xor_step a b,
  bit_xor-lt k (a / 2) (b / 2) (omega (arith, pow-suc 2 k)) (omega (arith, pow-suc 2 k)),
  differ_table (a % 2) (b % 2) (omega arith) (omega arith),
)

bit_xor_cancel_step :
    (a b : ℕ) → ((c : ℕ) → bit_xor (a / 2) (bit_xor (a / 2) c) ≡ c) → bit_xor a (bit_xor a b) ≡ b
bit_xor_cancel_step a b ih =
    rw
      (
        bit_xor_step a (bit_xor a b),
        (bit_xor_parts a b).0,
        (bit_xor_parts a b).1,
        ih (b / 2),
        (differ_table (a % 2) (b % 2) (omega arith) (omega arith)).0,
      )
      (omega arith)

-- XOR with the same value twice gives the other value back.
pub bit_xor_cancel : (a b : ℕ) → bit_xor a (bit_xor a b) ≡ b
bit_xor_cancel a = induction lt_wf {C = λ a. (b : ℕ) → bit_xor a (bit_xor a b) ≡ b} a step
  where
    step :
        (n : ℕ)
        → ((m : ℕ) → m < n → (b : ℕ) → bit_xor m (bit_xor m b) ≡ b)
        → (b : ℕ) → bit_xor n (bit_xor n b) ≡ b
    step zero ih b = zero-bit_xor _ ∙ zero-bit_xor b
    step (suc n) ih b = bit_xor_cancel_step (suc n) b (ih (suc n / 2) (omega arith))

differ_comm : (a b : ℕ) → differ a b ≡ differ b a
differ_comm zero zero = refl
differ_comm zero (suc b) = refl
differ_comm (suc a) zero = refl
differ_comm (suc a) (suc b) = differ_comm a b

bit_xor-zero : (a : ℕ) → bit_xor a 0 ≡ a
bit_xor-zero a = induction lt_wf {C = λ a. bit_xor a 0 ≡ a} a step
  where
    step : (n : ℕ) → ((m : ℕ) → m < n → bit_xor m 0 ≡ m) → bit_xor n 0 ≡ n
    step zero ih = refl
    step (suc n) ih =
        omega
          (arith, bit_xor_step (suc n) 0, differ_comm (suc n % 2) 0, ih (suc n / 2) (omega arith))

pub bit_xor_comm : (a b : ℕ) → bit_xor a b ≡ bit_xor b a
bit_xor_comm a = induction lt_wf {C = λ a. (b : ℕ) → bit_xor a b ≡ bit_xor b a} a step
  where
    step :
        (n : ℕ)
        → ((m : ℕ) → m < n → (b : ℕ) → bit_xor m b ≡ bit_xor b m)
        → (b : ℕ) → bit_xor n b ≡ bit_xor b n
    step zero ih b = zero-bit_xor b ∙ sym (bit_xor-zero b)
    step (suc n) ih b = omega (
      arith,
      bit_xor_step (suc n) b,
      bit_xor_step b (suc n),
      differ_comm (suc n % 2) (b % 2),
      ih (suc n / 2) (omega arith) (b / 2),
    )
