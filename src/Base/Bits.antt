-- ===== src/Base/Bits.antt =====
-- Machine words seen as sets of bits. A word is the function from a bit's position to the bit; a
-- word of width `w` has the positions below `w`, and no test looks at others.
use Prim.Native.Nat.{ℕ, zero, suc, ◌/◌, ◌%◌, ◌^◌, ◌<◌}
use mathlib.Core.Path.{◌≡◌, refl}
use mathlib.Core.Logic.{◌↔◌}
use mathlib.Core.Bool.{Bool, true, false, not, ◌&&◌, ◌||◌}
use native.Mathlib.Decide.{ℕ_discrete}
use native.Mathlib.Omega.{arith}
use akarin.Base.Tests.{◌==◌, &&-eq_true}

abbrev pub Bits : Type 0
Bits = ℕ → Bool

abbrev pub none_set : Bits
none_set i = false

abbrev pub bit : ℕ → Bits
bit n i = i == n

-- The bits of a number.
abbrev pub bits_of : ℕ → Bits
bits_of n i = (n / 2 ^ i) % 2 == 1

infixl 30 ◌∪◌
infixl 35 ◌∩◌ ◌∖◌
abbrev pub ◌∪◌ : Bits → Bits → Bits
◌∪◌ a b i = a i || b i

abbrev pub ◌∩◌ : Bits → Bits → Bits
◌∩◌ a b i = a i && b i

-- `a & !b`
abbrev pub ◌∖◌ : Bits → Bits → Bits
◌∖◌ a b i = a i && not (b i)

unfoldable pub all_below : ℕ → (ℕ → Bool) → Bool
all_below zero p = true
all_below (suc n) p = p n && all_below n p

all_below_sound : (n : ℕ) (p : ℕ → Bool) → all_below n p ≡ true → (i : ℕ) → i < n → p i ≡ true
unfolding all_below
all_below_sound zero p h i l = absurd (omega arith)
all_below_sound (suc n) p h i l = elim (ℕ_discrete i n) [
  | yes e ↦ rw e (&&-eq_true _ _ h).0
  | no e ↦ all_below_sound n p (&&-eq_true _ _ h).1 i (omega arith)
]

all_below_complete : (n : ℕ) (p : ℕ → Bool) → ((i : ℕ) → i < n → p i ≡ true) → all_below n p ≡ true
unfolding all_below
all_below_complete zero p h = refl
all_below_complete (suc n) p h =
    rw (h n (omega arith)) (all_below_complete n p (λ i l. h i (omega arith)))

pub all_below_iff : (n : ℕ) (p : ℕ → Bool) → (all_below n p ≡ true) ↔ ((i : ℕ) → i < n → p i ≡ true)
all_below_iff n p = (all_below_sound n p, all_below_complete n p)

abbrev pub implies : Bool → Bool → Bool
implies a b = not a || b

abbrev pub same : Bool → Bool → Bool
same true b = b
same false b = not b

-- `a.contains(b)`: every bit of `b` is a bit of `a`.
unfoldable pub contains : Bits → Bits → Bool
unfolding all_below
contains a b = all_below 32 (λ i. implies (b i) (a i))

-- `a == b`
unfoldable pub equal : Bits → Bits → Bool
unfolding all_below
equal a b = all_below 32 (λ i. same (a i) (b i))

pub contains_iff :
    (a b : Bits) → (contains a b ≡ true) ↔ ((i : ℕ) → i < 32 → b i ≡ true → a i ≡ true)
unfolding contains
contains_iff a b = (
  λ h i l e. ground (arith, (all_below_iff 32 (λ k. implies (b k) (a k))).0 h i l),
  λ h. (all_below_iff 32 (λ k. implies (b k) (a k))).1 (λ i l. ground (arith, h i l)),
)

pub equal_iff : (a b : Bits) → (equal a b ≡ true) ↔ ((i : ℕ) → i < 32 → a i ≡ b i)
unfolding equal
equal_iff a b = (
  λ h i l. ground (arith, (all_below_iff 32 (λ k. same (a k) (b k))).0 h i l),
  λ h. (all_below_iff 32 (λ k. same (a k) (b k))).1 (λ i l. ground (arith, h i l)),
)
