-- ===== src/Memory/Flags/Laws.antt =====
-- What `allows_mmu` asks, bit by bit.
use akarin.Base.{ℕ, ◌<◌, ◌≤◌, leb, sym, ◌∙◌, ◌≡◌, ◌↔◌, Bool, true, ◌&&◌, arith}
use akarin.Base.Bits.{Bits, equal_iff, ◌∩◌}
use akarin.Memory.Flags.{Flags, access_mask, allows_mmu, from_mmu_flags, mmu_flags}

bits_of_access : (i : ℕ) → access_mask i ≡ (leb 2 i && leb i 8)
bits_of_access i = ground arith

mask_iff :
    (flags requested : Flags)
    → (allows_mmu flags requested ≡ true)
      ↔ ((i : ℕ) → i < 32 → access_mask i ≡ true → requested i ≡ true → flags i ≡ true)
unfolding allows_mmu
mask_iff flags requested = (
  λ h i l m r. bit_of (flags i) (access_mask i) (requested i) ((equal_iff a b).0 h i l) m r,
  λ h. (equal_iff a b).1 (λ i l. of_bit (flags i) (access_mask i) (requested i) (h i l)),
)
  where
    a : Bits
    a = flags ∩ access_mask ∩ requested

    b : Bits
    b = requested ∩ access_mask

    bit_of : (f m r : Bool) → ((f && m) && r) ≡ (r && m) → m ≡ true → r ≡ true → f ≡ true
    bit_of f m r h p q = ground arith

    of_bit : (f m r : Bool) → (m ≡ true → r ≡ true → f ≡ true) → ((f && m) && r) ≡ (r && m)
    of_bit f m r h = ground arith

-- Flags allow a request exactly when they have each bit from READ (2) to GLOBAL (8) that it has. No
-- other bit plays a part: not the cache bits, and not the extension bits.
pub allows_mmu_iff :
    (flags requested : Flags)
    → (allows_mmu flags requested ≡ true)
      ↔ ((i : ℕ) → 2 ≤ i → i ≤ 8 → requested i ≡ true → flags i ≡ true)
allows_mmu_iff flags requested = (
  λ h i l g r. (mask_iff flags requested).0 h i (omega arith) (in_mask i l g) r,
  λ h. (mask_iff flags requested).1 (λ i l m r. h i (of_mask i m).0 (of_mask i m).1 r),
)
  where
    in_mask : (i : ℕ) → 2 ≤ i → i ≤ 8 → access_mask i ≡ true
    in_mask i l g = bits_of_access i ∙ ground arith

    of_mask : (i : ℕ) → access_mask i ≡ true → (2 ≤ i) × (i ≤ 8)
    of_mask i m = bounds (sym (bits_of_access i) ∙ m)
      where
        bounds : (leb 2 i && leb i 8) ≡ true → (2 ≤ i) × (i ≤ 8)
        bounds h = (ground arith, ground arith)

-- Access that is allowed through fewer flags is allowed through more.
pub allows_mmu_trans :
    (a b c : Flags) → allows_mmu a b ≡ true → allows_mmu b c ≡ true → allows_mmu a c ≡ true
allows_mmu_trans a b c h k =
    (mask_iff a c).1 (λ i l m r. (mask_iff a b).0 h i l m ((mask_iff b c).0 k i l m r))

mmu_flags_kept :
    (b : Flags) (i : ℕ) → access_mask i ≡ true → b i ≡ true → from_mmu_flags (mmu_flags b) i ≡ true
unfolding from_mmu_flags mmu_flags
mmu_flags_kept b i m r = ground arith

mmu_flags_had : (b : Flags) (i : ℕ) → from_mmu_flags (mmu_flags b) i ≡ true → b i ≡ true
unfolding from_mmu_flags mmu_flags
mmu_flags_had b i h = ground arith

-- The MMU's part of a request asks for exactly the access that the request asks for.
pub allows_mmu-mmu_flags :
    (flags requested : Flags)
    → (allows_mmu flags (from_mmu_flags (mmu_flags requested)) ≡ true)
      ↔ (allows_mmu flags requested ≡ true)
allows_mmu-mmu_flags flags requested = (
  λ h. (mask_iff flags requested).1 (λ i l m r.
      (mask_iff flags (from_mmu_flags (mmu_flags requested))).0 h i l m
        (mmu_flags_kept requested i m r)),
  λ h.
      (mask_iff flags (from_mmu_flags (mmu_flags requested))).1
        (λ i l m r. (mask_iff flags requested).0 h i l m (mmu_flags_had requested i r)),
)
