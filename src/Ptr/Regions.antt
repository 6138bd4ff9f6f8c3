-- ===== src/Ptr/Regions.antt =====
-- The check of a region of user memory: what success means, and the panic on an array too long for a layout.
use oscomp_test_listline.Prelude.{
  ℕ, ◌+◌, ◌-◌, ◌*◌, ◌%◌, ◌^◌, ◌≤◌, ◌<◌, ◌≡◌, ◌↔◌, inl, inr, none, true, ◌==◌, arith, Bool-cases,
}
use oscomp_test_listline.Errno.{ok}
use oscomp_test_listline.Ptr.{
  Access, UserSpace, Layout, align_down_4k, align_up_4k, array_layout, check_region, get_as_slice,
}

module _ {S : Type 0} (space : UserSpace S) (s s' : S) (start : ℕ) (layout : Layout)
    (flags : Access) where
  -- If the check of a region succeeds, the region is aligned, its access is allowed, and the new address
  -- space is that in which an area was populated that begins on a page boundary, at or before the region
  -- and ends at or after it, by less than a page on either side.
  pub check_region_sound :
      check_region space s start layout flags ≡ ok s'
      → (start % layout.align ≡ 0)
        × (space.check_region_access s start layout.size flags ≡ true)
        × (page_start size : ℕ) × (space.populate_area s page_start size ≡ ok s')
        × (page_start % 4096 ≡ 0)
        × (size % 4096 ≡ 0)
        × (page_start ≤ start)
        × (start < page_start + 4096)
        × (start + layout.size ≤ page_start + size)
        × (page_start + size < start + layout.size + 4096)
  unfolding check_region
  check_region_sound h = elim (Bool-cases (start % layout.align == 0)) [
    | inr e ↦ absurd (ground arith)
    | inl e ↦ elim (Bool-cases (space.check_region_access s start layout.size flags)) [
      | inr a ↦ absurd (ground arith)
      | inl a ↦ (
        ground arith,
        a,
        align_down_4k start,
        align_up_4k (start + layout.size) - align_down_4k start,
        ground arith,
        omega arith,
        omega arith,
        omega arith,
        omega arith,
        omega arith,
        omega arith,
      )
    ]
  ]

module _ {S : Type 0} (space : UserSpace S) (s : S) (start : ℕ) (t : Layout) (flags : Access) where
  -- The check of an array panics, whatever the address space allows, exactly if the size of the array in
  -- bytes is 2 ^ 63 or more.
  pub get_as_slice_panics :
      (len : ℕ) → (get_as_slice space s start t len flags ≡ none) ↔ (2 ^ 63 ≤ t.size * len)
  unfolding get_as_slice array_layout
  get_as_slice_panics len = (λ h. ground arith, λ l. ground arith)
