-- ===== src/Ptr/Strings.antt =====
-- Null-terminated data in user space: the meaning of a successful check, and its end.
use native.Mathlib.Nat.{mul-le-mul_right}
use oscomp_test_listline.Prelude.{
  ℕ, zero, suc, ◌+◌, ◌-◌, ◌*◌, ◌%◌, ◌≤◌, ◌<◌, ◌≡◌, ◌≢◌, inl, inr, sym, none, some, true, false, ltb,
  leb, ◌==◌, arith, Bool-cases,
}
use oscomp_test_listline.Errno.{ok}
use oscomp_test_listline.Ptr.{Access, UserSpace, Layout, align_down_4k, scan, check_null_terminated}

align_lo : (start m : ℕ) → align_down_4k start ≤ align_down_4k (start + m)
align_lo start m = omega arith

align_hi : (start m m' page : ℕ) → m ≤ m' → start + m' < page → align_down_4k (start + m) < page
align_hi start m m' page a b = omega arith

mul_le : (k n size : ℕ) → k ≤ n → k * size ≤ n * size
mul_le k n size a = mul-le-mul_right size a

mul_suc : (len size : ℕ) → (len + 1) * size ≡ len * size + size
mul_suc len size = grind arith

module _ {S : Type 0} (space : UserSpace S) (s : S) (start : ℕ) (t : Layout) (flags : Access) where
  last :
      (k len : ℕ)
      → k ≡ len
      → (space.load s (start + len * t.size) == 0) ≡ false
      → space.load s (start + k * t.size) ≢ 0
  last k len e a w =
      let e' : space.load s (start + len * t.size) ≡ 0 = rw (sym e) w in absurd (ground arith)

  -- Every page from that of the start on, before `page`, may be accessed.
  abbrev PagesChecked : ℕ → Type 0
  PagesChecked page =
      (q : ℕ)
      → q % 4096 ≡ 0
      → align_down_4k start ≤ q
      → q < page
      → space.check_region_access s q 4096 flags ≡ true

  abbrev NoneZero : ℕ → Type 0
  NoneZero len = (k : ℕ) → k < len → space.load s (start + k * t.size) ≢ 0

  scan_sound :
      (fuel page len n : ℕ)
      → page % 4096 ≡ 0
      → PagesChecked page
      → NoneZero len
      → scan space s start t flags fuel page len ≡ some (ok n)
      → (page' : ℕ) × (page' % 4096 ≡ 0)
        × PagesChecked page'
        × NoneZero n
        × (start + n * t.size < page')
        × (space.load s (start + n * t.size) ≡ 0)
  unfolding scan
  scan_sound zero page len n p c z h = cc
  scan_sound (suc fuel) page len n p c z h = elim (Bool-cases (leb page (start + len * t.size))) [
    | inl e ↦ elim (Bool-cases (space.check_region_access s page 4096 flags)) [
      | inl a ↦
          scan_sound fuel (page + 4096) len n (omega arith)
            (λ q r b k. elim (Bool-cases (ltb q page)) [
              | inl l ↦ c q r b (ground arith)
              | inr l ↦ next q page r p a (ground arith) k
            ])
            z (ground arith)
      | inr a ↦ absurd (ground arith)
    ]
    | inr e ↦ elim (Bool-cases (space.load s (start + len * t.size) == 0)) [
      | inl a ↦
          let at : len ≡ n = ground arith in
          (page, p, c, λ k b. z k (omega arith), ground arith, ground arith)
      | inr a ↦
          scan_sound fuel page (len + 1) n p c
            (λ k b. elim (Bool-cases (k == len)) [
              | inl l ↦ last k len (ground arith) a
              | inr l ↦ z k (ground arith)
            ])
            (ground arith)
    ]
  ]
    where
      next :
          (q page : ℕ)
          → q % 4096 ≡ 0
          → page % 4096 ≡ 0
          → space.check_region_access s page 4096 flags ≡ true
          → page ≤ q
          → q < page + 4096
          → space.check_region_access s q 4096 flags ≡ true
      next q page r p a l k = let e : q ≡ page = omega arith in rw e a

  scan_ends :
      (limit fuel page len : ℕ)
      → 0 < t.size
      → ((q : ℕ) → limit ≤ q → space.check_region_access s q 4096 flags ≡ false)
      → page < limit + 4096
      → (limit + 4096 - page) + (limit + 4096 - (start + len * t.size)) < fuel
      → scan space s start t flags fuel page len ≢ none
  unfolding scan
  scan_ends limit zero page len b c p f = absurd (omega arith)
  scan_ends limit (suc fuel) page len b c p f =
      elim (Bool-cases (leb page (start + len * t.size))) [
        | inl e ↦ elim (Bool-cases (ltb page limit)) [
          | inl l ↦
              let rest = scan_ends limit fuel (page + 4096) len b c (ground arith) (ground arith) in
              λ h. rest (ground arith)
          | inr l ↦ λ h. let no = c page (ground arith) in absurd (ground arith)
        ]
        | inr e ↦
            let m = mul_suc len t.size in
            let rest = scan_ends limit fuel page (len + 1) b c p (ground arith) in
            λ h. rest (ground arith)
      ]

  scan_refused :
      (limit fuel : ℕ)
      → ((q : ℕ) → limit ≤ q → space.check_region_access s q 4096 flags ≡ false)
      → limit + 4096 ≤ align_down_4k start
      → 0 < fuel
      → scan space s start t flags fuel (align_down_4k start) 0 ≢ none
  unfolding scan
  scan_refused limit zero c l f = absurd (omega arith)
  scan_refused limit (suc fuel) c l f =
      let here : leb (align_down_4k start) (start + 0) ≡ true = ground arith in
      let refused = c (align_down_4k start) (omega arith) in λ h. absurd (ground arith)

  -- If the check succeeds with a length, the element at that length is zero and no element before it is,
  -- and every page on which one of these elements, the terminator included, begins may be accessed.
  pub check_null_terminated_sound :
      (fuel n : ℕ)
      → check_null_terminated space fuel s start t flags ≡ some (ok n)
      → (space.load s (start + n * t.size) ≡ 0)
        × ((k : ℕ) → k < n → space.load s (start + k * t.size) ≢ 0)
        × ((k : ℕ)
            → k ≤ n
            → space.check_region_access s (align_down_4k (start + k * t.size)) 4096 flags ≡ true)
  unfolding check_null_terminated
  check_null_terminated_sound fuel n h = elim (Bool-cases (start % t.align == 0)) [
    | inr e ↦ absurd (ground arith)
    | inl e ↦
        let (page', p, c, z, b, l) =
          scan_sound fuel (align_down_4k start) 0 n (omega arith) (λ q r a k. absurd (omega arith))
            (λ k a. absurd (omega arith)) (ground arith) in
        (
          l,
          z,
          λ k a.
              c (align_down_4k (start + k * t.size)) (omega arith) (align_lo start (k * t.size))
                (align_hi start (k * t.size) (n * t.size) page' (mul_le k n t.size a) b),
        )
  ]

  -- If no page from `limit` on may be accessed and elements have a size, the check ends, wherever it
  -- starts: it has a result, with fuel for more steps than twice the addresses below the limit and two
  -- pages.
  pub check_null_terminated_ends :
      (limit fuel : ℕ)
      → 0 < t.size
      → ((q : ℕ) → limit ≤ q → space.check_region_access s q 4096 flags ≡ false)
      → 2 * limit + 8192 < fuel
      → check_null_terminated space fuel s start t flags ≢ none
  unfolding check_null_terminated
  check_null_terminated_ends limit fuel b c f = elim (Bool-cases (start % t.align == 0)) [
    | inr e ↦ λ h. absurd (ground arith)
    | inl e ↦
        let rest = scan_ends limit fuel (align_down_4k start) 0 b c in
        elim (Bool-cases (ltb (align_down_4k start) (limit + 4096))) [
          | inl l ↦ λ h. rest (ground (arith, l)) (omega arith) (ground arith)
          | inr l ↦ λ h. scan_refused limit fuel c (ground (arith, l)) (omega arith) (ground arith)
        ]
  ]
