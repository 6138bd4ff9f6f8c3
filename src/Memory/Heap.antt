-- ===== src/Memory/Heap.antt =====
-- The user heap, `sys_brk`.
use oscomp_test_listline.Prelude.{
  ℕ, ◌+◌, ◌≤◌, ◌<◌, ◌≡◌, ◌⊎◌, inl, inr, arith, Bool-cases, leb, ◌==◌,
}
use oscomp_test_listline.Memory.{UserHeap, sys_brk}

pub record IsHeap (heap_size : ℕ) (h : UserHeap) : Type 0 where
  pub above : h.heap_bottom ≤ h.heap_top
  pub below : h.heap_top ≤ h.heap_bottom + heap_size

-- A break that lies in the heap area, its end included, and is not 0 becomes the heap's top; any other
-- request leaves the heap as it was. In both cases the call answers the top of the heap after it, the
-- bottom does not move, and the top lies in the heap area if it did before.
pub sys_brk_lem :
    (heap_size : ℕ) (h : UserHeap) (addr : ℕ)
    → IsHeap heap_size h
    → let (r, h') = sys_brk heap_size h addr in
      (r ≡ h'.heap_top)
      × (h'.heap_bottom ≡ h.heap_bottom)
      × (((0 < addr) × (h.heap_bottom ≤ addr) × (addr ≤ h.heap_bottom + heap_size) × (r ≡ addr))
          ⊎ (((addr ≡ 0) ⊎ (addr < h.heap_bottom) ⊎ (h.heap_bottom + heap_size < addr)) × (h' ≡ h)))
      × IsHeap heap_size h'
unfolding sys_brk
sys_brk_lem heap_size h addr v = (
  ground arith,
  ground arith,
  elim (Bool-cases (addr == 0)) [
    | inl e ↦ inr (inl (ground arith), ground arith)
    | inr e ↦ elim (Bool-cases (leb h.heap_bottom addr)) [
      | inr k ↦ inr (inr (inl (ground arith)), ground arith)
      | inl k ↦ elim (Bool-cases (leb addr (h.heap_bottom + heap_size))) [
        | inr l ↦ inr (inr (inr (ground arith)), ground arith)
        | inl l ↦ inl (ground arith, ground arith, ground arith, ground arith)
      ]
    ]
  ],
  ground arith,
)
