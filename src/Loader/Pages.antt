-- ===== src/Loader/Pages.antt =====
-- The pages and the part of the file of a segment.
use oscomp_test_listline.Prelude.{
  ℕ, ◌+◌, ◌-◌, ◌*◌, ◌%◌, ◌^◌, ◌≤◌, ◌<◌, ◌≡◌, List, some, length, take, drop, arith,
}
use oscomp_test_listline.Memory.{page_size, align_down_4k}
use oscomp_test_listline.Loader.{get_range}

pub get_range_lem :
    (bytes part : List ℕ) (a n : ℕ)
    → get_range bytes a (a + n) ≡ some part
    → (part ≡ take n (drop a bytes)) × (a + n ≤ length bytes)
unfolding get_range
get_range_lem bytes part a n h =
    let same : a + n - a ≡ n = omega arith in (ground (arith, h, same), ground (arith, h))

abbrev pub pages_size : ℕ → ℕ → ℕ
pages_size vaddr memsz = align_down_4k ((memsz + vaddr % page_size + page_size - 1) % 2 ^ 64)

-- The pages from the page of an address on that hold a segment.
pub segment_pages :
    (vaddr memsz : ℕ)
    → memsz + 2 * page_size < 2 ^ 64
    → (align_down_4k vaddr % page_size ≡ 0)
      × (pages_size vaddr memsz % page_size ≡ 0)
      × (align_down_4k vaddr ≤ vaddr)
      × (vaddr + memsz ≤ align_down_4k vaddr + pages_size vaddr memsz)
      × (pages_size vaddr memsz < memsz + 2 * page_size)
segment_pages vaddr memsz fits = omega arith
