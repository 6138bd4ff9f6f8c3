-- ===== src/Memory/Tests.antt =====
-- The calls on a small address space: the list of its mapped pages.
use oscomp_test_listline.Prelude.{
  Option, none, if◌then◌else◌, ap, sym, true, ℕ, ◌≤◌, ◌<◌, ◌≡◌, ◌⊎◌, refl, List, [], ◌∷◌, some,
  arith,
}
use oscomp_test_listline.Prelude.Int.{pos, negsuc}
use oscomp_test_listline.Errno.{LinuxResult, ok, err, ebadf}
use oscomp_test_listline.Memory.Space.{AddrSpace, MappingFlags}
use oscomp_test_listline.Memory.{UserHeap, sys_brk, sys_mmap, start_address}
use oscomp_test_listline.Memory.Heap.{IsHeap, sys_brk_lem}
use oscomp_test_listline.Memory.Mapping.{
  IsSpace, in_area, IsMapped, sys_mmap-IsMapped, sys_mmap_bad_file,
}

-- The areas that are mapped, the last first.
abbrev areas : AddrSpace (List (ℕ × ℕ))
areas = record {
  base = λ s. 4096;
  unmap = λ s a n. ok s;
  find_free_area = λ s hint n. some 65536;
  map_alloc = λ s a n flags fill. ok ((a, n) ∷ s);
  protect = λ s a n flags. ok s;
  write = λ s a bytes. ok s;
}

abbrev heap : UserHeap
heap = record { heap_bottom = 100; heap_top = 100 }

sys_brk_lem_concrete :
    let (r, h') = sys_brk 50 heap 120 in
    (r ≡ h'.heap_top)
    × (h'.heap_bottom ≡ 100)
    × (((◌<◌ 0 120) × (◌≤◌ 100 120) × (◌≤◌ 120 150) × (r ≡ 120))
        ⊎ (((◌≡◌ {A = ℕ} 120 0) ⊎ (◌<◌ 120 100) ⊎ (◌<◌ 150 120)) × (h' ≡ heap)))
    × IsHeap 50 h'
sys_brk_lem_concrete = sys_brk_lem 50 heap 120 (record { above = omega arith; below = omega arith })

-- The permissions of each address; no area is ever found free.
abbrev Permissions : Type 0
Permissions = ℕ → Option MappingFlags

abbrev set_area : ℕ → ℕ → Option MappingFlags → Permissions → Permissions
set_area a n f s x = if in_area a n x then f else s x

abbrev permissions : AddrSpace Permissions
permissions = record {
  base = λ s. 4096;
  unmap = λ s a n. ok (set_area a n none s);
  find_free_area = λ s hint n. none;
  map_alloc = λ s a n flags fill. ok (set_area a n (some flags) s);
  protect = λ s a n flags. ok (set_area a n (some flags) s);
  write = λ s a bytes. ok s;
}

abbrev at : Permissions → ℕ → Option MappingFlags
at s x = s x

abbrev or_else : Permissions → LinuxResult Permissions → Permissions
or_else s (ok t) = t
or_else s (err e) = s

permissions-IsSpace : IsSpace permissions at
permissions-IsSpace = record {
  flags-unmap = λ s s' a n x h. sym (ap (λ r. or_else s r x) h);
  flags-map = λ s s' a n x f fill h. sym (ap (λ r. or_else s r x) h);
  flags-write = λ s s' a x bytes h. sym (ap (λ r. or_else s r x) h);
  free = λ s hint n a x h i. ground arith;
}

abbrev unmapped : Permissions
unmapped x = none

-- 5000 bytes from 8200 on, readable and writable, are two pages from 8192 on.
abbrev mapped : Permissions
mapped = (sys_mmap permissions unmapped 8200 5000 3 48 (negsuc 0) (pos 0) (err ebadf)).1

maps :
    sys_mmap permissions unmapped 8200 5000 3 48 (negsuc 0) (pos 0) (err ebadf) ≡ (ok 8192, mapped)
unfolding sys_mmap
maps = refl

sys_mmap-IsMapped_example :
    IsMapped permissions at permissions-IsSpace unmapped mapped 8200 5000 3 8192 true
sys_mmap-IsMapped_example =
    sys_mmap-IsMapped permissions at permissions-IsSpace unmapped mapped 8200 5000 3 48 8192
      (negsuc 0) (pos 0) (err ebadf) (omega arith) maps

sys_mmap_bad_file_concrete :
    sys_mmap areas [] 0 100 1 2 (pos 9) (pos 0) (err ebadf) ≡ (err ebadf, (65536, 4096) ∷ [])
unfolding start_address
sys_mmap_bad_file_concrete =
    sys_mmap_bad_file areas [] [] ((65536, 4096) ∷ []) 0 100 1 2 65536 (pos 9) (pos 0) ebadf refl
      refl refl refl
