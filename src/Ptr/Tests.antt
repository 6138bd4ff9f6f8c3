-- ===== src/Ptr/Tests.antt =====
-- The checks on a small address space: one page at 4096 with the text "ab".
use oscomp_test_listline.Prelude.{
  ℕ, ◌+◌, ◌*◌, ◌%◌, ◌^◌, ◌≤◌, ◌<◌, ◌≡◌, ◌≢◌, ◌↔◌, refl, [], ◌∷◌, none, some, true, false, leb, ◌==◌,
  if◌then◌else◌, arith,
}
use oscomp_test_listline.Errno.{ok}
use oscomp_test_listline.Ptr.{
  read_only, UserSpace, Layout, align_down_4k, check_region, check_null_terminated, get_as_str,
  get_as_slice,
}
use oscomp_test_listline.Ptr.Strings.{check_null_terminated_sound, check_null_terminated_ends}
use oscomp_test_listline.Ptr.Regions.{check_region_sound, get_as_slice_panics}

abbrev load_ab : ℕ → ℕ
load_ab a = if a == 4096 then 97 else if a == 4097 then 98 else 0

abbrev one_page : UserSpace ℕ
one_page = record {
  check_region_access =
      λ s start size flags. if leb 4096 start then leb (start + size) 8192 else false;
  populate_area = λ s start size. ok (s + 1);
  load = λ s a. load_ab a;
}

abbrev byte : Layout
byte = record { size = 1; align = 1 }

abbrev word : Layout
word = record { size = 8; align = 8 }

text_ab : get_as_str one_page (λ bytes. true) 10 0 4096 ≡ some (ok (97 ∷ 98 ∷ []))
unfolding get_as_str
text_ab = refl

length_ab : check_null_terminated one_page 10 0 4096 byte read_only ≡ some (ok 2)
unfolding check_null_terminated
length_ab = refl

check_null_terminated_sound_example :
    (load_ab (4096 + 2 * 1) ≡ 0)
    × ((k : ℕ) → k < 2 → load_ab (4096 + k * 1) ≢ 0)
    × ((k : ℕ)
        → k ≤ 2
        → one_page.check_region_access 0 (align_down_4k (4096 + k * 1)) 4096 read_only ≡ true)
check_null_terminated_sound_example =
    check_null_terminated_sound one_page 0 4096 byte read_only 10 2 length_ab

beyond : (q : ℕ) → 8192 ≤ q → one_page.check_region_access 0 q 4096 read_only ≡ false
beyond q l = ground arith

check_null_terminated_ends_example :
    check_null_terminated one_page 30000 0 4096 byte read_only ≢ none
check_null_terminated_ends_example =
    check_null_terminated_ends one_page 0 4096 byte read_only 8192 30000 (omega arith) beyond
      (omega arith)

region_ok : check_region one_page 0 4104 word read_only ≡ ok 1
unfolding check_region
region_ok = refl

check_region_sound_concrete :
    (4104 % 8 ≡ 0)
    × (one_page.check_region_access 0 4104 8 read_only ≡ true)
    × (page_start size : ℕ) × (one_page.populate_area 0 page_start size ≡ ok 1)
    × (page_start % 4096 ≡ 0)
    × (size % 4096 ≡ 0)
    × (page_start ≤ 4104)
    × (4104 < page_start + 4096)
    × (4104 + 8 ≤ page_start + size)
    × (page_start + size < 4104 + 8 + 4096)
check_region_sound_concrete = check_region_sound one_page 0 1 4104 word read_only region_ok

get_as_slice_panics_concrete :
    (get_as_slice one_page 0 4104 word (2 ^ 60) read_only ≡ none) ↔ (2 ^ 63 ≤ 8 * 2 ^ 60)
get_as_slice_panics_concrete = get_as_slice_panics one_page 0 4104 word read_only (2 ^ 60)
