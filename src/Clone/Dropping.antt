-- ===== src/Clone/Dropping.antt =====
-- The drop of `ProcessData` of core/src/task.rs, when nothing refers to a process any more.
use oscomp_test_listline.Prelude.{
  ℕ, ◌+◌, ◌<◌, ◌≤◌, ◌≡◌, ◌⊎◌, inl, inr, ◌∷◌, some, Bool, false, if◌then◌else◌, arith, not, ◌&&◌,
  ltb, leb, Bool-cases,
}
use oscomp_test_listline.Errno.{ok}
use oscomp_test_listline.FdTable.Objects.{FlattenObjects}
use oscomp_test_listline.Clone.{Process, Context, World, Machine, put, vm, thread_flag, sys_clone}
use oscomp_test_listline.Clone.Children.{sys_clone-child}

-- The range of the kernel, axmm's `clear_mappings` of a range of an address space, and whether an address is
-- mapped in it.
pub record KernelSpace (M : Type 0) : Type 0 where
  pub base : ℕ
  pub size : ℕ
  pub clear_mappings : ℕ → ℕ → M → M
  pub is_mapped : M → ℕ → Bool

-- `separate_tables` says whether the target has a page table of its own for the user (aarch64, loongarch64).
unfoldable pub drop_process_data :
    {T M S D P : Type 0} → KernelSpace M → Bool → Process → World T M S D P → World T M S D P
drop_process_data kernel separate_tables process w =
    if not separate_tables
    then record w {
      spaces =
          put w.spaces process.aspace
            (kernel.clear_mappings kernel.base kernel.size (w.spaces process.aspace));
    }
    else w

-- `clear_mappings` unmaps the addresses of the range and no other.
pub record IsClearing {M : Type 0} (kernel : KernelSpace M) : Type 0 where
  pub clears :
      (base size : ℕ) (m : M) (a : ℕ)
      → base ≤ a
      → a < base + size
      → kernel.is_mapped (kernel.clear_mappings base size m) a ≡ false
  pub keeps :
      (base size : ℕ) (m : M) (a : ℕ)
      → (a < base) ⊎ (base + size ≤ a)
      → kernel.is_mapped (kernel.clear_mappings base size m) a ≡ kernel.is_mapped m a

abbrev pub in_kernel : {M : Type 0} → KernelSpace M → ℕ → Bool
in_kernel kernel a = leb kernel.base a && ltb a (kernel.base + kernel.size)

module _ {M : Type 0} (kernel : KernelSpace M) (law : IsClearing kernel) where
  clear_lem :
      (s : M) (a : ℕ)
      → kernel.is_mapped (kernel.clear_mappings kernel.base kernel.size s) a
        ≡ (kernel.is_mapped s a && not (in_kernel kernel a))
  clear_lem s a = elim (Bool-cases (leb kernel.base a)) [
    | inr l ↦ ground (arith, l, law.keeps kernel.base kernel.size s a (inl (ground (arith, l))))
    | inl l ↦ elim (Bool-cases (ltb a (kernel.base + kernel.size))) [
      | inr u ↦
          ground (arith, l, u, law.keeps kernel.base kernel.size s a (inr (ground (arith, u))))
      | inl u ↦ ground (
        arith,
        l,
        u,
        law.clears kernel.base kernel.size s a (ground (arith, l)) (ground (arith, u)),
      )
    ]
  ]

module _ {T A M S D P : Type 0} (fo : FlattenObjects T A) (m : Machine M S) (kernel : KernelSpace M)
    (law : IsClearing kernel) where
  -- A process that `clone` made, without CLONE_THREAD, is dropped, where `clear_mappings` unmaps just the
  -- range that it is given: an address is then mapped in the caller's address space if it was before and it
  -- is not the case that the process shares the address space, by CLONE_VM, the target's page tables have
  -- the kernel too, and the address is in the range of the kernel. The addresses of the kernel are thus no
  -- longer mapped for the caller of `clone` with CLONE_VM on such a target, and nothing else of its address
  -- space changes.
  pub sys_clone-drop_process_data :
      (flags stack parent_tid child_tid tls n : ℕ) (tf : Context) (caller : Process)
      (w w' : World T M S D P) (separate_tables : Bool)
      → caller.aspace < w.next
      → thread_flag flags ≡ false
      → sys_clone fo m flags stack parent_tid child_tid tls tf caller w ≡ some (ok n, w')
      → (child : Process) × (w'.processes ≡ child ∷ w.processes)
        × (let after = drop_process_data kernel separate_tables child w' in
            (a : ℕ)
            → kernel.is_mapped (after.spaces caller.aspace) a ≡ (
                kernel.is_mapped (w'.spaces caller.aspace) a
                && not (vm flags && not separate_tables && in_kernel kernel a)))
  unfolding drop_process_data
  sys_clone-drop_process_data flags stack parent_tid child_tid tls n tf caller w w' separate_tables
        below no_thread h =
      let (number, (child, is_child)) =
        sys_clone-child fo m flags stack parent_tid child_tid tls n tf caller w w' no_thread h in
      let (procs, pid, space, table, dir, path, copies, kept) = is_child in
      (
        child,
        procs,
        λ a.
            let cleared = clear_lem kernel law (w'.spaces caller.aspace) a in
            elim (Bool-cases separate_tables) [
              | inl t ↦ ground (arith, t)
              | inr f ↦ elim space [
                | inl (shared, same) ↦ ground (arith, f, shared, same, cleared)
                | inr (own, fresh) ↦ ground (arith, f, own, fresh, below)
              ]
            ],
      )
