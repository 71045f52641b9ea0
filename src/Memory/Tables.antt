-- ===== src/Memory/Tables.antt =====
-- The page tables of libs/mm.c: `map_table`, `map_table_entry`, `map_page`, `map_sector` and
-- `do_mem_abort`. Table addresses are multiples of the page size, so that `|` with flags below it
-- is an addition, and `& PAGE_MASK` clears what was added.
use demos_os.Base.{
  ℕ, zero, suc, ◌+◌, ◌-◌, ◌*◌, ◌/◌, ◌%◌, ◌^◌, Bool, true, false, not, ltb, ◌==◌, if◌then◌else◌,
}
use demos_os.Base.Int.{ℤ, pos, negsuc, ◌+ℤ◌, ltb_ℤ}
use demos_os.Base.Run.{Run, ok, fault, ◌>>=◌}
use demos_os.Base.Bits.{test_bit}
use demos_os.Pcb.{MmStruct, UserPage, max_process_pages}
use demos_os.Memory.{Memory, page_size, va_start, zero_page, get_free_page}

abbrev pub ptrs_per_table : ℕ
ptrs_per_table = 512

abbrev pub page_shift : ℕ
page_shift = 12

abbrev pub pmd_shift : ℕ
pmd_shift = 21

abbrev pub pud_shift : ℕ
pud_shift = 30

abbrev pub pgd_shift : ℕ
pgd_shift = 39

-- `MM_TYPE_PAGE_TABLE`
abbrev pub mm_type_page_table : ℕ
mm_type_page_table = 3

-- `MMU_PTE_FLAGS`
abbrev pub mmu_pte_flags : ℕ
mmu_pte_flags = 0x447

-- The word that a table holds for a virtual address.
abbrev pub entry_address : (table shift virtual_address : ℕ) → ℕ
entry_address table shift va = table + 8 * ((va / 2 ^ shift) % ptrs_per_table)

-- `entry & PAGE_MASK`
abbrev pub mask_page : ℕ → ℕ
mask_page entry = entry / page_size * page_size

abbrev pub write_word : Memory → ℕ → ℕ → Memory
write_word m a v = record m { words = λ b. if b == a then v else m.words b }

-- The next table, whether it is new, and the memory.
unfoldable pub map_table : (table shift va : ℕ) → Memory → ℕ × Bool × Memory
map_table table shift va m =
    let a = entry_address table shift va in
    let (next, m₁) = get_free_page m in
    let m₂ = record m₁ { words = zero_page m₁.words next } in
    if m.words a == 0
    then (next, true, write_word m₂ a (next + mm_type_page_table))
    else (mask_page (m.words a), false, m)

unfoldable pub map_table_entry : (pte va page : ℕ) → Memory → Memory
map_table_entry pte va page m =
    write_word m (entry_address pte page_shift va) (page + mmu_pte_flags)

-- `mm.kernel_pages[mm.n_kernel_pages++] = page`; past the end of the array is a fault.
abbrev pub track_kernel_page : ℕ → MmStruct → Run MmStruct
track_kernel_page page s =
    let n = s.n_kernel_pages in
    if ltb n max_process_pages
    then ok (record s {
      kernel_pages = λ i. if i == n then page else s.kernel_pages i;
      n_kernel_pages = n + 1;
    })
    else fault

abbrev pub track_user_page : UserPage → MmStruct → Run MmStruct
track_user_page page s =
    let n = s.n_user_pages in
    if ltb n max_process_pages
    then ok (record s {
      user_pages = λ i. if i == n then page else s.user_pages i;
      n_user_pages = n + 1;
    })
    else fault

-- One level of `map_page`: the next table, tracked if it is new.
unfoldable pub map_level : (table shift va : ℕ) → MmStruct → Memory → Run (ℕ × MmStruct × Memory)
map_level table shift va s m =
    let (next, created, m') = map_table table shift va m in
    (if created then track_kernel_page next s else ok s) >>= λ s'. ok (next, s', m')

-- The process's own table, from a free page if it has none.
unfoldable pub ensure_pgd : MmStruct → Memory → Run (MmStruct × Memory)
ensure_pgd s m =
    let (page, m₁) = get_free_page m in
    let m₂ = record m₁ { words = zero_page m₁.words page } in
    if s.pgd == 0
    then (track_kernel_page page (record s { pgd = page }) >>= λ s'. ok (s', m₂))
    else ok (s, m)

unfoldable pub map_page : MmStruct → (va page : ℕ) → Memory → Run (MmStruct × Memory)
map_page s va page m = ensure_pgd s m >>= λ (s₀, m₀).
    map_level s₀.pgd pgd_shift va s₀ m₀ >>= λ (pud, s₁, m₁).
    map_level pud pud_shift va s₁ m₁ >>= λ (pmd, s₂, m₂).
    map_level pmd pmd_shift va s₂ m₂ >>= λ (pte, s₃, m₃).
    track_user_page (record { physical_address = page; virtual_address = va }) s₃ >>= λ s₄.
    ok (s₄, map_table_entry pte va page m₃)

-- The kernel address of the new page, 0 if there is none.
unfoldable pub allocate_user_page : MmStruct → ℕ → Memory → Run (ℕ × MmStruct × Memory)
allocate_user_page s va m =
    let (page, m') = get_free_page m in
    if page == 0
    then ok (0, s, m')
    else (map_page s va page m' >>= λ (s', m''). ok (page + va_start, s', m''))

-- The descriptors from `descriptor` on, at the indices `i` on, `rounds` of them.
pub write_descriptors : (rounds i descriptor pmd : ℕ) → Memory → Memory
write_descriptors zero i descriptor pmd m = m
write_descriptors (suc rounds) i descriptor pmd m =
    write_descriptors rounds (i + 1) ((descriptor + 2 ^ pmd_shift) % 2 ^ 64) pmd
      (write_word m (pmd + 8 * i) descriptor)

-- `map_sector`. `flags` are below the size of a section.
unfoldable pub map_sector : MmStruct → (first last page flags : ℕ) → Memory → ℤ × Memory
map_sector s start end page flags m =
    let i = (start / 2 ^ pmd_shift) % ptrs_per_table in
    let j = (end / 2 ^ pmd_shift) % ptrs_per_table in
    let descriptor = page / 2 ^ pmd_shift * 2 ^ pmd_shift + flags in
    let pud = m.words (entry_address s.pgd pgd_shift start) in
    let pmd = m.words (entry_address (mask_page pud) pud_shift start) in
    if not (test_bit pud 0)
    then (negsuc 0, m)
    else if not (test_bit pmd 0)
    then (negsuc 0, m)
    else (pos 0, write_descriptors (j + 1 - i) i descriptor (mask_page pmd) m)

-- The process's address space, the memory and the fault counter `index`.
pub record FaultState : Type 0 where
  pub mm : MmStruct
  pub memory : Memory
  pub index : ℤ

-- `dfs / 0b111100` as the source has it.
unfoldable pub do_mem_abort : (address esr : ℕ) → FaultState → Run (ℤ × FaultState)
do_mem_abort address esr s =
    let dfs = esr % 64 in
    let (page, m) = get_free_page s.memory in
    let handled = map_page s.mm (mask_page address) page m >>= λ (mm', m').
    let s' : FaultState = record { mm = mm'; memory = m'; index = s.index +ℤ pos 1 } in
    ok (if ltb_ℤ (pos 2) (s.index +ℤ pos 1) then (negsuc 0, s') else (pos 0, s')) in
    if (dfs / 0b111100) == 0b100
    then (if page == 0 then ok (negsuc 0, record s { memory = m }) else handled)
    else ok (negsuc 0, s)
