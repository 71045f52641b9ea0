-- ===== src/Memory.antt =====
-- libs/mm.c: the page allocator and the page tables, over the physical memory as 64-bit words.
-- The kernel reaches the physical address `a` at `a + va_start`. `Memory.Pages` proves what the
-- allocator promises, `Memory.Tables` holds the page tables.
pub mod Pages
pub mod Tables
pub mod Faults
use demos_os.Base.{
  ℕ, zero, suc, ◌+◌, ◌-◌, ◌*◌, ◌/◌, ◌%◌, ◌^◌, Bool, true, false, not, ◌&&◌, Option, none, some, ltb,
  leb, ◌==◌, if◌then◌else◌,
}
use demos_os.Base.Int.{ℤ, pos, negsuc}
use demos_os.Base.Run.{Run, ok, fault, ◌>>=◌}

abbrev pub va_start : ℕ
va_start = 0xffff_0000_0000_0000

abbrev pub page_size : ℕ
page_size = 4096

-- `LOW_MEMORY`, two sections of 2 MB.
abbrev pub low_memory : ℕ
low_memory = 0x40_0000

-- `PAGING_MEMORY / PAGE_SIZE`
abbrev pub n_pages : ℕ
n_pages = 257024

-- `memory_pages` and the words of the physical memory, by their addresses.
pub record Memory : Type 0 where
  pub memory_pages : ℕ → ℕ
  pub words : ℕ → ℕ

-- `memzero` of a page of the physical memory.
abbrev pub zero_page : (ℕ → ℕ) → ℕ → ℕ → ℕ
zero_page words page a = if leb page a && ltb a (page + page_size) then 0 else words a

-- The address of page `i`.
abbrev pub page_address : ℕ → ℕ
page_address i = low_memory + i * page_size

-- The first free page from `i` on, among `rounds` pages.
unfoldable pub first_free : (rounds i : ℕ) → (ℕ → ℕ) → Option ℕ
first_free zero i pages = none
first_free (suc rounds) i pages =
    let rest = first_free rounds (i + 1) pages in if pages i == 0 then some i else rest

abbrev pub take_page : ℕ → Memory → Memory
take_page i m = record {
  memory_pages = λ j. if j == i then 1 else m.memory_pages j;
  words = zero_page m.words (page_address i);
}

-- The physical address, 0 if no page is free.
unfoldable pub get_free_page : Memory → ℕ × Memory
get_free_page m = elim (first_free n_pages 0 m.memory_pages) [
  | none ↦ (0, m)
  | some i ↦ (page_address i, take_page i m)
]

unfoldable pub allocate_kernel_page : Memory → ℕ × Memory
allocate_kernel_page m =
    let (page, m') = get_free_page m in if page == 0 then (0, m') else (page + va_start, m')

-- The index that `free_page` computes, in `unsigned long` arithmetic.
abbrev pub page_index : ℕ → ℕ
page_index address = ((address + 2 ^ 64 - va_start + 2 ^ 64 - low_memory) % 2 ^ 64) / page_size

-- A page outside the array is a fault: the code does not test the index.
unfoldable pub free_page : ℕ → Memory → Run (ℤ × Memory)
free_page address m =
    let i = page_index address in
    let freed : Memory = record {
      memory_pages = λ j. if j == i then 0 else m.memory_pages j;
      words = zero_page m.words ((address + 2 ^ 64 - va_start) % 2 ^ 64);
    } in
    if not ((address % page_size) == 0)
    then ok (negsuc 0, m)
    else if ltb i n_pages
    then ok (pos 0, freed)
    else fault
