-- ===== src/Memory/Pages.antt =====
-- What the page allocator promises.
use demos_os.Base.{
  ℕ, zero, suc, ◌+◌, ◌%◌, ◌<◌, ◌≤◌, ◌≡◌, ◌≢◌, refl, true, false, Bool-cases, inl, inr, ◌⊎◌, Option,
  none, some, arith, ltb, ◌==◌, if◌then◌else◌,
}
use demos_os.Base.Int.{pos, negsuc}
use demos_os.Base.Run.{ok, Returns, Returns-mono}
use demos_os.Memory.{
  Memory, va_start, page_size, n_pages, page_address, first_free, take_page, get_free_page,
  allocate_kernel_page, page_index, free_page,
}

-- What the search finds: the first free page, or that none of the pages is free.
abbrev pub Found : (rounds i : ℕ) → (ℕ → ℕ) → Option ℕ → Type 0
Found rounds i pages none = (j : ℕ) → i ≤ j → j < i + rounds → pages j ≢ 0
Found rounds i pages (some n) =
    (i ≤ n) × (n < i + rounds) × (pages n ≡ 0) × ((j : ℕ) → i ≤ j → j < n → pages j ≢ 0)

Found-widen :
    (rounds i : ℕ) (pages : ℕ → ℕ) (o : Option ℕ)
    → pages i ≢ 0
    → Found rounds (i + 1) pages o
    → Found (suc rounds) i pages o
Found-widen rounds i pages none ne f = λ j lo hi. ground (arith, f j)
Found-widen rounds i pages (some n) ne f =
    (omega arith, omega arith, f.2, λ j lo hi. ground (arith, f.3 j))

first_free-Found : (rounds i : ℕ) (pages : ℕ → ℕ) → Found rounds i pages (first_free rounds i pages)
unfolding first_free
first_free-Found zero i pages = λ j lo hi. absurd (omega arith)
first_free-Found (suc rounds) i pages = elim (Bool-cases (pages i == 0)) [
  | inl e ↦
      rw (e, first_free) (omega arith, omega arith, ground arith, λ j lo hi. absurd (omega arith))
  | inr e ↦
      rw (e, first_free)
        (Found-widen rounds i pages (first_free rounds (i + 1) pages) (ground arith)
          (first_free-Found rounds (i + 1) pages))
]

-- What an allocation does.
abbrev pub Allocated : Memory → ℕ × Memory → Type 0
Allocated m (page, m') =
    (page ≡ 0) × ((j : ℕ) → j < n_pages → m.memory_pages j ≢ 0) × (m' ≡ m)
    ⊎ ((i : ℕ) × (i < n_pages)
        × (page ≡ page_address i)
        × (m.memory_pages i ≡ 0)
        × ((j : ℕ) → m'.memory_pages j ≡ (if j == i then 1 else m.memory_pages j))
        × ((a : ℕ) → page ≤ a → a < page + page_size → m'.words a ≡ 0)
        × ((a : ℕ) → a < page ⊎ page + page_size ≤ a → m'.words a ≡ m.words a))

Found-Allocated :
    (m : Memory) (o : Option ℕ)
    → Found n_pages 0 m.memory_pages o
    → Allocated m (elim o [ none ↦ (0, m) | some i ↦ (page_address i, take_page i m) ])
Found-Allocated m none f = inl (refl, λ j h. f j (omega arith) h, refl)
Found-Allocated m (some i) f =
    inr (i, f.1, refl, f.2, λ j. refl, λ a lo hi. ground arith, λ a out. ground arith)

-- `get_free_page` returns 0 and changes nothing exactly when every page is in use. Else it returns
-- the address of a page that was free, marks that page alone as used, and zeroes its words and no
-- others.
pub get_free_page-Allocated : (m : Memory) → Allocated m (get_free_page m)
unfolding get_free_page
get_free_page-Allocated m =
    Found-Allocated m (first_free n_pages 0 m.memory_pages)
      (first_free-Found n_pages 0 m.memory_pages)

page_index-page_address : (i : ℕ) → i < n_pages → page_index (page_address i + va_start) ≡ i
page_index-page_address i h = omega arith

-- Freeing the kernel address of a page clears its mark and no other.
pub free_page-page_address :
    (m : Memory) (i : ℕ)
    → i < n_pages
    → Returns
        (λ (status, m').
          (status ≡ pos 0)
          × ((j : ℕ) → m'.memory_pages j ≡ (if j == i then 0 else m.memory_pages j)))
        (free_page (page_address i + va_start) m)
unfolding free_page
free_page-page_address m i h =
    let aligned : (((page_address i + va_start) % page_size) == 0) ≡ true = ground arith in
    let index = page_index-page_address i h in
    let inside : ltb i n_pages ≡ true = ground arith in
    rw (aligned, index, inside) (refl, λ j. refl)

-- The kernel address of what an allocation returned.
abbrev to_kernel : ℕ × Memory → ℕ × Memory
to_kernel (page, m) = if page == 0 then (0, m) else (page + va_start, m)

free_page-to_kernel :
    (m : Memory) (t : ℕ × Memory)
    → Allocated m t
    → (to_kernel t).0 ≢ 0
    → Returns
        (λ (status, m'). (status ≡ pos 0) × ((j : ℕ) → m'.memory_pages j ≡ m.memory_pages j))
        (free_page (to_kernel t).0 (to_kernel t).1)
free_page-to_kernel m (page, m') (inl (e, f, g)) ne = absurd (ne (ground arith))
free_page-to_kernel m (page, m') (inr (i, h, e, u, marks, zeroes, rest)) ne =
    let some_page : (page == 0) ≡ false = ground arith in
    rw (some_page, e)
      (Returns-mono
        (λ (status, m'').
          (status ≡ pos 0)
          × ((j : ℕ) → m''.memory_pages j ≡ (if j == i then 0 else m'.memory_pages j)))
        _ (free_page (page_address i + va_start) m') (free_page-page_address m' i h)
        (λ (status, m'') (z, c). (z, λ j. ground (arith, c j, marks j))))

-- A page that is allocated for the kernel and freed again leaves the same pages in use as before.
pub free_page-allocate_kernel_page :
    (m : Memory)
    → (allocate_kernel_page m).0 ≢ 0
    → Returns
        (λ (status, m'). (status ≡ pos 0) × ((j : ℕ) → m'.memory_pages j ≡ m.memory_pages j))
        (free_page (allocate_kernel_page m).0 (allocate_kernel_page m).1)
unfolding allocate_kernel_page
free_page-allocate_kernel_page m ne =
    free_page-to_kernel m (get_free_page m) (get_free_page-Allocated m) ne

-- An address that is not the start of a page is refused, and nothing changes.
pub free_page-unaligned :
    (address : ℕ) (m : Memory) → address % page_size ≢ 0 → free_page address m ≡ ok (negsuc 0, m)
unfolding free_page
free_page-unaligned address m ne = ground arith
