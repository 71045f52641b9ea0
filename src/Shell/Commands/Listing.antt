-- ===== src/Shell/Commands/Listing.antt =====
-- `handle_ls` and `print_tree` of app/shell.c over `syscall_get_next_entry` of libs/syscalls.c.
use demos_os.Base.{
  ℕ, suc, ◌<◌, ◌≤◌, ◌≡◌, ◌≢◌, ◌⊎◌, inl, inr, refl, true, false, not, ◌||◌, ltb, ◌==◌, List, [], ◌∷◌,
  ◌++◌, arith,
}
use demos_os.Base.Int.{ℤ, pos, negsuc, ◌==ℤ◌}
use demos_os.Base.Run.{Run, ok, Returns, Returns-mono, Returns-value, Whenever}
use demos_os.Pcb.{Ptr, null, max_files_per_process}
use demos_os.Sched.{current}
use demos_os.Text.{Chars}
use demos_os.Syscalls.Files.{Files, in_slots}
use demos_os.Syscalls.Files.Entries.{
  DirInfo, FatEntryInfo, fat_max_name_size, copied_size, fill_entry, syscall_get_next_entry,
}
use demos_os.Shell.Commands.{Calls, Output, listed}
use demos_os.Shell.Commands.Tree.{print_tree}

-- The entry that the shell has cleared.
abbrev pub cleared : FatEntryInfo
cleared = record { name = λ _. 0; is_dir = false }

abbrev pub all_listed : List DirInfo → List Output
all_listed [] = []
all_listed (d ∷ ds) = listed (fill_entry d cleared) ++ all_listed ds

module _ {Fat : Type 0} (fat_dir_read : Ptr → Fat → ℤ × DirInfo × Fat)
    (fat_dir_next : Ptr → Fat → ℤ × Fat) (fd : ℕ) where
  abbrev get_next : Files Fat → Run (ℤ × FatEntryInfo × Files Fat)
  get_next f = syscall_get_next_entry fat_dir_read fat_dir_next (pos fd) cleared f

  -- The system below the shell: a write appends to the output and leaves the files, and
  -- `get_next_entry` is the kernel's, wherever that returns.
  pub record OverKernel {S : Type 0} (calls : Calls S) : Type 0 where
    pub output : S → List Output
    pub files : S → Files Fat
    pub output-write :
        (o : Output) (s : S) → output (calls.call_syscall_write o s) ≡ output s ++ o ∷ []
    pub files-write : (o : Output) (s : S) → files (calls.call_syscall_write o s) ≡ files s
    pub output-next : (s : S) → output (calls.call_syscall_get_next_entry (pos fd) s).2 ≡ output s
    pub next :
        (s : S)
        → Whenever
            (λ (status, info, f).
              ((calls.call_syscall_get_next_entry (pos fd) s).0 ≡ status)
              × ((calls.call_syscall_get_next_entry (pos fd) s).1 ≡ info)
              × (files (calls.call_syscall_get_next_entry (pos fd) s).2 ≡ f))
            (get_next (files s))

  -- The descriptor is open on the directory.
  abbrev pub OpenOn : Ptr → Files Fat → Type 0
  OpenOn dir f =
      (fd < max_files_per_process)
      × ((current f.kernel).files fd ≢ null)
      × ((f.resources ((current f.kernel).files fd)).pointer ≡ dir)
      × (dir ≢ null)

  -- What the library does from a state on: it reads the entries `ds` and moves on behind each of them;
  -- then it reads no entry, or one from which it cannot move on.
  abbrev pub Walk : Ptr → List DirInfo → Fat → Type 0
  Walk dir [] fat =
      let (error, d, fat₁) = fat_dir_read dir fat in
      (error ≢ pos 0) ⊎ ((error ≡ pos 0) × (d.name_len ≤ 64) × ((fat_dir_next dir fat₁).0 ≢ pos 0))
  Walk dir (d ∷ ds) fat =
      (fat₁ : Fat) × (fat₂ : Fat) × (fat_dir_read dir fat ≡ (pos 0, d, fat₁))
      × (d.name_len ≤ 64)
      × (fat_dir_next dir fat₁ ≡ (pos 0, fat₂))
      × Walk dir ds fat₂

  get_next-entry :
      (dir : Ptr) (f : Files Fat) (d : DirInfo) (fat₁ fat₂ : Fat)
      → OpenOn dir f
      → fat_dir_read dir f.fat ≡ (pos 0, d, fat₁)
      → d.name_len ≤ 64
      → fat_dir_next dir fat₁ ≡ (pos 0, fat₂)
      → get_next f ≡ ok (pos 0, fill_entry d cleared, record f { fat = fat₂ })
  unfolding syscall_get_next_entry
  get_next-entry dir f d fat₁ fat₂ (small, used, points, opened) reads short moves =
      let r = (current f.kernel).files fd in
      let in_use : (not (in_slots (pos fd)) || r == null) ≡ false = ground arith in
      let is_open : (dir == null) ≡ false = ground arith in
      let fits : ltb fat_max_name_size (copied_size d) ≡ false = ground arith in
      rw (points, in_use, is_open, reads, fits, moves) refl

  get_next-end :
      (dir : Ptr) (f : Files Fat)
      → OpenOn dir f
      → Walk dir [] f.fat
      → Returns (λ (status, _, _). status ≡ negsuc 0) (get_next f)
  unfolding syscall_get_next_entry
  get_next-end dir f (small, used, points, opened) (inl none) =
      let r = (current f.kernel).files fd in
      let in_use : (not (in_slots (pos fd)) || r == null) ≡ false = ground arith in
      let is_open : (dir == null) ≡ false = ground arith in
      let fails : ((fat_dir_read dir f.fat).0 ==ℤ pos 0) ≡ false = ground arith in
      rw (points, in_use, is_open, fails) refl
  get_next-end dir f (small, used, points, opened) (inr (reads, short, stays)) =
      let r = (current f.kernel).files fd in
      let (error, d, fat₁) = fat_dir_read dir f.fat in
      let in_use : (not (in_slots (pos fd)) || r == null) ≡ false = ground arith in
      let is_open : (dir == null) ≡ false = ground arith in
      let fits : ltb fat_max_name_size (copied_size d) ≡ false = ground arith in
      let fails : ((fat_dir_next dir fat₁).0 ==ℤ pos 0) ≡ false = ground arith in
      let read : (error ==ℤ pos 0) ≡ true = ground arith in
      rw (points, in_use, is_open, read, fits, fails) refl

  -- The call never returns 1.
  get_next-result :
      (f : Files Fat) → Whenever (λ (status, _, _). (status ==ℤ pos 1) ≡ false) (get_next f)
  unfolding syscall_get_next_entry
  get_next-result f = ground arith

  get_next-Returns :
      (dir : Ptr) (ds : List DirInfo) (f : Files Fat)
      → OpenOn dir f
      → Walk dir ds f.fat
      → Returns (λ _. Unit) (get_next f)
  get_next-Returns dir [] f o w =
      Returns-mono (λ (status, _, _). status ≡ negsuc 0) (λ _. Unit) (get_next f)
        (get_next-end dir f o w) (λ _ _. tt)
  get_next-Returns dir (d ∷ ds) f o (fat₁, fat₂, reads, short, moves, w) =
      rw (get_next-entry dir f d fat₁ fat₂ o reads short moves) tt

  module _ {S : Type 0} (calls : Calls S) (laws : OverKernel calls) (dir : Ptr) where
    -- If the directory opens at a descriptor, the library reads the entries `ds`, with names of at most
    -- 64 bytes, and moves on behind each of them, and then reads none or one from which it cannot move
    -- on: `print_tree` over the kernel's `get_next_entry` ends and prints nothing, whatever entries
    -- `ds` has.
    pub print_tree-nothing :
        (fuel : ℕ) (path : Chars) (depth : ℕ) (s : S) (ds : List DirInfo)
        → let (r, s₁) = calls.call_syscall_open_dir path s in
          r ≡ pos fd
          → OpenOn dir (laws.files s₁)
          → Walk dir ds (laws.files s₁).fat
          → Returns
              (λ s'. laws.output s' ≡ laws.output s₁)
              (print_tree calls (suc (suc fuel)) path depth s)
    unfolding print_tree
    print_tree-nothing fuel path depth s ds r o w =
        let s₁ = (calls.call_syscall_open_dir path s).1 in
        let f = laws.files s₁ in
        let opens : (pos fd ==ℤ negsuc 0) ≡ false = ground arith in
        let (x, e, _) = Returns-value _ (get_next f) (get_next-Returns dir ds f o w) in
        let law = laws.next s₁ in
        let (result, _, _) = rw e at law in
        let never = get_next-result f in
        let one = rw e at never in
        let stops : ((calls.call_syscall_get_next_entry (pos fd) s₁).0 ==ℤ pos 1) ≡ false =
          ground arith in
        rw (r, opens, stops) (laws.output-next s₁)
