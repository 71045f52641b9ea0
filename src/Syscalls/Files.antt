-- ===== src/Syscalls/Files.antt =====
-- The system calls on files of libs/syscalls.c, with the paths of libs/filesystem.c. The FAT
-- library is a parameter: a state `Fat` and its operations, each with a status that is 0 on success.
pub mod Descriptors
pub mod Entries
pub mod Mount
pub mod Exec
use demos_os.Base.{
  ◌&&◌, Bool, ℕ, zero, suc, ◌+◌, not, ◌||◌, List, [], ◌∷◌, ◌++◌, ltb, ◌==◌, if◌then◌else◌, length,
}
use demos_os.Base.Int.{ℤ, pos, negsuc, ◌==ℤ◌, ltb_ℤ, pos_part}
use demos_os.Base.Run.{Run, ok, fault, ◌>>=◌}
use demos_os.Pcb.{Ptr, null, max_files_per_process, Pcb}
use demos_os.Sched.{Kernel, current, modify_pcb, update}
use demos_os.Memory.{Memory, allocate_kernel_page, free_page}

-- `FatResource`: its type and the pointer of its union.
pub record FatResource : Type 0 where
  pub resource_type : ℕ
  pub pointer : Ptr

abbrev pub resource_type_file : ℕ
resource_type_file = 0

abbrev pub resource_type_folder : ℕ
resource_type_folder = 1

-- `FAT_MAX_PATH_SIZE`
abbrev pub fat_max_path_size : ℕ
fat_max_path_size = 128

abbrev pub mount_point : List ℕ
mount_point = b'/' ∷ b'm' ∷ b'n' ∷ b't' ∷ b'/' ∷ []

-- The kernel's state, the memory and the resources, with the library's state.
pub record Files (Fat : Type 0) : Type 0 where
  pub kernel : Kernel
  pub memory : Memory
  pub resources : Ptr → FatResource
  pub fat : Fat

-- The first free slot from `i` on, among `rounds`; -1 if there is none.
pub free_slot : (rounds i : ℕ) → (ℕ → Ptr) → ℤ
free_slot zero i files = negsuc 0
free_slot (suc rounds) i files =
    let rest = free_slot rounds (i + 1) files in if files i == null then pos i else rest

unfoldable pub get_first_free_file_descriptor : Pcb → ℤ
get_first_free_file_descriptor c = free_slot max_files_per_process 0 c.files

-- An index of `files` inside the array; the calls below do not test it.
abbrev pub in_slots : ℤ → Bool
in_slots fd = not (ltb_ℤ fd (pos 0)) && ltb_ℤ fd (pos max_files_per_process)

-- `fat_file_open`, `fat_dir_open` or `fat_dir_create` on a path and the new object's page.
abbrev pub Opener : Type 0 → Type 0
Opener Fat = List ℕ → Ptr → Fat → ℤ × Fat

module _ {Fat : Type 0} where
  -- The wrappers of filesystem.c: a path that does not fit is refused before the library is called.
  unfoldable pub open_path : Opener Fat → Opener Fat
  open_path opener path object fat =
      if ltb (length mount_point + length path) fat_max_path_size
      then opener (mount_point ++ path) object fat
      else (negsuc 0, fat)

  -- The new resource in slot `fd` of the current process.
  abbrev pub install : ℕ → (resource_type : ℕ) → Ptr → Files Fat → Files Fat
  install fd resource_type object s =
      let (r, memory) = allocate_kernel_page s.memory in
      let p = s.kernel.current_process in
      record s {
        kernel = modify_pcb s.kernel p (λ c. record c { files = update c.files fd r });
        memory = memory;
        resources =
            update s.resources r (record { resource_type = resource_type; pointer = object });
      }

  -- `syscall_open_file`, `syscall_open_dir` and `syscall_create_dir`: `report` is the value that the
  -- call returns for the library's error.
  unfoldable pub syscall_open :
      (report : ℤ → ℤ)
      → Opener Fat
      → (resource_type : ℕ) (path : List ℕ) → Files Fat
      → Run (ℤ × Files Fat)
  syscall_open report opener resource_type path s =
      let fd = get_first_free_file_descriptor (current s.kernel) in
      let (object, memory) = allocate_kernel_page s.memory in
      let (error, fat) = open_path opener path object s.fat in
      let s₁ : Files Fat = record s { memory = memory; fat = fat } in
      let failed = free_page object memory >>= λ (_, memory').
      ok (report error, record s₁ { memory = memory' }) in
      if fd ==ℤ negsuc 0
      then ok (negsuc 0, s)
      else if not (error ==ℤ pos 0)
      then failed
      else ok (fd, install (pos_part fd) resource_type object s₁)

  -- `syscall_close_file`: the slot is given a new resource with no object, and is not emptied.
  -- A slot that is empty is a read through NULL.
  unfoldable pub syscall_close_file :
      (fat_file_close : Ptr → Fat → ℤ × Fat) → (fd : ℤ) → Files Fat → Run (ℤ × Files Fat)
  syscall_close_file fat_file_close fd s =
      let i = pos_part fd in
      let r = (current s.kernel).files i in
      let object = (s.resources r).pointer in
      let (error, fat) = fat_file_close object s.fat in
      let s₁ : Files Fat = record s { fat = fat } in
      let closed = free_page object s.memory >>= λ (_, memory).
      ok (pos 0, install i 0 null (record s₁ { memory = memory })) in
      if ltb_ℤ fd (pos 0) || not (ltb_ℤ fd (pos max_files_per_process))
      then ok (negsuc 0, s)
      else if r == null
      then fault
      else if not (error ==ℤ pos 0)
      then ok (error, s₁)
      else closed

  -- `syscall_write_file`, with `fat_file_write` on the object: the status and how many bytes
  -- were written, 0 for an empty slot, where the code leaves the caller's count alone.
  unfoldable pub syscall_write_file :
      (fat_file_write : Ptr → List ℕ → Fat → ℤ × ℕ × Fat)
      → (fd : ℤ) → List ℕ
      → Files Fat
      → Run (ℤ × ℕ × Files Fat)
  syscall_write_file fat_file_write fd buffer s =
      let r = (current s.kernel).files (pos_part fd) in
      let (error, n_bytes, fat) = fat_file_write (s.resources r).pointer buffer s.fat in
      if not (in_slots fd)
      then fault
      else if r == null
      then ok (negsuc 0, 0, s)
      else ok (error, n_bytes, record s { fat = fat })

  -- `syscall_read_file`, with `fat_file_seek` to the start and `fat_file_read`: the status and the
  -- bytes read. A slot that is empty is a read through NULL.
  unfoldable pub syscall_read_file :
      (fat_file_seek : Ptr → Fat → Fat) (fat_file_read : Ptr → ℕ → Fat → ℤ × List ℕ × Fat)
      → (fd : ℤ) (len : ℕ) → Files Fat
      → Run (ℤ × List ℕ × Files Fat)
  syscall_read_file fat_file_seek fat_file_read fd len s =
      let r = (current s.kernel).files (pos_part fd) in
      let object = (s.resources r).pointer in
      let (error, read_bytes, fat) = fat_file_read object len (fat_file_seek object s.fat) in
      if not (in_slots fd)
      then fault
      else if r == null
      then fault
      else ok (error, read_bytes, record s { fat = fat })
