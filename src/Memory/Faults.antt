-- ===== src/Memory/Faults.antt =====
-- The page-fault handler `do_mem_abort` of libs/mm.c.
use demos_os.Base.{ℕ, ◌/◌, ◌%◌, ◌≡◌, arith, ◌==◌, false}
use demos_os.Base.Int.{negsuc}
use demos_os.Base.Run.{ok}
use demos_os.Memory.Tables.{FaultState, do_mem_abort}

-- Whatever the fault's address and status are, the handler returns -1 and changes nothing: it never
-- maps a page.
pub do_mem_abort-never :
    (address esr : ℕ) (s : FaultState) → do_mem_abort address esr s ≡ ok (negsuc 0, s)
unfolding do_mem_abort
do_mem_abort-never address esr s =
    let never : (((esr % 64) / 60) == 4) ≡ false = ground arith in rw never
