-- ===== src/Fifo/Open.antt =====
-- app/lzUtils/un_fifo_ops/un_fifo_ops.c: a pipe is opened and closed; the starts of a writer and a
-- reader in app/lzUtils/user_fifo/user_fifo.c. What open(2), fcntl(2) and close(2) return is given.
use package_compile_sys.Common.{◌≡◌, Option, none, some, Bool, false, ◌&&◌, if◌then◌else◌, arith}
use package_compile_sys.Common.Int.{ℤ, pos, negsuc, ltb_ℤ}

-- `unixFifoOps_t`, less its path; `held` tells whether its mutex is locked.
pub record UnixFifoOps : Type 0 where
  pub fd : ℤ
  pub need_lock : Bool
  pub held : Bool

-- The pipe is opened, or made and opened again. The failure returns with the mutex locked.
unfoldable pub ops_init : ℤ → ℤ → UnixFifoOps → ℤ × UnixFifoOps
ops_init opened opened_again ptr =
    if ltb_ℤ opened (pos 0)
    then (if ltb_ℤ opened_again (pos 0)
        then (opened_again, record ptr { held = ptr.need_lock })
        else (opened_again, record ptr { held = false }))
    else (opened, record ptr { held = false })

-- `called` tells whether `calloc` succeeded; a pipe that does not open leaks the handle.
unfoldable pub ops_create : Bool → ℤ → ℤ → Bool → Option UnixFifoOps
ops_create called opened opened_again need_lock =
    if called
    then (let (fd, ptr) =
          ops_init opened opened_again
            (record { fd = pos 0; need_lock = need_lock; held = false }) in
        if ltb_ℤ fd (pos 0) then none else some (record ptr { fd = fd }))
    else none

-- The mutex is unlocked and destroyed after the handle that holds it was freed.
unfoldable pub ops_destory : ℤ → UnixFifoOps → ℤ
ops_destory closed ptr = if ltb_ℤ closed (pos 0) then negsuc 0 else pos 0

-- A pipe whose flags cannot be set stays open.
unfoldable pub write_init : Bool → ℤ → ℤ → ℤ → Option UnixFifoOps
write_init called opened opened_again flagged = elim (ops_create called opened opened_again false) [
  | none ↦ none
  | some ptr ↦ if ltb_ℤ flagged (pos 0) then none else some ptr
]

-- `fifo_cmd_type_t`.
pub data CmdType : Type 0 where
  type_min : CmdType
  unspecified_fifo : CmdType
  unspecified_pipe : CmdType
  specified_fifo : CmdType
  specified_pipe : CmdType
  type_max : CmdType

abbrev named : Bool → ℤ → ℤ → ℤ × Option UnixFifoOps
named called opened opened_again = elim (ops_create called opened opened_again false) [
  | none ↦ (negsuc 0, none)
  | some ptr ↦ (pos 0, some ptr)
]

abbrev given : Bool → ℤ → ℤ × Option UnixFifoOps
given called fd =
    if called
    then (pos 0, some record { fd = fd; need_lock = false; held = false })
    else (negsuc 1, none)

unfoldable pub read_init : Bool → ℤ → ℤ → ℤ → CmdType → ℤ × Option UnixFifoOps
read_init called opened opened_again fd unspecified_fifo = named called opened opened_again
read_init called opened opened_again fd specified_fifo = named called opened opened_again
read_init called opened opened_again fd unspecified_pipe = given called fd
read_init called opened opened_again fd specified_pipe = given called fd
read_init called opened opened_again fd type_min = (negsuc 1, none)
read_init called opened opened_again fd type_max = (negsuc 1, none)

-- A handle that needs its lock is left locked by un_fifo_ops_init exactly when both opens fail.
ops_init-held :
    (opened opened_again : ℤ) (ptr : UnixFifoOps)
    → (ops_init opened opened_again ptr).1.held
      ≡ ((ltb_ℤ opened (pos 0) && ltb_ℤ opened_again (pos 0)) && ptr.need_lock)
unfolding ops_init
ops_init-held opened opened_again ptr = ground arith
