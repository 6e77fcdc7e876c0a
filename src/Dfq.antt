-- ===== src/Dfq.antt =====
-- app/lzUtils/dfq_fifo/dfq_fifo.c and dfq_fifo.h: a bounded queue for several threads, over
-- dll_fifo. Each function is what follows its test of the handle against NULL, with the mutex held
-- from its lock to its unlock. A wait on the condition lets the other threads work: what they do to
-- the queue meanwhile is an argument. The signal that follows a write is not in the state: it ends
-- a wait. The two functions given to `dll_fifo_create` only call what `par` holds.
pub mod Bound
pub mod Read
mod Tests
use package_compile_sys.Common.{
  ℕ, zero, suc, List, [], ◌∷◌, Option, none, some, Bool, true, false, leb, if◌then◌else◌,
}
use package_compile_sys.Common.Int.{ℤ}
use package_compile_sys.Dll as Dll
use package_compile_sys.Dll.{DllFifo, DllFifoPar}
use package_compile_sys.Dll.Heap.{Ptr, null, Cmd, pure, ◌>>=◌}

-- `dfq_fifo_t`; `size` is `mPar->size`.
pub record DfqFifo : Type 0 where
  pub size : ℕ
  pub que : DllFifo
  pub is_wait_was_exited : Bool

-- What the other threads do during one wait.
abbrev pub Wait : Type 0
Wait = DfqFifo → Cmd DfqFifo

abbrev queue_par : DllFifoPar
queue_par = record { size = 0; dat_create = true; dat_destroy = true }

-- `called` and `que_called` tell whether `calloc` of the two handles succeeded.
unfoldable pub create : Bool → Bool → ℕ → Cmd (Option DfqFifo)
create called que_called size =
    if called
    then (do
      made ← Dll.create que_called (some queue_par) [] zero
      elim made [
        | none ↦ pure none
        | some q ↦ pure (some record { size = size; que = q; is_wait_was_exited = false })
      ])
    else pure none

unfoldable pub full : DfqFifo → Bool
full ptr = leb ptr.size ptr.que.size

unfoldable pub empty : DfqFifo → Bool
empty ptr = leb ptr.que.size 0

unfoldable pub pop : DfqFifo → Cmd (Option (Option ℕ) × DfqFifo)
pop ptr = do (d, q) ← Dll.pop_front ptr.que; pure (some d, record ptr { que = q })

-- The loop waits while the queue is empty; `none` is a reader that still waits when the list of
-- waits ends.
unfoldable pub read : List Wait → DfqFifo → Cmd (Option (Option ℕ) × DfqFifo)
read [] ptr = if leb ptr.que.size 0 then pure (none, ptr) else pop ptr
read (wait ∷ waits) ptr =
    if leb ptr.que.size 0 then (do ptr' ← wait ptr; read waits ptr') else pop ptr

-- A wait of `dfq_fifo_tdRead` ends with a signal or with its time, both of which are the same to
-- the loop: only the exit flag makes it return NULL.
unfoldable pub td_read : List Wait → DfqFifo → Cmd (Option (Option ℕ) × DfqFifo)
td_read [] ptr = if leb ptr.que.size 0 then pure (none, ptr) else pop ptr
td_read (wait ∷ waits) ptr =
    if leb ptr.que.size 0
    then (do
      ptr' ← wait ptr
      if ptr'.is_wait_was_exited then pure (some none, ptr') else td_read waits ptr')
    else pop ptr

unfoldable pub push : Ptr → DfqFifo → ℕ → Cmd (Bool × DfqFifo)
push nd ptr payload = do
  (res, q) ← Dll.push_back nd ptr.que payload
  pure (res, record ptr { que = q })

unfoldable pub write : Wait → Ptr → DfqFifo → ℕ → Cmd (Bool × DfqFifo)
write wait nd ptr payload =
    if leb ptr.size ptr.que.size
    then (do ptr' ← wait ptr; push nd ptr' payload)
    else push nd ptr payload

unfoldable pub td_write : Wait → Ptr → DfqFifo → ℕ → Cmd (Bool × DfqFifo)
td_write wait nd ptr payload =
    if leb ptr.size ptr.que.size
    then (do
      ptr' ← wait ptr
      if leb ptr'.size ptr'.que.size then pure (false, ptr') else push nd ptr' payload)
    else push nd ptr payload

unfoldable pub cyc_write : ℕ → Ptr → DfqFifo → ℕ → Cmd (Bool × DfqFifo)
cyc_write fuel nd ptr payload =
    if leb ptr.size ptr.que.size
    then (do (_, q) ← Dll.erase fuel ptr.que payload; push nd (record ptr { que = q }) payload)
    else push nd ptr payload

unfoldable pub clear : ℕ → DfqFifo → Cmd (Bool × DfqFifo)
clear fuel ptr = do (res, q) ← Dll.clear fuel ptr.que; pure (res, record ptr { que = q })

unfoldable pub get : ℕ → DfqFifo → ℕ → Cmd (Option ℕ)
get fuel ptr n = Dll.get fuel ptr.que n

unfoldable pub query : ℕ → DfqFifo → ℤ → Cmd (Option ℕ)
query fuel ptr n = Dll.query fuel ptr.que n

unfoldable pub size_of : DfqFifo → ℕ
size_of ptr = ptr.que.size

unfoldable pub set_exit : DfqFifo → DfqFifo
set_exit ptr = record ptr { is_wait_was_exited = true }

-- Only the queue is freed; its handle stays in `mQue`.
unfoldable pub destroy : ℕ → DfqFifo → Cmd Bool
destroy fuel ptr = Dll.destroy fuel ptr.que
