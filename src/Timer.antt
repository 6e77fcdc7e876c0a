-- ===== src/Timer.antt =====
-- app/lzUtils/common/px_timer.c and px_timer.h: deadlines and times that have passed. The clock is
-- what `clock_gettime` gives, none where it fails. Times of the clock and periods are not negative;
-- their differences are integers. A `long` has 32 bits, and a value that does not fit one has no
-- result. `clock_nanosleep` is its outcome. Handles are not NULL, and the log is left out.
pub mod Deadline
mod Tests
use package_compile_sys.Common.{
  ℕ, zero, suc, ◌+◌, ◌-◌, ◌*◌, ◌/◌, ◌^◌, Option, none, some, Bool, true, false, ltb, leb, ◌==◌,
  ◌&&◌, if◌then◌else◌,
}
use package_compile_sys.Common.Int.{ℤ, pos, negsuc, ◌+ℤ◌, ◌-ℤ◌, ◌*ℤ◌, ltb_ℤ, pos_part, neg_part}

-- `struct timespec`.
pub record Timespec : Type 0 where
  pub tv_sec : ℕ
  pub tv_nsec : ℕ

-- `trc_time_t`, less the number of its clock.
pub record TrcTime : Type 0 where
  pub cur : Timespec
  pub last : Timespec
  pub tv : Timespec

abbrev pub no_time : Timespec
no_time = record { tv_sec = 0; tv_nsec = 0 }

-- `called` tells whether `calloc` succeeded.
unfoldable pub create : Bool → Option Timespec → Option TrcTime
create called period =
    if called
    then some
        record { cur = no_time; last = no_time; tv = elim period [ none ↦ no_time | some tv ↦ tv ] }
    else none

-- What a call returns, and the handle; none, no result, where a `long` overflows or NULL is read.
abbrev pub Outcome : Type 0
Outcome = Option ℤ × TrcTime

unfoldable pub time_sync : Option Timespec → TrcTime → Outcome
time_sync none ptr = (some (negsuc 0), ptr)
time_sync (some now) ptr = (some (pos 0), record ptr { last = now })

-- A value that fits a `long`.
unfoldable pub as_long : ℤ → Option ℤ
as_long a = if ltb (pos_part a) (2 ^ 31) && leb (neg_part a) (2 ^ 31) then some a else none

-- `sec * scale + rest` on `long`s.
unfoldable pub scaled : ℤ → ℕ → ℤ → Option ℤ
scaled sec scale rest = elim (as_long (sec *ℤ pos scale)) [
  | none ↦ none
  | some product ↦ as_long (product +ℤ rest)
]

unfoldable pub time_get : Option Timespec → Bool → TrcTime → Outcome
time_get none sync ptr = (some (negsuc 0), ptr)
time_get (some now) sync ptr = (
  scaled (pos now.tv_sec -ℤ pos ptr.last.tv_sec) 1000000000
      (pos now.tv_nsec -ℤ pos ptr.last.tv_nsec),
  record ptr { cur = now; last = if sync then now else ptr.last },
)

-- `get_tsd` of `t2` and `t1`, and its macro `get_tsv`: a smaller number of nanoseconds in `t2`
-- makes it return -1, whatever the seconds are. The level is a char.
unfoldable pub get_tsd : Timespec → Timespec → ℕ → Option ℤ
get_tsd t2 t1 lev =
    let sec = pos t2.tv_sec -ℤ pos t1.tv_sec in
    let nsec = t2.tv_nsec - t1.tv_nsec in
    if ltb t2.tv_nsec t1.tv_nsec
    then some (negsuc 0)
    else (if lev == 115
        then some sec
        else (if lev == 109
            then scaled sec 1000 (pos (nsec / 1000000))
            else (if lev == 117
                then scaled sec 1000000 (pos (nsec / 1000))
                else (if lev == 110 then scaled sec 1000000000 (pos nsec) else some (negsuc 0)))))

-- A sum that is not negative fits a `long`.
unfoldable pub fits_long : ℕ → Bool
fits_long n = ltb n (2 ^ 31)

-- The sum of two times, with one carry: two sums of `long`s, and one more.
unfoldable pub later : Timespec → Timespec → Option Timespec
later a b =
    let sec = a.tv_sec + b.tv_sec in
    let nsec = a.tv_nsec + b.tv_nsec in
    if fits_long sec && fits_long nsec
    then (if ltb 999999999 nsec
        then (if fits_long (sec + 1)
            then some (record { tv_sec = sec + 1; tv_nsec = nsec - 1000000000 })
            else none)
        else some (record { tv_sec = sec; tv_nsec = nsec }))
    else none

-- The deadline is set to a sum, with 0 returned; a sum that overflows has no result.
unfoldable pub set_last : TrcTime → Option Timespec → Outcome
set_last ptr none = (none, ptr)
set_last ptr (some t) = (some (pos 0), record ptr { last = t })

unfoldable pub proc_sync : Option Timespec → TrcTime → Outcome
proc_sync none ptr = (some (negsuc 0), ptr)
proc_sync (some now) ptr = set_last ptr (later now ptr.tv)

-- A period of NULL is read all the same, which has no result.
unfoldable pub proc_msync : Option Timespec → Option Timespec → TrcTime → Outcome
proc_msync none period ptr = (some (negsuc 0), ptr)
proc_msync (some now) none ptr = (none, ptr)
proc_msync (some now) (some period) ptr = set_last (record ptr { tv = period }) (later now period)

-- The outcomes of `clock_nanosleep`: EINTR comes with the time that remains and the clock behind it.
pub data Sleep : Type 0 where
  slept : Sleep
  interrupted : Timespec → Option Timespec → Sleep
  failed : Sleep

-- The `ret` that `while(ret)` tests is the outer one, which is still 0: there is one round.
unfoldable pub proc_delay : Sleep → TrcTime → Outcome
proc_delay slept ptr = (some (pos 0), ptr)
proc_delay (interrupted rem now) ptr =
    set_last ptr (later (elim now [ none ↦ ptr.last | some t ↦ t ]) rem)
proc_delay failed ptr = (some (negsuc 0), ptr)
