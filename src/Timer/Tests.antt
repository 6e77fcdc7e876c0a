-- ===== src/Timer/Tests.antt =====
-- Times around a second, and the theorems at them.
use package_compile_sys.Common.{◌+◌, ◌≡◌, refl, some, arith}
use package_compile_sys.Common.Int.{pos, negsuc, ◌-ℤ◌}
use package_compile_sys.Timer.{
  Timespec, TrcTime, no_time, get_tsd, fits_long, later, set_last, proc_sync, proc_msync,
  interrupted, proc_delay,
}
use package_compile_sys.Timer.Deadline.{total, IsNormal, proc_sync-total}

abbrev now : Timespec
now = record { tv_sec = 5; tv_nsec = 900000000 }

abbrev period : Timespec
period = record { tv_sec = 1; tv_nsec = 200000000 }

abbrev timer : TrcTime
timer = record { cur = no_time; last = record { tv_sec = 4; tv_nsec = 950000000 }; tv = period }

-- 0.95 s have passed, and get_tsd gives up.
get_tsd-borrow : get_tsd now timer.last 109 ≡ some (negsuc 0)
unfolding get_tsd ◌-ℤ◌
get_tsd-borrow = refl

-- An interrupted sleep returns 0, and the deadline has moved.
proc_delay-interrupted :
    proc_delay (interrupted period (some now)) timer
    ≡ (some (pos 0), record timer { last = record { tv_sec = 7; tv_nsec = 100000000 } })
unfolding proc_delay later set_last fits_long
proc_delay-interrupted = refl

proc_sync-total_example :
    ((q : TrcTime) × (proc_sync (some now) timer ≡ (some (pos 0), q))
      × (total q.last ≡ total now + total timer.tv)
      × IsNormal q.last)
    × ((q : TrcTime) × (proc_msync (some now) (some period) timer ≡ (some (pos 0), q))
        × (total q.last ≡ total now + total period)
        × IsNormal q.last
        × (q.tv ≡ period))
proc_sync-total_example =
    proc_sync-total now period timer (omega arith) (omega arith) (omega arith) (omega arith)
      (omega arith)
