-- ===== src/Alarm.antt =====
-- app/lzUtils/trd_timer/trd_timer.c and app/lzUtils/user_timer/user_timer.c: a timer of the system
-- and the setting it is armed with. Whether `calloc` and the calls of the system succeed is an
-- argument. A timer that is set to a first time of zero is disarmed; a call that fails changes
-- nothing. The two files differ in how the timer tells (a thread or a signal) and in the first
-- setting; the pointers to functions in userTimer_t and the mutex of trd_timer_t are left out, and
-- so is the signal's handler.
mod Rearm
use package_compile_sys.Common.{
  ℕ, zero, suc, Option, none, some, Bool, true, false, ◌==◌, ◌&&◌, if◌then◌else◌,
}
use package_compile_sys.Common.Int.{ℤ, pos, negsuc}
use package_compile_sys.Timer.{Timespec, no_time}

-- `struct itimerspec`.
pub record Itimerspec : Type 0 where
  pub it_interval : Timespec
  pub it_value : Timespec

-- `trd_timer_t` or `userTimer_t`, and what the system's timer is armed with.
pub record Alarm : Type 0 where
  pub signo : Option ℕ
  pub its : Itimerspec
  pub armed : Option Itimerspec

abbrev pub no_timer : Itimerspec
no_timer = record { it_interval = no_time; it_value = no_time }

-- `px_timer_set`.
unfoldable pub timer_set : Bool → Itimerspec → Alarm → ℤ × Alarm
timer_set done its ptr =
    if done
    then (
      pos 0,
      record ptr {
        armed =
            if (its.it_value.tv_sec == 0) && (its.it_value.tv_nsec == 0) then none else some its;
      },
    )
    else (negsuc 0, ptr)

unfoldable pub trigger : Bool → Option Itimerspec → Alarm → ℤ × Alarm
trigger done none ptr = timer_set done ptr.its ptr
trigger done (some its) ptr = timer_set done its (record ptr { its = its })

unfoldable pub stop : Bool → Alarm → ℤ × Alarm
stop done ptr = timer_set done no_timer ptr

-- A handle whose timer cannot be made is leaked.
unfoldable pub trd_create : Bool → Bool → Itimerspec → Option Alarm
trd_create called made its =
    if called && made then some record { signo = none; its = its; armed = none } else none

abbrev first_setting : Itimerspec
first_setting = record {
  it_interval = record { tv_sec = 12; tv_nsec = 0 };
  it_value = record { tv_sec = 11; tv_nsec = 0 };
}

-- A signal of 0 stands for the first real-time signal, SIGRTMIN.
unfoldable pub user_create : Bool → Bool → ℕ → ℕ → Option Alarm
user_create called made sigrtmin signo =
    if called && made
    then some record {
      signo = some (if signo == 0 then sigrtmin else signo);
      its = first_setting;
      armed = none;
    }
    else none

-- `trd_timer_destroy` on a handle that is not NULL; the mutex is unlocked in memory that is freed.
unfoldable pub trd_destroy : Alarm → ℤ
trd_destroy ptr = pos 0
