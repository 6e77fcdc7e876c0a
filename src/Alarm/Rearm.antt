-- ===== src/Alarm/Rearm.antt =====
-- A timer that was stopped can be armed again with its last setting.
use package_compile_sys.Common.{◌+◌, ◌<◌, ◌≡◌, refl, none, some, true, arith}
use package_compile_sys.Alarm.{Itimerspec, Alarm, timer_set, trigger, stop}

-- A trigger with a setting, a stop and a trigger with none arm the timer with that setting, if its
-- first time is not zero; in between the timer is disarmed.
rearm :
    (its : Itimerspec) (ptr : Alarm)
    → 0 < its.it_value.tv_sec + its.it_value.tv_nsec
    → ((stop true (trigger true (some its) ptr).1).1.armed ≡ none)
      × ((trigger true none (stop true (trigger true (some its) ptr).1).1).1.armed ≡ some its)
unfolding stop trigger timer_set
rearm its ptr h = (refl, ground arith)
