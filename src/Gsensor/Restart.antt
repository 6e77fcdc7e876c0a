-- ===== src/Gsensor/Restart.antt =====
-- The same file, a thread that is started before the release flag is taken back.
use package_compile_sys.Common.{
  ℕ, suc, ◌+◌, ◌<◌, ◌≡◌, refl, ◌∙◌, List, [], Option, none, some, Bool, true, false, arith, get_or,
  set,
}
use package_compile_sys.Common.Int.{ℤ, pos}
use package_compile_sys.Gsensor.{
  Sensor, free_data, gsensor_fun_num, gsensor_enable, gsensor_regsenddatafunc,
  gsensor_unregsenddatafunc, register_at, start_thread, gsensor_create_thread,
}
use package_compile_sys.Gsensor.Events.{Round, thread_exit, gsensor_thread, zero_axis}
use package_compile_sys.Gsensor.Registry.{registered, IsRegistry}
use package_compile_sys.Gsensor.Unregister.{gsensor_unregsenddatafunc_lem}
use package_compile_sys.Gsensor.Stop.{thread_loop-released}

register-keeps_release :
    (created : Bool) (s : Sensor) (send : Option ℕ)
    → (gsensor_regsenddatafunc created s send).1.gsrelease_state ≡ s.gsrelease_state
unfolding gsensor_regsenddatafunc register_at start_thread gsensor_create_thread
register-keeps_release created s send = ground arith

thread-released :
    (scale : ℤ → ℕ) (start : Option ℕ) (s : Sensor) (fuel : ℕ) (rounds : List Round)
    → s.gsrelease_state ≡ true
    → gsensor_thread (suc fuel) scale start rounds s
      ≡ some (thread_exit (gsensor_enable start s true).1, [])
unfolding gsensor_thread gsensor_enable
thread-released scale none s fuel rounds e = refl
thread-released scale (some n) s fuel rounds e =
    rw
      (
        gsensor_thread,
        thread_loop-released scale (suc fuel)
            (record {
              sensor = record s { gstate = true };
              init_sensor_data = false;
              new_gs_data = zero_axis;
              calls = [];
              rounds = rounds;
            })
            (omega arith) e,
      )
      refl

-- A function that is registered between the moment when the last one was taken out of a running
-- sensor and the moment when the thread has ended: the thread that its registration starts ends at
-- once, whatever the device sends, and it calls no function.
restart_ends :
    (scale : ℤ → ℕ) (created : Bool) (stop start : Option ℕ) (s : Sensor) (k f g fuel : ℕ)
    (rounds : List Round)
    → IsRegistry s
    → s.gsthread_state ≡ true
    → k < gsensor_fun_num
    → get_or s.senddata k free_data ≡ record { num = k + 1; send = some f }
    → registered (set s.senddata k free_data) ≡ []
    → (u : Sensor) × (gsensor_thread
          (suc fuel)
          scale
          start
          rounds
          (gsensor_regsenddatafunc created
            (gsensor_unregsenddatafunc stop s (pos (k + 1))).1
            (some g)).1
        ≡ some (u, []))
      × (u.gsthread_state ≡ false)
unfolding thread_exit
restart_ends scale created stop start s k f g fuel rounds r run h e only =
    let flag : (gsensor_unregsenddatafunc stop s (pos (k + 1))).1.gsrelease_state ≡ true =
      rw ((gsensor_unregsenddatafunc_lem stop s k f r).4 h e, run, only) refl in
    (
      _,
      thread-released scale start _ fuel rounds (register-keeps_release created _ (some g) ∙ flag),
      refl,
    )
