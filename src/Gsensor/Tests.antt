-- ===== src/Gsensor/Tests.antt =====
-- A sensor with one input device, and the theorems on its table at it.
mod Reading
use package_compile_sys.Common.{
  ℕ, ◌+◌, ◌*◌, ◌<◌, ◌≡◌, ◌≤◌, refl, List, [], ◌∷◌, ◌++◌, Option, some, none, Bool, true, false,
  arith, get_or, set, take, if◌then◌else◌, ◌&&◌,
}
use package_compile_sys.Common.Int.{ℤ, pos, negsuc}
use package_compile_sys.Gsensor.{
  SensorAxis, Sensor, SendData, free_data, gsensor_fun_num, first_free, same_function, scan,
  first_used, gsensor_getregnum, register_at, start_thread, gsensor_create_thread, stop_thread,
  gsensor_enable, gsensor_regsenddatafunc, gsensor_unregsenddatafunc,
}
use package_compile_sys.Gsensor.Events.{
  Axis, abs_x, abs_y, abs_z, Round, Polled, idle, Delivery, gsensor_readevent, gsensor_thread,
  zero_axis, is_stopped, send_sample,
}
use package_compile_sys.Gsensor.Device.{
  Entry, Call, close_fd, ioctl_name, gsensor_init, init_input, open_input, find_input, same_name,
  is_dot, gsensor_name, cleared, start_sensor, gsensor_release,
}
use package_compile_sys.Gsensor.Registry.{IsTable, registered, IsRegistry, FreeAt, holds}
use package_compile_sys.Gsensor.Register.{gsensor_regsenddatafunc_lem, with_function}
use package_compile_sys.Gsensor.Unregister.{
  gsensor_unregsenddatafunc_lem, unregsenddatafunc-regsenddatafunc, without_function, is_empty,
}
use package_compile_sys.Gsensor.Order.{
  Step, registers, unregisters, enables, Reach, here, next, Reach-IsRegistry,
}
use package_compile_sys.Gsensor.Send.{to_each, send_sample_lem}
use package_compile_sys.Gsensor.Sample.{rounds_of, gathered, seen, sample, gsensor_readevent_lem}
use package_compile_sys.Gsensor.Stop.{Releases, gsensor_thread-ends}
use package_compile_sys.Gsensor.Files.{release-failed_init, AreOther, tried}

abbrev pub other_device : Entry
other_device = record { d_name = 101 ∷ 48 ∷ []; opened = some 4; name = 107 ∷ [] }

abbrev pub device : Entry
device = record { d_name = 101 ∷ 49 ∷ []; opened = some 5; name = gsensor_name }

abbrev pub entries : List Entry
entries = other_device ∷ device ∷ []

abbrev pub blank : Sensor
blank = record {
  gsfd = none;
  gsinput = none;
  gsthread_state = false;
  gstate = false;
  gsrelease_state = false;
  axis_x_init = false;
  axis_y_init = false;
  axis_z_init = false;
  gsfun_count = 0;
  gsdata = zero_axis;
  senddata = [];
  sensor_data_x = pos 0;
  sensor_data_y = pos 0;
  sensor_data_z = pos 0;
}

abbrev pub init : Sensor
init = (gsensor_init (some 3) (some entries) true blank).1.0

-- Functions 7 and 8 are registered, then 7 is taken out again.
abbrev pub one : Sensor
one = (gsensor_regsenddatafunc true init (some 7)).1

abbrev two : Sensor
two = (gsensor_regsenddatafunc true one (some 8)).1

abbrev hole : Sensor
hole = (gsensor_unregsenddatafunc (some 0) two (pos 1)).1

pub init_runs : (gsensor_init (some 3) (some entries) true blank).0 ≡ true
unfolding gsensor_init open_input find_input init_input same_name is_dot
init_runs = refl

Reach-IsRegistry_example : IsRegistry hole
Reach-IsRegistry_example = Reach-IsRegistry (some 3) (some entries) true blank init_runs (
    next (next (next here (registers true init (some 7))) (registers true one (some 8)))
      (unregisters (some 0) two (pos 1)))

pub one-IsRegistry : IsRegistry one
one-IsRegistry =
    Reach-IsRegistry (some 3) (some entries) true blank init_runs
      (next here (registers true init (some 7)))

abbrev pub on : Sensor
on = (gsensor_enable (some 0) one true).1

-- Function 7 is in slot 1, the next slot is free, and the thread runs.
pub one_runs :
    FreeAt one.senddata 0 1
    × (holds 9 (take 1 one.senddata) ≡ false)
    × (get_or one.senddata 0 free_data ≡ record { num = 1; send = some 7 })
    × (registered (set one.senddata 0 free_data) ≡ [])
    × (one.gsthread_state ≡ true)
    × (is_stopped on ≡ false)
unfolding gsensor_init open_input find_input init_input same_name is_dot cleared start_sensor
    gsensor_create_thread gsensor_regsenddatafunc gsensor_getregnum first_free scan same_function
    register_at start_thread holds registered is_stopped gsensor_enable
one_runs =
    (record { found = refl; inside = omega arith; free = refl }, refl, refl, refl, refl, refl)

-- The function 8 stands in slot 2 of the table whose slot 1 is free: it is accepted once more, and
-- each sample is sent to it twice.
duplicate_behind_hole :
    registered (gsensor_regsenddatafunc true hole (some 8)).1.senddata ≡ 8 ∷ 8 ∷ []
unfolding gsensor_init open_input find_input init_input same_name is_dot cleared start_sensor
    gsensor_create_thread gsensor_regsenddatafunc gsensor_getregnum first_free scan same_function
    register_at start_thread gsensor_unregsenddatafunc stop_thread first_used registered
duplicate_behind_hole = refl

gsensor_regsenddatafunc_lem_example :
    (gsensor_regsenddatafunc true one none ≡ (negsuc 0, one))
    × (first_free one.senddata 0 ≡ gsensor_fun_num
        → gsensor_regsenddatafunc true one (some 9) ≡ (negsuc 0, one))
    × ((k : ℕ)
        → FreeAt one.senddata 0 k
        → gsensor_regsenddatafunc true one (some 9) ≡ (
            if holds 9 (take k one.senddata)
            then (negsuc 0, one)
            else (pos (k + 1), start_thread true (with_function one k 9))))
gsensor_regsenddatafunc_lem_example = gsensor_regsenddatafunc_lem true one 9 one-IsRegistry

gsensor_unregsenddatafunc_lem_example :
    ((n : ℕ) → gsensor_unregsenddatafunc (some 0) one (negsuc n) ≡ (negsuc 0, one))
    × (gsensor_unregsenddatafunc (some 0) one (pos 0) ≡ (negsuc 0, one))
    × (gsensor_fun_num ≤ 0 → gsensor_unregsenddatafunc (some 0) one (pos 1) ≡ (negsuc 0, one))
    × (get_or one.senddata 0 free_data ≡ free_data
        → gsensor_unregsenddatafunc (some 0) one (pos 1) ≡ (negsuc 0, one))
    × (0 < gsensor_fun_num
        → get_or one.senddata 0 free_data ≡ record { num = 1; send = some 7 }
        → gsensor_unregsenddatafunc (some 0) one (pos 1) ≡ (
          pos 0,
          if one.gsthread_state && is_empty (registered (set one.senddata 0 free_data))
              then record (without_function one 0) {
                gsthread_state = false;
                gsrelease_state = true;
                gstate = false;
              }
              else without_function one 0,
        ))
gsensor_unregsenddatafunc_lem_example =
    gsensor_unregsenddatafunc_lem (some 0) one 0 7 one-IsRegistry

unregsenddatafunc-regsenddatafunc_example :
    (t : Sensor) × (gsensor_regsenddatafunc true one (some 9) ≡ (pos 2, t))
    × ((u : Sensor) × (gsensor_unregsenddatafunc (some 0) t (pos 2) ≡ (pos 0, u))
        × (u.senddata ≡ one.senddata)
        × (u.gsfun_count ≡ one.gsfun_count))
unregsenddatafunc-regsenddatafunc_example =
    unregsenddatafunc-regsenddatafunc true (some 0) one 9 1 one-IsRegistry one_runs.0 one_runs.1

send_sample_lem_example :
    send_sample one (record { x = 1; y = 2; z = 3 })
    ≡ to_each (record { x = 1; y = 2; z = 3 }) (registered one.senddata)
send_sample_lem_example = send_sample_lem one (record { x = 1; y = 2; z = 3 }) one-IsRegistry
