-- ===== src/Gsensor/Order.antt =====
-- The same file, what every state keeps: the sensor from `gsensor_init` on, as a step relation.
use package_compile_sys.Common.{
  ℕ, zero, suc, ◌+◌, ◌≡◌, refl, ap, sym, inl, List, [], Option, none, some, Bool, true, arith,
  length, replicate, length-replicate,
}
use package_compile_sys.Common.Int.{ℤ}
use package_compile_sys.Gsensor.{
  Sensor, SensorAxis, free_data, gsensor_fun_num, gsensor_enable, gsensor_create_thread,
  gsensor_regsenddatafunc, gsensor_unregsenddatafunc,
}
use package_compile_sys.Gsensor.Events.{Axis, store_axis, thread_exit}
use package_compile_sys.Gsensor.Device.{
  gsensor_init, init_input, cleared, Call, gsensor_release, close_input, start_sensor, Entry,
}
use package_compile_sys.Gsensor.Registry.{IsTable, registered, IsRegistry, same_table}
use package_compile_sys.Gsensor.Register.{regsenddatafunc-IsRegistry}
use package_compile_sys.Gsensor.Unregister.{unregsenddatafunc-IsRegistry}

-- What the program's threads do to the state, in any order: the calls of the interface, an event of
-- the input device, the first sample that the thread keeps, and the end of the thread.
pub data Step : Sensor → Sensor → Type 0 where
  registers :
      (created : Bool) (s : Sensor) (send : Option ℕ)
      → Step s (gsensor_regsenddatafunc created s send).1
  unregisters :
      (ioctl : Option ℕ) (s : Sensor) (num : ℤ) → Step s (gsensor_unregsenddatafunc ioctl s num).1
  enables :
      (ioctl : Option ℕ) (s : Sensor) (enable : Bool) → Step s (gsensor_enable ioctl s enable).1
  receives :
      (scale : ℤ → ℕ) (s : Sensor) (acc : SensorAxis) (axis : Axis) (value : ℤ)
      → Step s (store_axis scale s acc axis value).0
  keeps : (s : Sensor) (acc : SensorAxis) → Step s (record s { gsdata = acc })
  exits : (s : Sensor) → Step s (thread_exit s)
  releases : (s : Sensor) → Step s (gsensor_release s).0

pub data Reach (s : Sensor) : Sensor → Type 0 where
  here : Reach s s
  next : {t u : Sensor} → Reach s t → Step t u → Reach s u

release-senddata :
    (s : Sensor)
    → ((gsensor_release s).0.senddata ≡ s.senddata)
      × ((gsensor_release s).0.gsfun_count ≡ s.gsfun_count)
unfolding gsensor_release close_input
release-senddata s = ground arith

Step-IsRegistry : {t u : Sensor} → Step t u → IsRegistry t → IsRegistry u
unfolding gsensor_enable store_axis thread_exit gsensor_release close_input
Step-IsRegistry (registers created s send) r = regsenddatafunc-IsRegistry created s send r
Step-IsRegistry (unregisters ioctl s num) r = unregsenddatafunc-IsRegistry ioctl s num r
Step-IsRegistry (enables none s enable) r = r
Step-IsRegistry (enables (some n) s enable) r = same_table refl refl r
Step-IsRegistry (receives scale s acc Axis.abs_x value) r = same_table refl refl r
Step-IsRegistry (receives scale s acc Axis.abs_y value) r = same_table refl refl r
Step-IsRegistry (receives scale s acc Axis.abs_z value) r = same_table refl refl r
Step-IsRegistry (receives scale s acc Axis.other_axis value) r = r
Step-IsRegistry (keeps s acc) r = same_table refl refl r
Step-IsRegistry (exits s) r = same_table refl refl r
Step-IsRegistry (releases s) r = same_table (release-senddata s).0 (release-senddata s).1 r

IsTable-free : (n i : ℕ) → IsTable i (replicate n free_data)
IsTable-free zero i = tt
IsTable-free (suc n) i = (inl refl, IsTable-free n (i + 1))

registered-free : (n : ℕ) → registered (replicate n free_data) ≡ []
unfolding registered
registered-free zero = refl
registered-free (suc n) = registered-free n

create_thread-IsRegistry :
    (created : Bool) (s : Sensor) → IsRegistry s → IsRegistry (gsensor_create_thread created s)
unfolding gsensor_create_thread
create_thread-IsRegistry created s r = ground (arith, r)

init_input-IsRegistry :
    (created : Bool) (s : Sensor) (fd : ℕ) (input : Option ℕ) (calls : List Call)
    → (init_input created s fd input calls).0 ≡ true
    → IsRegistry (init_input created s fd input calls).1.0
unfolding init_input start_sensor cleared
init_input-IsRegistry created s fd none calls h = cc
init_input-IsRegistry created s fd (some input) calls h =
    create_thread-IsRegistry created _ record {
      size = length-replicate gsensor_fun_num free_data;
      table = IsTable-free gsensor_fun_num 0;
      count = ap length (sym (registered-free gsensor_fun_num));
    }

init-IsRegistry :
    (gsdev : Option ℕ) (dir : Option (List Entry)) (created : Bool) (s : Sensor)
    → (gsensor_init gsdev dir created s).0 ≡ true
    → IsRegistry (gsensor_init gsdev dir created s).1.0
unfolding gsensor_init
init-IsRegistry none dir created s h = cc
init-IsRegistry (some fd) dir created s h = init_input-IsRegistry created s fd _ _ h

-- From a `gsensor_init` that succeeded, whatever is registered, unregistered, enabled, received and
-- released in any order: the table keeps 128 slots, each of which is free or holds its own number and
-- a function, and `gsfun_count` is the number of functions in the table.
pub Reach-IsRegistry :
    (gsdev : Option ℕ) (dir : Option (List Entry)) (created : Bool) (s : Sensor) {t : Sensor}
    → (gsensor_init gsdev dir created s).0 ≡ true
    → Reach (gsensor_init gsdev dir created s).1.0 t
    → IsRegistry t
Reach-IsRegistry gsdev dir created s h here = init-IsRegistry gsdev dir created s h
Reach-IsRegistry gsdev dir created s h (next r st) =
    Step-IsRegistry st (Reach-IsRegistry gsdev dir created s h r)
