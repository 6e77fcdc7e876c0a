-- ===== src/Gsensor/Tests/Reading.antt =====
-- The same sensor, and the theorems on its thread and its descriptors.
use package_compile_sys.Common.{
  ℕ, ◌+◌, ◌*◌, ◌≡◌, refl, List, [], ◌∷◌, ◌++◌, some, none, true, false, arith, if◌then◌else◌, ◌&&◌,
}
use package_compile_sys.Common.Int.{ℤ, pos, negsuc}
use package_compile_sys.Gsensor.{Sensor}
use package_compile_sys.Gsensor.Events.{
  Axis, abs_x, abs_y, abs_z, Round, idle, Delivery, gsensor_readevent, gsensor_thread, zero_axis,
}
use package_compile_sys.Gsensor.Device.{
  Call, close_fd, gsensor_init, open_input, find_input, same_name, is_dot, gsensor_name,
  gsensor_release,
}
use package_compile_sys.Gsensor.Registry.{registered, IsRegistry}
use package_compile_sys.Gsensor.Order.{registers, enables, here, next, Reach-IsRegistry}
use package_compile_sys.Gsensor.Send.{to_each}
use package_compile_sys.Gsensor.Sample.{rounds_of, gathered, seen, sample, gsensor_readevent_lem}
use package_compile_sys.Gsensor.Stop.{gsensor_thread-ends}
use package_compile_sys.Gsensor.Files.{release-failed_init, AreOther}
use package_compile_sys.Gsensor.Tests.{
  other_device, device, entries, blank, init, one, on, init_runs, one_runs,
}

on-IsRegistry : IsRegistry on
on-IsRegistry =
    Reach-IsRegistry (some 3) (some entries) true blank init_runs
      (next (next here (registers true init (some 7))) (enables (some 0) one true))

abbrev on_values : List (Axis × ℤ)
on_values = (abs_x, pos 5) ∷ (abs_y, negsuc 2) ∷ (abs_z, pos 9) ∷ (abs_x, pos 6) ∷ []

abbrev by_parts : ℤ → ℕ
by_parts (pos n) = 2 * n
by_parts (negsuc n) = 2 * n + 1

gsensor_readevent_lem_example :
    gsensor_readevent by_parts (rounds_of on_values []) on zero_axis 1 ≡ (
      if seen abs_x on.axis_x_init on_values
        && seen abs_y on.axis_y_init on_values
        && seen abs_z on.axis_z_init on_values
      then some record {
        ret = some 1;
        after = (gathered by_parts on zero_axis on_values).0;
        accdata = sample by_parts zero_axis on_values;
        sent = to_each (sample by_parts zero_axis on_values) (registered on.senddata);
        rest = [];
      }
      else gsensor_readevent by_parts []
          (gathered by_parts on zero_axis on_values).0
          (sample by_parts zero_axis on_values)
          1)
gsensor_readevent_lem_example =
    gsensor_readevent_lem by_parts on zero_axis on_values [] on-IsRegistry one_runs.5

abbrev releasing : Round
releasing = record { others = λ s. record s { gsrelease_state = true }; polled = idle }

gsensor_thread-ends_example :
    (u : Sensor) × (calls : List Delivery) × (gsensor_thread 7 by_parts
        (some 0)
        (rounds_of on_values [] ++ (releasing ∷ []))
        one
      ≡ some (u, calls))
    × (u.gsthread_state ≡ false)
    × (u.gsrelease_state ≡ false)
gsensor_thread-ends_example =
    gsensor_thread-ends by_parts (some 0) releasing 7 (rounds_of on_values []) one (λ s. refl)
      (omega arith)

no_device : (open_input (some (other_device ∷ [])) gsensor_name).0 ≡ none
unfolding open_input find_input same_name is_dot
no_device = refl

release-failed_init_example :
    (t : Sensor) × (calls : List Call) × (gsensor_init
        (some 3)
        (some (other_device ∷ []))
        true
        blank
      ≡ (false, (t, calls ++ (close_fd 3 ∷ []))))
    × ((gsensor_release t).1 ≡ close_fd 3 ∷ [])
    × ((gsensor_release t).0.gsfd ≡ none)
    × ((gsensor_release t).0.gsinput ≡ none)
release-failed_init_example = release-failed_init 3 (some (other_device ∷ [])) true blank no_device

other_name : AreOther gsensor_name (other_device ∷ [])
unfolding same_name
other_name = (refl, tt)

no_dot : is_dot device.d_name ≡ false
unfolding is_dot same_name
no_dot = refl

right_name : same_name device.name gsensor_name ≡ true
unfolding same_name
right_name = refl
