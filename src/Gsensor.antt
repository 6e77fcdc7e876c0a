-- ===== src/Gsensor.antt =====
-- app/multiBox/src/sensor/gsensor.cpp: the acceleration sensor. The static `sensor` and the table of
-- the functions that are given each sample are one state; the mutex is held from its lock to its
-- unlock. A file descriptor that is negative is `none`, a flag that is only ever 0 or 1 a Bool, a
-- function pointer a number or NULL, a float its bit pattern. What `ioctl` and `pthread_create`
-- return is an argument.
pub mod Events
pub mod Device
pub mod Registry
pub mod Register
pub mod Unregister
pub mod Order
pub mod Send
pub mod Sample
pub mod Stop
pub mod Restart
pub mod Files
mod Tests
use package_compile_sys.Common.{
  ℕ, suc, ◌+◌, ◌-◌, ◌%◌, ◌^◌, List, [], ◌∷◌, Option, none, some, Bool, true, false, ltb, leb, ◌==◌,
  if◌then◌else◌, ◌||◌, get_or, set, replicate,
}
use package_compile_sys.Common.Int.{ℤ, pos, negsuc}

abbrev pub gsensor_fun_num : ℕ
gsensor_fun_num = 128

-- `struct sensor_axis`.
pub record SensorAxis : Type 0 where
  pub x : ℕ
  pub y : ℕ
  pub z : ℕ

-- `struct gsensor_send_data`: a number and a function; 0 and NULL where the slot is free.
pub record SendData : Type 0 where
  pub num : ℕ
  pub send : Option ℕ

abbrev pub free_data : SendData
free_data = record { num = 0; send = none }

-- `struct gsensor`, the table `senddata`, and the last raw values; `gsfun_count` is a signed 32-bit
-- word.
pub record Sensor : Type 0 where
  pub gsfd : Option ℕ
  pub gsinput : Option ℕ
  pub gsthread_state : Bool
  pub gstate : Bool
  pub gsrelease_state : Bool
  pub axis_x_init : Bool
  pub axis_y_init : Bool
  pub axis_z_init : Bool
  pub gsfun_count : ℕ
  pub gsdata : SensorAxis
  pub senddata : List SendData
  pub sensor_data_x : ℤ
  pub sensor_data_y : ℤ
  pub sensor_data_z : ℤ

-- `gsensor_enable`: `ioctl` is what the driver returns, `none` for a negative number.
unfoldable pub gsensor_enable : Option ℕ → Sensor → Bool → Option ℕ × Sensor
gsensor_enable none sensor enable = (none, sensor)
gsensor_enable (some ret) sensor enable = (some ret, record sensor { gstate = enable })

-- `gsensor_create_thread`: whether `pthread_create` succeeded.
unfoldable pub gsensor_create_thread : Bool → Sensor → Sensor
gsensor_create_thread created sensor =
    if created then sensor else record sensor { gsthread_state = false }

-- The loop of `gsensor_getregnum`, which stops at the first free slot.
unfoldable pub first_free : List SendData → ℕ → ℕ
first_free [] i = i
first_free (d ∷ ds) i = elim (d.num == 0) [ true ↦ i | false ↦ first_free ds (i + 1) ]

unfoldable pub gsensor_getregnum : Sensor → ℤ
gsensor_getregnum sensor =
    let i = first_free sensor.senddata 0 in if ltb i gsensor_fun_num then pos (i + 1) else negsuc 0

unfoldable pub same_function : Option ℕ → Option ℕ → Bool
same_function none none = true
same_function none (some g) = false
same_function (some f) none = false
same_function (some f) (some g) = f == g

-- The loop of `gsensor_regsenddatafunc`: where it stops, or `none` when it meets the function.
unfoldable pub scan : Option ℕ → List SendData → ℕ → Option ℕ
scan send [] i = some i
scan send (d ∷ ds) i = elim (same_function d.send send) [
  | true ↦ none
  | false ↦ elim (d.num == 0) [ true ↦ some i | false ↦ scan send ds (i + 1) ]
]

unfoldable pub start_thread : Bool → Sensor → Sensor
start_thread created sensor =
    if sensor.gsthread_state
    then sensor
    else gsensor_create_thread created (record sensor { gsthread_state = true })

-- The part of `gsensor_regsenddatafunc` behind its loop, which stopped at `i`.
unfoldable pub register_at : Bool → Sensor → Option ℕ → ℕ → ℕ → ℤ × Sensor
register_at created sensor send num i =
    if i == num - 1
    then elim (get_or sensor.senddata (num - 1) free_data).send [
      | some f ↦ (negsuc 0, sensor)
      | none ↦ (
        pos num,
        start_thread created (record sensor {
          senddata = set sensor.senddata (num - 1) (record { num = num; send = send });
          gsfun_count = (sensor.gsfun_count + 1) % 2 ^ 32;
        }),
      )
    ]
    else (negsuc 0, sensor)

unfoldable pub gsensor_regsenddatafunc : Bool → Sensor → Option ℕ → ℤ × Sensor
gsensor_regsenddatafunc created sensor send = elim (gsensor_getregnum sensor) [
  | negsuc n ↦ (negsuc 0, sensor)
  | pos num ↦
      if ltb num 1 || ltb gsensor_fun_num num
      then (negsuc 0, sensor)
      else elim (scan send sensor.senddata 0) [
        | none ↦ (negsuc 0, sensor)
        | some i ↦ register_at created sensor send num i
      ]
]

-- The loop at the end of `gsensor_unregsenddatafunc`, which stops at the first slot in use.
unfoldable pub first_used : List SendData → ℕ → ℕ
first_used [] i = i
first_used (d ∷ ds) i = elim (d.num == 0) [ false ↦ i | true ↦ first_used ds (i + 1) ]

-- The end of `gsensor_unregsenddatafunc`: the thread is told to stop with the last function.
unfoldable pub stop_thread : Option ℕ → Sensor → Sensor
stop_thread ioctl sensor =
    if sensor.gsthread_state
    then (if first_used sensor.senddata 0 == gsensor_fun_num
        then (gsensor_enable ioctl
            (record sensor { gsthread_state = false; gsrelease_state = true }) false).1
        else sensor)
    else sensor

unfoldable pub gsensor_unregsenddatafunc : Option ℕ → Sensor → ℤ → ℤ × Sensor
gsensor_unregsenddatafunc ioctl sensor (negsuc n) = (negsuc 0, sensor)
gsensor_unregsenddatafunc ioctl sensor (pos num) =
    if ltb num 1 || ltb gsensor_fun_num num
    then (negsuc 0, sensor)
    else elim (get_or sensor.senddata (num - 1) free_data).send [
      | none ↦ (negsuc 0, sensor)
      | some f ↦ (
        pos 0,
        stop_thread ioctl (record sensor {
          senddata = set sensor.senddata (num - 1) free_data;
          gsfun_count = (sensor.gsfun_count + (2 ^ 32 - 1)) % 2 ^ 32;
        }),
      )
    ]
