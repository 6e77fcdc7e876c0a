-- ===== src/Gsensor/Events.antt =====
-- The same file, the thread that reads the input device: `gsensor_readevent` and `gsensor_thread`.
-- A round of a loop is what the other threads do to the state before it, and what `poll` and `read`
-- then return; `scale` is the product of a raw value with ACCEL_RATIO as a float.
use package_compile_sys.Common.{
  ℕ, zero, suc, ◌+◌, ◌^◌, List, [], ◌∷◌, ◌++◌, Option, none, some, Bool, true, false, leb, ◌==◌,
  if◌then◌else◌, ◌||◌, ◌&&◌, not,
}
use package_compile_sys.Common.Int.{ℤ}
use package_compile_sys.Gsensor.{SensorAxis, SendData, Sensor, gsensor_enable}

-- The axes of EV_ABS; a code that is none of the three is `other_axis`.
pub data Axis : Type 0 where
  abs_x abs_y abs_z other_axis : Axis

-- `struct input_event`, as far as it is looked at: the type with its code and value.
pub data InputEvent : Type 0 where
  ev_abs : Axis → ℤ → InputEvent
  ev_syn ev_unknown : InputEvent

-- What `poll` and `read` return: nothing in 100 ms, an error of `read`, or a whole event.
pub data Polled : Type 0 where
  idle read_error : Polled
  event : InputEvent → Polled

pub record Round : Type 0 where
  pub others : Sensor → Sensor
  pub polled : Polled

-- One call of a function of the table.
pub record Delivery : Type 0 where
  pub function : ℕ
  pub data_sent : SensorAxis

-- The branch for EV_ABS.
unfoldable pub store_axis : (ℤ → ℕ) → Sensor → SensorAxis → Axis → ℤ → Sensor × SensorAxis
store_axis scale sensor accdata abs_x value = (
  record sensor { sensor_data_x = value; axis_x_init = true },
  record accdata { x = scale value },
)
store_axis scale sensor accdata abs_y value = (
  record sensor { sensor_data_y = value; axis_y_init = true },
  record accdata { y = scale value },
)
store_axis scale sensor accdata abs_z value = (
  record sensor { sensor_data_z = value; axis_z_init = true },
  record accdata { z = scale value },
)
store_axis scale sensor accdata other_axis value = (sensor, accdata)

-- `get_gsensor_data`: the last raw values.
unfoldable pub get_gsensor_data : Sensor → ℤ × ℤ × ℤ
get_gsensor_data sensor = (sensor.sensor_data_x, sensor.sensor_data_y, sensor.sensor_data_z)

-- The loop over the table; it ends as soon as `send_count` is `gsfun_count`.
unfoldable pub send_all : ℕ → SensorAxis → List SendData → ℕ → List Delivery
send_all gsfun_count accdata [] send_count = []
send_all gsfun_count accdata (d ∷ ds) send_count = elim d.send [
  | none ↦ elim (gsfun_count == send_count) [
    | true ↦ []
    | false ↦ send_all gsfun_count accdata ds send_count
  ]
  | some f ↦ elim (d.num == 0) [
    | true ↦ elim (gsfun_count == send_count) [
      | true ↦ []
      | false ↦ send_all gsfun_count accdata ds send_count
    ]
    | false ↦ record { function = f; data_sent = accdata } ∷ elim (gsfun_count == send_count + 1) [
      | true ↦ []
      | false ↦ send_all gsfun_count accdata ds (send_count + 1)
    ]
  ]
]

-- `gsfun_count <= 0` on a signed word sends nothing.
unfoldable pub send_sample : Sensor → SensorAxis → List Delivery
send_sample sensor accdata =
    if sensor.gsfun_count == 0 || leb (2 ^ 31) sensor.gsfun_count
    then []
    else send_all sensor.gsfun_count accdata sensor.senddata 0

-- What a call of `gsensor_readevent` leaves: its return value (`none` for a negative one), the two
-- states, the calls it made, and the rounds that are left.
pub record ReadResult : Type 0 where
  pub ret : Option ℕ
  pub after : Sensor
  pub accdata : SensorAxis
  pub sent : List Delivery
  pub rest : List Round

-- The first test of the loop, and the test of EV_SYN.
unfoldable pub is_stopped : Sensor → Bool
is_stopped sensor = sensor.gsrelease_state || not sensor.gstate

unfoldable pub has_axes : Sensor → Bool
has_axes sensor = sensor.axis_x_init && sensor.axis_y_init && sensor.axis_z_init

-- `count` is the number of samples that are still waited for; the result is `none` for a call that
-- has not returned when the rounds end.
unfoldable pub gsensor_readevent :
    (ℤ → ℕ) → List Round → Sensor → SensorAxis → ℕ → Option ReadResult
gsensor_readevent scale rounds sensor accdata zero =
    some record { ret = some 0; after = sensor; accdata = accdata; sent = []; rest = rounds }
gsensor_readevent scale [] sensor accdata (suc count) = none
gsensor_readevent scale (r ∷ rounds) sensor accdata (suc count) =
    let s = r.others sensor in
    elim (is_stopped s) [
      | true ↦ some record { ret = none; after = s; accdata = accdata; sent = []; rest = rounds }
      | false ↦ elim r.polled [
        | idle ↦ gsensor_readevent scale rounds s accdata (suc count)
        | read_error ↦
            some record { ret = none; after = s; accdata = accdata; sent = []; rest = rounds }
        | event e ↦ elim e [
          | ev_abs axis value ↦
              gsensor_readevent scale rounds (store_axis scale s accdata axis value).0
                (store_axis scale s accdata axis value).1 (suc count)
          | ev_unknown ↦ gsensor_readevent scale rounds s accdata (suc count)
          | ev_syn ↦ elim (has_axes s) [
            | false ↦ gsensor_readevent scale rounds s accdata (suc count)
            | true ↦ elim (count == 0) [
              | true ↦ some record {
                ret = some 1;
                after = s;
                accdata = accdata;
                sent = send_sample s accdata;
                rest = rounds;
              }
              | false ↦ gsensor_readevent scale rounds s accdata count
            ]
          ]
        ]
      ]
    ]

-- The loop of `gsensor_thread` between two rounds of it: its locals, the state, the calls made and
-- the rounds of `gsensor_readevent` to come.
pub record Loop : Type 0 where
  pub sensor : Sensor
  pub init_sensor_data : Bool
  pub new_gs_data : SensorAxis
  pub calls : List Delivery
  pub rounds : List Round

-- The second read of a round.
unfoldable pub read_next : (ℤ → ℕ) → Loop → Option Loop
read_next scale l = elim (gsensor_readevent scale l.rounds l.sensor l.new_gs_data 1) [
  | none ↦ none
  | some r ↦ some record l {
    sensor = r.after;
    new_gs_data = r.accdata;
    calls = l.calls ++ r.sent;
    rounds = r.rest;
  }
]

-- The loop with what the first read left.
unfoldable pub first_read : Loop → ReadResult → Loop
first_read l r = record l {
  sensor = record r.after { gsdata = r.accdata };
  calls = l.calls ++ r.sent;
  rounds = r.rest;
}

-- Behind the first read: `continue` when it failed.
unfoldable pub go_on : (ℤ → ℕ) → Loop → ReadResult → Option ℕ → Option Loop
go_on scale l r none = some (first_read l r)
go_on scale l r (some ret) =
    read_next scale (record (first_read l r) { init_sensor_data = true; new_gs_data = r.accdata })

-- A round of the loop: the first sample is read into `sensor.gsdata`, then the next into the local.
unfoldable pub thread_round : (ℤ → ℕ) → Loop → Option Loop
thread_round scale l = elim l.init_sensor_data [
  | true ↦ read_next scale l
  | false ↦ elim (gsensor_readevent scale l.rounds l.sensor l.sensor.gsdata 1) [
    | none ↦ none
    | some r ↦ go_on scale l r r.ret
  ]
]

-- `while (!sensor.gsrelease_state)`, on fuel: `none` where a call has not returned.
unfoldable pub thread_loop : ℕ → (ℤ → ℕ) → Loop → Option Loop
thread_loop zero scale l = none
thread_loop (suc fuel) scale l = elim l.sensor.gsrelease_state [
  | true ↦ some l
  | false ↦ elim (thread_round scale l) [ none ↦ none | some l' ↦ thread_loop fuel scale l' ]
]

-- PTHREAD_EXIT.
unfoldable pub thread_exit : Sensor → Sensor
thread_exit sensor = record sensor { gsrelease_state = false; gsthread_state = false }

abbrev pub zero_axis : SensorAxis
zero_axis = record { x = 0; y = 0; z = 0 }

-- The state at the end of the thread, and the calls it made.
unfoldable pub gsensor_thread :
    ℕ → (ℤ → ℕ) → Option ℕ → List Round → Sensor → Option (Sensor × List Delivery)
gsensor_thread fuel scale ioctl rounds sensor =
    let (ret, s) = gsensor_enable ioctl sensor true in
    elim ret [
      | none ↦ some (thread_exit s, [])
      | some r ↦
          elim (thread_loop fuel scale (record {
            sensor = s;
            init_sensor_data = false;
            new_gs_data = zero_axis;
            calls = [];
            rounds = rounds;
          })) [ none ↦ none | some l ↦ some (thread_exit l.sensor, l.calls) ]
    ]
