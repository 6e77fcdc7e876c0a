-- ===== src/Gsensor/Device.antt =====
-- The same file, the devices: `gsensor_init`, `gsensor_release`, `gsensor_use_interrupt`, the reads and
-- writes of registers, and the signal handler. The calls of the system in the order they are made
-- are part of the result.
use package_compile_sys.Common.{
  ℕ, List, [], ◌∷◌, ◌++◌, Option, none, some, Bool, true, false, if◌then◌else◌, ◌==◌, replicate,
}
use package_compile_sys.Common.Int.{ℤ, pos, negsuc}
use package_compile_sys.Gsensor.{Sensor, free_data, gsensor_fun_num, gsensor_create_thread}
use package_compile_sys.Gsensor.Events.{zero_axis}

-- A request of the driver: its two interrupts with their status, its registers with the address.
pub data Request : Type 0 where
  use_int1 use_int2 reg_r reg_w : ℕ → Request

-- The request that `gsensor_use_interrupt` hands to `ioctl`, whose result it returns, or `none`
-- where it returns -1 without it. GSENSOR_INT_START is 1, GSENSOR_INT1 is 1, GSENSOR_INT2 is 2.
unfoldable pub gsensor_use_interrupt : Sensor → ℕ → ℕ → Option Request
gsensor_use_interrupt sensor intr_num intr_st = elim sensor.gsfd [
  | none ↦ none
  | some fd ↦
      if intr_num == 1
      then (if intr_st == 1 then some (use_int1 intr_st) else some (use_int1 0))
      else if intr_num == 2
      then (if intr_st == 1 then some (use_int2 intr_st) else some (use_int2 0))
      else none
]

-- An entry of the directory: its name, what `open` of it returns, and the name the driver gives.
pub record Entry : Type 0 where
  pub d_name : List ℕ
  pub opened : Option ℕ
  pub name : List ℕ

pub data Call : Type 0 where
  close_fd : ℕ → Call
  ioctl_name : ℕ → Call

-- `strcmp` on names as lists of bytes.
unfoldable pub same_name : List ℕ → List ℕ → Bool
same_name [] [] = true
same_name [] (y ∷ ys) = false
same_name (x ∷ xs) [] = false
same_name (x ∷ xs) (y ∷ ys) = if x == y then same_name xs ys else false

-- The entries "." and "..", where '.' is 46.
unfoldable pub is_dot : List ℕ → Bool
is_dot d_name = if same_name d_name (46 ∷ []) then true else same_name d_name (46 ∷ 46 ∷ [])

-- The loop of `open_input`: each device is opened, asked for its name, and closed again unless it is
-- the one wanted.
unfoldable pub find_input : List ℕ → List Entry → List Call → Option ℕ × List Call
find_input inputname [] calls = (none, calls)
find_input inputname (de ∷ rest) calls = elim (is_dot de.d_name) [
  | true ↦ find_input inputname rest calls
  | false ↦ elim de.opened [
    | none ↦ find_input inputname rest calls
    | some fd ↦ elim (same_name de.name inputname) [
      | true ↦ (some fd, calls ++ (ioctl_name fd ∷ []))
      | false ↦ find_input inputname rest (calls ++ (ioctl_name fd ∷ close_fd fd ∷ []))
    ]
  ]
]

-- `dir` is `none` where `opendir` fails.
unfoldable pub open_input : Option (List Entry) → List ℕ → Option ℕ × List Call
open_input none inputname = (none, [])
open_input (some entries) inputname = find_input inputname entries []

-- "gsensor".
abbrev pub gsensor_name : List ℕ
gsensor_name = 103 ∷ 115 ∷ 101 ∷ 110 ∷ 115 ∷ 111 ∷ 114 ∷ []

-- `memset` of `sensor`, and the two descriptors. The table and the last raw values are other
-- statics.
unfoldable pub cleared : Sensor → Sensor
cleared sensor = record sensor {
  gsfd = none;
  gsinput = none;
  gsthread_state = false;
  gstate = false;
  gsrelease_state = false;
  axis_x_init = false;
  axis_y_init = false;
  axis_z_init = false;
  gsfun_count = 0;
  gsdata = zero_axis;
}

-- The end of `gsensor_init`: the levels that it asks for are both the constant 1, so that the thread
-- is always started.
unfoldable pub start_sensor : Bool → Sensor → Sensor
start_sensor created sensor =
    gsensor_create_thread created
      (record sensor { senddata = replicate gsensor_fun_num free_data; gsthread_state = true })

-- Behind `open_input`, with the device open at `fd`. Where the input device is missing, `gsfd` keeps
-- the descriptor that was closed.
unfoldable pub init_input : Bool → Sensor → ℕ → Option ℕ → List Call → Bool × (Sensor × List Call)
init_input created sensor fd none calls =
    (false, (record (cleared sensor) { gsfd = some fd }, calls ++ (close_fd fd ∷ [])))
init_input created sensor fd (some input) calls = (
  true,
  (start_sensor created (record (cleared sensor) { gsfd = some fd; gsinput = some input }), calls),
)

-- `gsdev` is what `open` of the sensor's device returns.
unfoldable pub gsensor_init :
    Option ℕ → Option (List Entry) → Bool → Sensor → Bool × (Sensor × List Call)
gsensor_init none dir created sensor = (false, (cleared sensor, []))
gsensor_init (some fd) dir created sensor =
    let (input, calls) = open_input dir gsensor_name in init_input created sensor fd input calls

unfoldable pub close_input : Sensor → List Call → Sensor × List Call
close_input sensor calls = elim sensor.gsinput [
  | none ↦ (sensor, calls)
  | some fd ↦ (record sensor { gsinput = none }, calls ++ (close_fd fd ∷ []))
]

unfoldable pub gsensor_release : Sensor → Sensor × List Call
gsensor_release sensor = elim sensor.gsfd [
  | none ↦ close_input sensor []
  | some fd ↦ close_input (record sensor { gsfd = none }) (close_fd fd ∷ [])
]

-- `I2C_GSensor_Read` and `I2C_GSensor_Write` hand the address to `ioctl`, and return 0 also where it
-- fails.
unfoldable pub i2c_gsensor_read : Sensor → ℕ → ℤ × Option Request
i2c_gsensor_read sensor addr = elim sensor.gsfd [
  | none ↦ (negsuc 0, none)
  | some fd ↦ (pos 0, some (reg_r addr))
]

unfoldable pub i2c_gsensor_write : Sensor → ℕ → ℤ × Option Request
i2c_gsensor_write sensor addr = elim sensor.gsfd [
  | none ↦ (negsuc 0, none)
  | some fd ↦ (pos 0, some (reg_w addr))
]
