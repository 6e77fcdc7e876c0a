-- ===== src/Gsensor/Sample.antt =====
-- The same file, what `gsensor_readevent` makes of the events of the input device up to EV_SYN, while no
-- other thread works.
use package_compile_sys.Common.{
  ℕ, ◌≡◌, refl, ◌∙◌, inl, inr, List, [], ◌∷◌, some, Bool, true, false, if◌then◌else◌, ◌&&◌,
  Bool-cases,
}
use package_compile_sys.Common.Int.{ℤ}
use package_compile_sys.Gsensor.{SensorAxis, Sensor}
use package_compile_sys.Gsensor.Events.{
  Axis, abs_x, abs_y, abs_z, other_axis, ev_abs, ev_syn, event, Round, store_axis, is_stopped,
  has_axes, gsensor_readevent,
}
use package_compile_sys.Gsensor.Registry.{registered, IsRegistry, same_table}
use package_compile_sys.Gsensor.Send.{to_each, send_sample_lem}

-- The quiet rounds of `gsensor_readevent`: no other thread works, and an axis is read.
abbrev pub quiet : Axis × ℤ → Round
quiet (axis, value) = record { others = λ s. s; polled = event (ev_abs axis value) }

abbrev pub quiet_syn : Round
quiet_syn = record { others = λ s. s; polled = event ev_syn }

abbrev pub rounds_of : List (Axis × ℤ) → List Round → List Round
rounds_of [] rest = quiet_syn ∷ rest
rounds_of (e ∷ es) rest = quiet e ∷ rounds_of es rest

-- What the values of the axes make of the state and the sample, one after the other.
unfoldable pub gathered : (ℤ → ℕ) → Sensor → SensorAxis → List (Axis × ℤ) → Sensor × SensorAxis
gathered scale s acc [] = (s, acc)
gathered scale s acc ((axis, value) ∷ es) =
    gathered scale (store_axis scale s acc axis value).0 (store_axis scale s acc axis value).1 es

store_axis-is_stopped :
    (scale : ℤ → ℕ) (s : Sensor) (acc : SensorAxis) (axis : Axis) (value : ℤ)
    → is_stopped (store_axis scale s acc axis value).0 ≡ is_stopped s
unfolding store_axis is_stopped
store_axis-is_stopped scale s acc abs_x value = refl
store_axis-is_stopped scale s acc abs_y value = refl
store_axis-is_stopped scale s acc abs_z value = refl
store_axis-is_stopped scale s acc other_axis value = refl

readevent-gathered :
    (scale : ℤ → ℕ) (s : Sensor) (acc : SensorAxis) (es : List (Axis × ℤ)) (rest : List Round)
    → is_stopped s ≡ false
    → gsensor_readevent scale (rounds_of es rest) s acc 1
      ≡ gsensor_readevent scale
          (quiet_syn ∷ rest)
          (gathered scale s acc es).0
          (gathered scale s acc es).1
          1
unfolding gsensor_readevent gathered store_axis
readevent-gathered scale s acc [] rest h = refl
readevent-gathered scale s acc ((axis, value) ∷ es) rest h =
    rw (gsensor_readevent, h)
      (readevent-gathered scale _ _ es rest (store_axis-is_stopped scale s acc axis value ∙ h))

unfoldable pub same_axis : Axis → Axis → Bool
same_axis abs_x abs_x = true
same_axis abs_y abs_y = true
same_axis abs_z abs_z = true
same_axis _ _ = false

-- The float of the last event of an axis, and whether the axis was ever read.
unfoldable pub latest : (ℤ → ℕ) → Axis → ℕ → List (Axis × ℤ) → ℕ
latest scale a old [] = old
latest scale a old ((b, value) ∷ es) =
    latest scale a (if same_axis a b then scale value else old) es

unfoldable pub seen : Axis → Bool → List (Axis × ℤ) → Bool
seen a before [] = before
seen a before ((b, value) ∷ es) = seen a (if same_axis a b then true else before) es

abbrev pub sample : (ℤ → ℕ) → SensorAxis → List (Axis × ℤ) → SensorAxis
sample scale acc es = record {
  x = latest scale abs_x acc.x es;
  y = latest scale abs_y acc.y es;
  z = latest scale abs_z acc.z es;
}

gathered-sample :
    (scale : ℤ → ℕ) (s : Sensor) (acc : SensorAxis) (es : List (Axis × ℤ))
    → (gathered scale s acc es).1 ≡ sample scale acc es
unfolding gathered latest store_axis same_axis
gathered-sample scale s acc [] = refl
gathered-sample scale s acc ((abs_x, value) ∷ es) = gathered-sample scale _ _ es
gathered-sample scale s acc ((abs_y, value) ∷ es) = gathered-sample scale _ _ es
gathered-sample scale s acc ((abs_z, value) ∷ es) = gathered-sample scale _ _ es
gathered-sample scale s acc ((other_axis, value) ∷ es) = gathered-sample scale _ _ es

gathered-seen :
    (scale : ℤ → ℕ) (s : Sensor) (acc : SensorAxis) (es : List (Axis × ℤ))
    → has_axes (gathered scale s acc es).0
      ≡ (seen abs_x s.axis_x_init es && seen abs_y s.axis_y_init es && seen abs_z s.axis_z_init es)
unfolding gathered seen store_axis same_axis has_axes
gathered-seen scale s acc [] = refl
gathered-seen scale s acc ((abs_x, value) ∷ es) = gathered-seen scale _ _ es
gathered-seen scale s acc ((abs_y, value) ∷ es) = gathered-seen scale _ _ es
gathered-seen scale s acc ((abs_z, value) ∷ es) = gathered-seen scale _ _ es
gathered-seen scale s acc ((other_axis, value) ∷ es) = gathered-seen scale _ _ es

-- The events change nothing that the table or the thread goes by.
gathered-keeps :
    (scale : ℤ → ℕ) (s : Sensor) (acc : SensorAxis) (es : List (Axis × ℤ))
    → (is_stopped (gathered scale s acc es).0 ≡ is_stopped s)
      × ((gathered scale s acc es).0.senddata ≡ s.senddata)
      × ((gathered scale s acc es).0.gsfun_count ≡ s.gsfun_count)
unfolding gathered store_axis is_stopped
gathered-keeps scale s acc [] = (refl, refl, refl)
gathered-keeps scale s acc ((abs_x, value) ∷ es) = gathered-keeps scale _ _ es
gathered-keeps scale s acc ((abs_y, value) ∷ es) = gathered-keeps scale _ _ es
gathered-keeps scale s acc ((abs_z, value) ∷ es) = gathered-keeps scale _ _ es
gathered-keeps scale s acc ((other_axis, value) ∷ es) = gathered-keeps scale _ _ es

readevent-syn :
    (scale : ℤ → ℕ) (s : Sensor) (acc : SensorAxis) (rest : List Round)
    → IsRegistry s
    → is_stopped s ≡ false
    → gsensor_readevent scale (quiet_syn ∷ rest) s acc 1 ≡ (
        if has_axes s
        then some record {
          ret = some 1;
          after = s;
          accdata = acc;
          sent = to_each acc (registered s.senddata);
          rest = rest;
        }
        else gsensor_readevent scale rest s acc 1)
unfolding gsensor_readevent
readevent-syn scale s acc rest r h =
    rw (gsensor_readevent, h)
      (elim (Bool-cases (has_axes s)) [
        | inl a ↦ rw (a, send_sample_lem s acc r) refl
        | inr a ↦ rw a refl
      ])

-- With the sensor enabled, not told to stop and its table in order, values of axes and then EV_SYN
-- make `gsensor_readevent` return 1, once each of the three axes was read at least once, and call
-- every registered function once with the latest float of each axis. As long as an axis is missing
-- it reads on with these floats instead.
pub gsensor_readevent_lem :
    (scale : ℤ → ℕ) (s : Sensor) (acc : SensorAxis) (es : List (Axis × ℤ)) (rest : List Round)
    → IsRegistry s
    → is_stopped s ≡ false
    → gsensor_readevent scale (rounds_of es rest) s acc 1 ≡ (
        if seen abs_x s.axis_x_init es && seen abs_y s.axis_y_init es && seen abs_z s.axis_z_init es
        then some record {
          ret = some 1;
          after = (gathered scale s acc es).0;
          accdata = sample scale acc es;
          sent = to_each (sample scale acc es) (registered s.senddata);
          rest = rest;
        }
        else gsensor_readevent scale rest (gathered scale s acc es).0 (sample scale acc es) 1)
gsensor_readevent_lem scale s acc es rest r h =
    let k = gathered-keeps scale s acc es in
    let r' = same_table k.1 k.2 r in
    readevent-gathered scale s acc es rest h
    ∙ rw
        (
          readevent-syn scale (gathered scale s acc es).0 (gathered scale s acc es).1 rest r'
              (k.0 ∙ h),
          gathered-seen scale s acc es,
          gathered-sample scale s acc es,
          k.1,
        )
        refl
