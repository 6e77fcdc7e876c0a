-- ===== src/Mixer/Tests.antt =====
-- A mixer of two volumes whose calls succeed, and the theorems at it.
use package_compile_sys.Common.{ℕ, ◌+◌, ◌≡◌, ◌≢◌, refl, ap, sym, none, some, true, arith}
use package_compile_sys.Common.Int.{ℤ, pos, pos_part}
use package_compile_sys.Mixer.{
  Alsa, IsAlsa, Channel, channel_all, channel_left, channel_right, MixerCtrl, mixer_ctrl_sync,
  mixer_ctrl_get_vol, mixer_ctrl_get_channel, set_result, set_channel_vol, mixer_ctrl_set_vol,
  switch_channel, mixer_ctrl_set_channel,
}
use package_compile_sys.Mixer.Volume.{get_vol-set_vol}
use package_compile_sys.Mixer.Channels.{get_channel-set_channel, lowest_volume_switches}

abbrev Volumes : Type 0
Volumes = ℤ × ℤ

abbrev mixer : Alsa Volumes
mixer = record {
  get_left = λ c. c.0;
  get_right = λ c. c.1;
  set_left = λ c v. some (v, c.1);
  set_right = λ c v. some (c.0, v);
  set_all = λ c v. some (v, v);
}

some_eq : (c d : Volumes) → some c ≡ some d → d ≡ c
some_eq c d e = ap (λ o. elim o as (λ _. Volumes) [ none ↦ c | some x ↦ x ]) (sym e)

left_of : (c d : Volumes) → some c ≡ some d → d.0 ≡ c.0
left_of c d e = ap (λ (x : Volumes). x.0) (some_eq c d e)

right_of : (c d : Volumes) → some c ≡ some d → d.1 ≡ c.1
right_of c d e = ap (λ (x : Volumes). x.1) (some_eq c d e)

mixer-IsAlsa : IsAlsa mixer
mixer-IsAlsa = record {
  left_set = λ c d v e. left_of (v, c.1) d e;
  left_kept = λ c d v e. right_of (v, c.1) d e;
  right_set = λ c d v e. right_of (c.0, v) d e;
  right_kept = λ c d v e. left_of (c.0, v) d e;
  all_left = λ c d v e. left_of (v, v) d e;
  all_right = λ c d v e. right_of (v, v) d e;
}

abbrev handle : Channel → ℤ → MixerCtrl
handle channel volume = record { vol_min = pos 0; m_channel = channel; m_volume = volume }

not_lowest : (n : ℕ) → pos (1 + n) ≢ pos 0
not_lowest n e = omega (arith, ap pos_part e)

louder :
    mixer_ctrl_set_vol mixer (pos 20, pos 0) (handle channel_all (pos 5)) (pos 30)
    ≡ (true, (pos 30, pos 0), handle channel_left (pos 30))
unfolding mixer_ctrl_set_vol mixer_ctrl_sync set_channel_vol set_result
louder = refl

get_vol-set_vol_example :
    ((mixer_ctrl_get_vol mixer (pos 30, pos 0) (handle channel_left (pos 30))).0 ≡ pos 30)
    × ((mixer_ctrl_get_channel mixer (pos 30, pos 0) (handle channel_left (pos 30))).0
        ≡ (mixer_ctrl_get_channel mixer (pos 20, pos 0) (handle channel_all (pos 5))).0)
get_vol-set_vol_example =
    get_vol-set_vol mixer (pos 20, pos 0) (pos 30, pos 0) (handle channel_all (pos 5))
      (handle channel_left (pos 30)) (pos 30) mixer-IsAlsa (not_lowest 29)
      (omega arith, omega arith) louder

switched :
    mixer_ctrl_set_channel mixer (pos 20, pos 20) (handle channel_all (pos 20)) channel_right
    ≡ (true, (pos 0, pos 20), handle channel_right (pos 20))
unfolding mixer_ctrl_set_channel switch_channel set_result
switched = refl

get_channel-set_channel_example :
    ((mixer_ctrl_get_channel mixer (pos 0, pos 20) (handle channel_right (pos 20))).0
      ≡ channel_right)
    × ((mixer_ctrl_get_vol mixer (pos 0, pos 20) (handle channel_right (pos 20))).0 ≡ pos 20)
get_channel-set_channel_example =
    get_channel-set_channel mixer (pos 20, pos 20) (pos 0, pos 20) (handle channel_all (pos 20))
      (handle channel_right (pos 20)) channel_right mixer-IsAlsa (not_lowest 19)
      (omega arith, omega arith) switched

lowered :
    mixer_ctrl_set_vol mixer (pos 20, pos 0) (handle channel_left (pos 20)) (pos 0)
    ≡ (true, (pos 0, pos 0), handle channel_left (pos 0))
unfolding mixer_ctrl_set_vol mixer_ctrl_sync set_channel_vol set_result
lowered = refl

raised :
    mixer_ctrl_set_vol mixer (pos 0, pos 0) (handle channel_left (pos 0)) (pos 9)
    ≡ (true, (pos 0, pos 9), handle channel_right (pos 9))
unfolding mixer_ctrl_set_vol mixer_ctrl_sync set_channel_vol set_result
raised = refl

lowest_volume_switches_example :
    ((mixer_ctrl_get_channel mixer (pos 20, pos 0) (handle channel_left (pos 20))).0 ≡ channel_left)
    × ((mixer_ctrl_get_channel mixer (pos 0, pos 0) (handle channel_left (pos 0))).0
        ≡ channel_right)
    × (pos 0 ≡ pos 0)
    × (pos 9 ≡ pos 9)
lowest_volume_switches_example =
    lowest_volume_switches mixer (pos 20, pos 0) (pos 0, pos 0) (pos 0, pos 9)
      (handle channel_left (pos 20)) (handle channel_left (pos 0)) (handle channel_right (pos 9))
      (pos 9) mixer-IsAlsa (not_lowest 19) refl lowered (not_lowest 8) raised
