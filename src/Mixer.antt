-- ===== src/Mixer.antt =====
-- app/lzUtils/alsa_ctrl/mixer_ctrl.c and mixer_ctrl.h: the volume and the channel of a sound card. The
-- mixer of ALSA is a parameter: its two volumes, and the three calls that set them, which fail
-- without a result. Each function holds the mutex from its start to its end.
pub mod Volume
pub mod Channels
mod Tests
use package_compile_sys.Common.{
  ℕ, zero, suc, ◌/◌, Option, none, some, Bool, true, false, not, ◌&&◌, if◌then◌else◌, ◌==◌, ltb,
  ◌+◌, ◌-◌, ◌%◌, ◌^◌, ◌≡◌,
}
use package_compile_sys.Common.Int.{ℤ, pos, negsuc, ◌+ℤ◌, eqb_ℤ, pos_part, neg_part}

-- `snd_mixer_selem_get_playback_volume` and `snd_mixer_selem_set_playback_volume` of the front left and
-- right channels, and `snd_mixer_selem_set_playback_volume_all`.
pub record Alsa (C : Type 0) : Type 0 where
  pub get_left : C → ℤ
  pub get_right : C → ℤ
  pub set_left : C → ℤ → Option C
  pub set_right : C → ℤ → Option C
  pub set_all : C → ℤ → Option C

-- What ALSA documents of them: a channel that was set has the volume, and the other one keeps its own.
pub record IsAlsa {C : Type 0} (a : Alsa C) : Type 0 where
  pub left_set : (c d : C) (v : ℤ) → a.set_left c v ≡ some d → a.get_left d ≡ v
  pub left_kept : (c d : C) (v : ℤ) → a.set_left c v ≡ some d → a.get_right d ≡ a.get_right c
  pub right_set : (c d : C) (v : ℤ) → a.set_right c v ≡ some d → a.get_right d ≡ v
  pub right_kept : (c d : C) (v : ℤ) → a.set_right c v ≡ some d → a.get_left d ≡ a.get_left c
  pub all_left : (c d : C) (v : ℤ) → a.set_all c v ≡ some d → a.get_left d ≡ v
  pub all_right : (c d : C) (v : ℤ) → a.set_all c v ≡ some d → a.get_right d ≡ v

-- `mixer_channel_t`, in a `size_t` that can hold other numbers too.
pub data Channel : Type 0 where
  channel_all channel_left channel_right : Channel
  channel_unknown : ℕ → Channel

-- `mixer_ctrl_t`, with `volMin` of its parameters.
pub record MixerCtrl : Type 0 where
  pub vol_min : ℤ
  pub m_channel : Channel
  pub m_volume : ℤ

-- `>> 1` of a signed number rounds down.
unfoldable pub half : ℤ → ℤ
half (pos n) = pos (n / 2)
half (negsuc n) = negsuc (n / 2)

-- A sum in a `long` of 32 bits, which wraps around on the target; C leaves an overflow undefined, and the
-- theorems that use the sum ask for volumes whose sum fits.
unfoldable pub wrap_long : ℤ → ℤ
wrap_long a =
    let bits = (pos_part a + 2 ^ 32 - neg_part a % 2 ^ 32) % 2 ^ 32 in
    if ltb bits (2 ^ 31) then pos bits else negsuc (2 ^ 32 - bits - 1)

module _ {C : Type 0} (alsa : Alsa C) where
  -- `_mixer_ctrl_sync`.
  unfoldable pub mixer_ctrl_sync : C → MixerCtrl → MixerCtrl
  mixer_ctrl_sync card ptr =
      let left = alsa.get_left card in
      let right = alsa.get_right card in
      if not (eqb_ℤ left ptr.vol_min) && not (eqb_ℤ right ptr.vol_min)
      then record ptr { m_channel = channel_all; m_volume = half (wrap_long (left +ℤ right)) }
      else if not (eqb_ℤ left ptr.vol_min)
      then record ptr { m_channel = channel_left; m_volume = left }
      else record ptr { m_channel = channel_right; m_volume = right }

  unfoldable pub mixer_ctrl_get_vol : C → MixerCtrl → ℤ × MixerCtrl
  mixer_ctrl_get_vol card ptr = let ptr' = mixer_ctrl_sync card ptr in (ptr'.m_volume, ptr')

  unfoldable pub mixer_ctrl_get_channel : C → MixerCtrl → Channel × MixerCtrl
  mixer_ctrl_get_channel card ptr = let ptr' = mixer_ctrl_sync card ptr in (ptr'.m_channel, ptr')

  -- The result of a call that sets a volume: the card, and whether 0 or -1 is returned.
  unfoldable pub set_result : C → Option C → Bool × C
  set_result card none = (false, card)
  set_result card (some card') = (true, card')

  -- `_mixer_ctrl_setVol` behind its test: the volume is set on the channel.
  unfoldable pub set_channel_vol : C → Channel → ℤ → Bool × C
  set_channel_vol card channel_all vol = set_result card (alsa.set_all card vol)
  set_channel_vol card channel_left vol = set_result card (alsa.set_left card vol)
  set_channel_vol card channel_right vol = set_result card (alsa.set_right card vol)
  set_channel_vol card (channel_unknown n) vol = (false, card)

  unfoldable pub mixer_ctrl_set_vol : C → MixerCtrl → ℤ → Bool × C × MixerCtrl
  mixer_ctrl_set_vol card ptr vol =
      let ptr' = mixer_ctrl_sync card ptr in
      if eqb_ℤ ptr'.m_volume vol
      then (true, card, ptr')
      else let (done, card') = set_channel_vol card ptr'.m_channel vol in
        (done, card', record ptr' { m_volume = vol })

  -- `_mixer_ctrl_setChannel`: the other channel is turned down first; a failure there is the end.
  unfoldable pub switch_channel : C → MixerCtrl → Channel → Bool × C
  switch_channel card ptr channel_all = set_result card (alsa.set_all card ptr.m_volume)
  switch_channel card ptr channel_left = elim (alsa.set_right card ptr.vol_min) [
    | none ↦ (false, card)
    | some card' ↦ set_result card' (alsa.set_left card' ptr.m_volume)
  ]
  switch_channel card ptr channel_right = elim (alsa.set_left card ptr.vol_min) [
    | none ↦ (false, card)
    | some card' ↦ set_result card' (alsa.set_right card' ptr.m_volume)
  ]
  switch_channel card ptr (channel_unknown n) = (false, card)

  unfoldable pub mixer_ctrl_set_channel : C → MixerCtrl → Channel → Bool × C × MixerCtrl
  mixer_ctrl_set_channel card ptr channel =
      let (done, card') = switch_channel card ptr channel in
      (done, card', record ptr { m_channel = channel })

  -- `mixer_ctrl_create`: the flags tell which of `calloc` and the calls of ALSA succeeded, in their
  -- order, and `found` whether the element was found.
  unfoldable pub mixer_ctrl_create :
      Bool → Bool → Bool → Bool → Bool → Bool → ℤ → C → Option MixerCtrl
  mixer_ctrl_create called opened attached registered loaded found vol_min card =
      if called && opened && attached && registered && loaded && found
      then some (
          mixer_ctrl_sync card
            (record { vol_min = vol_min; m_channel = channel_all; m_volume = pos 0 }))
      else none

-- `_mixer_ctrl_destroy`: whether the handle is freed, by whether there is an open mixer and
-- `snd_mixer_close` of it succeeded.
unfoldable pub mixer_ctrl_destroy : Bool → Bool → Bool
mixer_ctrl_destroy hdl closed = if hdl then closed else true
