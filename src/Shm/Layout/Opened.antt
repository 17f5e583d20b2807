-- ===== src/Shm/Layout/Opened.antt =====
-- The channels of either type: what a successful ipc_shm_init_channels() has stored.
use ipc_shm.Common.{ℕ, ◌≤◌, ◌≡◌, refl, ap, ◌∙◌, arith, ◌||◌, ltb, some, ◌==◌, Bool-cases, inl, inr}
use ipc_shm.Types.{
  ok, UnmanagedCfg, ChannelCfg, ChannelType, managed, unmanaged, other, max_umng_size,
}
use ipc_shm.Memory.{null}
use ipc_shm.Shm.State
use ipc_shm.Shm.State.{
  World, Platform, ManagedChannel, UnmanagedChannel, Channel, channel, put_channel, put_mem,
  put_mng, put_umng,
}
use ipc_shm.Shm.Setup.{unmanaged_channel_init, init_typed, init_channel}
use ipc_shm.Shm.Layout.{ChannelAt, OnlyChannel}
use ipc_shm.Shm.Layout.Pools.{channel_self, channel_other, limit_of}
use ipc_shm.Shm.Layout.Channels.{limit_put, managed_channel_init-Managed}

module _ {S : Type 0} (P : Platform S) where
  unmanaged_channel_init-stored :
      (w : World S) (i c local_shm remote_shm : ℕ) (cfg : UnmanagedCfg)
      → (unmanaged_channel_init w i c local_shm remote_shm cfg).0 ≡ ok
      → let u : UnmanagedChannel = record {
        size = cfg.size;
        local_mem = local_shm;
        remote_mem = remote_shm;
        rx_cb = cfg.rx_cb;
        cb_arg = cfg.cb_arg;
      } in
        (cfg.size ≤ max_umng_size)
        × ((unmanaged_channel_init w i c local_shm remote_shm cfg).1.priv ≡ (put_umng w i c u).priv)
  unfolding unmanaged_channel_init
  unmanaged_channel_init-stored w i c local_shm remote_shm cfg good =
      elim (Bool-cases ((cfg.rx_cb == null) || ltb max_umng_size cfg.size)) [
        | inl e ↦ absurd (cc (rw (unmanaged_channel_init, e) at good))
        | inr e ↦
            elim (Bool-cases ((w.mem.umems remote_shm).sentinel == State.uchan_init_in_progress)) [
              | inl busy ↦ absurd (cc (rw (unmanaged_channel_init, e, busy) at good))
              | inr free ↦ (ground (arith, e), rw (unmanaged_channel_init, e, free) refl)
            ]
      ]

  -- What a successful ipc_shm_init_channels() has done.
  pub record Opened (w : World S) (i c local_shm remote_shm : ℕ) (cfg : ChannelCfg) (w' : World S)
      : Type 0 where
    pub place : ChannelAt cfg local_shm remote_shm (limit_of P w i) (channel w' i c)
    pub only : OnlyChannel i c w w'

  typed-Opened :
      (type : ChannelType) (w : World S) (i c local_shm remote_shm : ℕ) (cfg : ChannelCfg)
      → (channel w i c).type ≡ type
      → (init_typed P type w i c local_shm remote_shm cfg).0 ≡ ok
      → Opened w i c local_shm remote_shm cfg (init_typed P type w i c local_shm remote_shm cfg).1
  unfolding init_typed
  typed-Opened managed w i c local_shm remote_shm cfg type good =
      let u = managed_channel_init-Managed P w i c local_shm remote_shm cfg.managed_cfg good in
      record { place = inl (u.type ∙ type, u.mng); only = u.only }
  typed-Opened unmanaged w i c local_shm remote_shm cfg type good =
      let u = unmanaged_channel_init-stored w i c local_shm remote_shm cfg.unmanaged_cfg good in
      let ch : Channel = record (channel w i c) {
        umng = record {
          size = cfg.unmanaged_cfg.size;
          local_mem = local_shm;
          remote_mem = remote_shm;
          rx_cb = cfg.unmanaged_cfg.rx_cb;
          cb_arg = cfg.unmanaged_cfg.cb_arg;
        };
      } in
      let there = ap (λ f. (f i).channels c) u.1 ∙ channel_self w i c ch in
      record {
        place = inr (
          ap (λ x. x.type) there ∙ type,
          record {
            place = ap (λ x. x.umng.local_mem) there;
            size = ap (λ x. x.umng.size) there;
            few = u.0;
          },
        );
        only = λ d ne. ap (λ f. (f i).channels d) u.1 ∙ channel_other w i c ch d ne;
      }
  typed-Opened (other n) w i c local_shm remote_shm cfg type good = absurd (cc good)

  pub init_channel-Opened :
      (w : World S) (i c local_shm remote_shm : ℕ) (cfg : ChannelCfg)
      → (init_channel P w i c local_shm remote_shm (some cfg)).0 ≡ ok
      → Opened w i c local_shm remote_shm cfg
          (init_channel P w i c local_shm remote_shm (some cfg)).1
  unfolding init_channel
  init_channel-Opened w i c local_shm remote_shm cfg good =
      let ch : Channel = record (channel w i c) { id = c; type = cfg.type } in
      let u =
        typed-Opened cfg.type (put_channel w i c ch) i c local_shm remote_shm cfg
          (ap (λ x. x.type) (channel_self w i c ch)) good in
      record {
        place = rw (limit_put P w i c ch) at u.place;
        only = λ d ne. u.only d ne ∙ channel_other w i c ch d ne;
      }
