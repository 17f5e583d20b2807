-- ===== src/Shm/Layout/Rows.antt =====
-- The channels of an instance: a successful ipc_shm_init_instance() has put them in a row.
use ipc_shm.Common.{
  ℕ, zero, suc, ◌+◌, ◌^◌, ◌≤◌, ◌<◌, ◌≡◌, refl, sym, ap, ◌∙◌, arith, ◌||◌, ltb, some, ◌==◌,
  Bool-cases, inl, inr,
}
use ipc_shm.Types.{ok, ChannelCfg, ShmCfg, max_channels}
use ipc_shm.Memory.{null, global_size, add_ptr}
use ipc_shm.Queue.{is_ok, is_ok-eq, not_ok}
use ipc_shm.Shm.State.{World, Platform, Channel, channel, put_plat}
use ipc_shm.Shm.Lookup.{instance_is_free, is_used}
use ipc_shm.Shm.Setup.{init_channel, get_chan_memmap_size}
use ipc_shm.Shm.Frame.Opening.{init_channel-Keeps}
use ipc_shm.Shm.Instance.{
  attached, opened, announce, init_channels, start_channels, start_platform, start_instance,
  init_instance,
}
use ipc_shm.Shm.Instance.Start.{opened-Keeps}
use ipc_shm.Shm.Layout.{ChannelRow}
use ipc_shm.Shm.Layout.Pools.{limit_of}
use ipc_shm.Shm.Layout.Opened.{Opened, init_channel-Opened}

no_channels :
    (cfgs : ℕ → ChannelCfg) (limit : ℕ) (channels : ℕ → Channel) (local_shm remote_shm c : ℕ)
    → ChannelRow cfgs limit channels local_shm remote_shm c zero
unfolding ChannelRow
no_channels cfgs limit channels local_shm remote_shm c = tt

module _ {S : Type 0} (P : Platform S) where
  -- The channels from `c` on stand in a row, and the earlier ones are as they were.
  abbrev Rowed : World S → ℕ → (ℕ → ChannelCfg) → (local_shm remote_shm c n : ℕ) → World S → Type 0
  Rowed w i cfgs local_shm remote_shm c n w' =
      ChannelRow cfgs (limit_of P w i) (w'.priv i).channels local_shm remote_shm c n
      × ((d : ℕ) → d < c → channel w' i d ≡ channel w i d)

  row_first :
      (w w₁ w₂ : World S) (i : ℕ) (cfgs : ℕ → ChannelCfg) (local_shm remote_shm c n : ℕ)
      → Opened P w i c local_shm remote_shm (cfgs c) w₁
      → limit_of P w₁ i ≡ limit_of P w i
      → let size = get_chan_memmap_size w₁ i c in
        Rowed w₁ i cfgs (add_ptr local_shm size) (add_ptr remote_shm size) (c + 1) n w₂
        → Rowed w i cfgs local_shm remote_shm c (suc n) w₂
  unfolding ChannelRow get_chan_memmap_size
  row_first w w₁ w₂ i cfgs local_shm remote_shm c n o same (row, kept) =
      let mine = kept c (omega arith) in
      let behind = rw same at row in
      (
        (rw mine o.place, rw mine behind),
        λ d lt. kept d (omega arith) ∙ o.only d (λ e. omega arith),
      )

  init_channels-ChannelRow :
      (w : World S) (i : ℕ) (cfgs : ℕ → ChannelCfg) (local_shm remote_shm c n : ℕ)
      → (init_channels P w i (some cfgs) local_shm remote_shm c n).0 ≡ ok
      → Rowed w i cfgs local_shm remote_shm c n
          (init_channels P w i (some cfgs) local_shm remote_shm c n).1
  unfolding init_channels
  init_channels-ChannelRow w i cfgs local_shm remote_shm c zero good =
      (no_channels _ _ _ _ _ _, λ d lt. refl)
  init_channels-ChannelRow w i cfgs local_shm remote_shm c (suc n) good =
      let r = init_channel P w i c local_shm remote_shm (some (cfgs c)) in
      let size = get_chan_memmap_size r.1 i c in
      elim (Bool-cases (is_ok r.0)) [
        | inr bad ↦ absurd (not_ok _ bad (rw (init_channels, bad) at good))
        | inl fine ↦
            let o = init_channel-Opened P w i c local_shm remote_shm (cfgs c) (is_ok-eq _ fine) in
            let same = init_channel-Keeps P w i c local_shm remote_shm (some (cfgs c)) in
            let w₂ =
              (init_channels P r.1 i (some cfgs) (add_ptr local_shm size) (add_ptr remote_shm size)
                (c + 1) n).1 in
            rw (init_channels, fine)
              (row_first w r.1 w₂ i cfgs local_shm remote_shm c n o
                (rw (same.plat, same.shm_size) refl)
                (init_channels-ChannelRow r.1 i cfgs (add_ptr local_shm size)
                  (add_ptr remote_shm size) (c + 1) n (rw (init_channels, fine) at good)))
      ]

  -- The channels of the instance stand behind the state word, within `size` bytes from it.
  pub record InRow (i : ℕ) (cfg : ShmCfg) (cfgs : ℕ → ChannelCfg) (base : ℕ) (w' : World S)
      : Type 0 where
    pub remote_shm : ℕ
    pub global : (w'.priv i).global ≡ base
    pub shm_size : (w'.priv i).shm_size ≡ cfg.shm_size
    pub num_channels : (w'.priv i).num_channels ≡ cfg.num_channels
    pub row :
        ChannelRow cfgs
          (add_ptr base cfg.shm_size)
          (w'.priv i).channels
          (add_ptr base global_size)
          remote_shm
          0
          cfg.num_channels

  start_channels-InRow :
      (w : World S) (i : ℕ) (cfg : ShmCfg) (cfgs : ℕ → ChannelCfg)
      → cfg.channels ≡ some cfgs
      → (w.priv i).shm_size ≡ cfg.shm_size
      → (w.priv i).num_channels ≡ cfg.num_channels
      → (start_channels P w i cfg).0 ≡ ok
      → InRow i cfg cfgs (P.os_get_local_shm w.plat i) (start_channels P w i cfg).1
  unfolding start_channels announce
  start_channels-InRow w i cfg cfgs some_channels size num good =
      let base = P.os_get_local_shm w.plat i in
      let k = opened-Keeps P w i cfg in
      let same =
        ap
          (λ x.
            init_channels P (attached P w i) i x (add_ptr base global_size)
              (add_ptr (P.os_get_remote_shm w.plat i) global_size) 0 cfg.num_channels)
          some_channels in
      elim (Bool-cases (is_ok (opened P w i cfg).0)) [
        | inr bad ↦ absurd (not_ok _ bad (rw (start_channels, bad) at good))
        | inl fine ↦
            let u =
              init_channels-ChannelRow (attached P w i) i cfgs (add_ptr base global_size)
                (add_ptr (P.os_get_remote_shm w.plat i) global_size) 0 cfg.num_channels
                (ap (λ x. x.0) (sym same) ∙ is_ok-eq _ fine) in
            let limit : limit_of P (attached P w i) i ≡ add_ptr base cfg.shm_size =
              ground (arith, size) in
            rw (start_channels, fine)
              (record {
                remote_shm = add_ptr (P.os_get_remote_shm w.plat i) global_size;
                global = k.global ∙ ground arith;
                shm_size = k.shm_size ∙ ground (arith, size);
                num_channels = k.num_channels ∙ ground (arith, num);
                row = rw (same, ← limit) u.0;
              })
      ]

  -- A successful ipc_os_init() maps the local memory, so that it ends well below the end of the
  -- address space.
  abbrev pub MapsLow : Type 0
  MapsLow =
      (s : S) (i : ℕ) (cfg : ShmCfg)
      → (P.os_init s i cfg).0 ≡ ok
      → P.os_get_local_shm (P.os_init s i cfg).1 i + 2 ^ 40 ≤ 2 ^ 64

  -- in a row, from a base that is low enough
  pub record LowRow (i : ℕ) (cfg : ShmCfg) (cfgs : ℕ → ChannelCfg) (w' : World S) : Type 0 where
    pub base : ℕ
    pub low : base + 2 ^ 40 ≤ 2 ^ 64
    pub in_row : InRow i cfg cfgs base w'

  start_platform-LowRow :
      (maps : MapsLow) (w : World S) (i : ℕ) (cfg : ShmCfg) (cfgs : ℕ → ChannelCfg)
      → cfg.channels ≡ some cfgs
      → (w.priv i).shm_size ≡ cfg.shm_size
      → (w.priv i).num_channels ≡ cfg.num_channels
      → (start_platform P w i cfg).0 ≡ ok
      → LowRow i cfg cfgs (start_platform P w i cfg).1
  unfolding start_platform
  start_platform-LowRow maps w i cfg cfgs some_channels size num good =
      let hw = P.hw_init w.plat i cfg in
      let os = P.os_init hw.1 i cfg in
      elim (Bool-cases (is_ok hw.0)) [
        | inr bad ↦ absurd (not_ok _ bad (rw (start_platform, bad) at good))
        | inl fine ↦ elim (Bool-cases (is_ok os.0)) [
          | inr bad ↦ absurd (not_ok _ bad (rw (start_platform, fine, bad) at good))
          | inl mapped ↦
              rw (start_platform, fine, mapped)
                (record {
                  base = P.os_get_local_shm os.1 i;
                  low = maps hw.1 i cfg (is_ok-eq _ mapped);
                  in_row =
                      start_channels-InRow (put_plat w os.1) i cfg cfgs some_channels size num
                        (rw (start_platform, fine, mapped) at good);
                })
        ]
      ]

  start_instance-LowRow :
      (maps : MapsLow) (w : World S) (i : ℕ) (cfg : ShmCfg) (cfgs : ℕ → ChannelCfg)
      → cfg.channels ≡ some cfgs
      → (start_instance P w i cfg).0 ≡ ok
      → LowRow i cfg cfgs (start_instance P w i cfg).1 × (cfg.num_channels ≤ max_channels)
  unfolding start_instance
  start_instance-LowRow maps w i cfg cfgs some_channels good =
      elim (Bool-cases ((cfg.local_shm_addr == null) || (cfg.remote_shm_addr == null))) [
        | inl e ↦ absurd (cc (rw (start_instance, e) at good))
        | inr a ↦ elim (Bool-cases ((cfg.num_channels == 0) || ltb max_channels cfg.num_channels)) [
          | inl e ↦ absurd (cc (rw (start_instance, a, e) at good))
          | inr n ↦ (
            rw (start_instance, a, n)
                (start_platform-LowRow maps _ i cfg cfgs some_channels (ground arith) (ground arith)
                  (rw (start_instance, a, n) at good)),
            ground (arith, n),
          )
        ]
      ]

  pub init_instance-LowRow :
      (maps : MapsLow) (w : World S) (i : ℕ) (cfg : ShmCfg) (cfgs : ℕ → ChannelCfg)
      → cfg.channels ≡ some cfgs
      → (init_instance P w i (some cfg)).0 ≡ ok
      → LowRow i cfg cfgs (init_instance P w i (some cfg)).1 × (cfg.num_channels ≤ max_channels)
  unfolding init_instance
  init_instance-LowRow maps w i cfg cfgs some_channels good =
      elim (Bool-cases (is_used (instance_is_free w i))) [
        | inl e ↦ absurd (cc (rw (init_instance, e) at good))
        | inr e ↦
            rw (init_instance, e)
              (start_instance-LowRow maps w i cfg cfgs some_channels
                (rw (init_instance, e) at good))
      ]
