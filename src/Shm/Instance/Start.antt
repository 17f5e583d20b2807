-- ===== src/Shm/Instance/Start.antt =====
-- ipc_shm_init_instance() and ipc_shm_init(): success is being in use.
use ipc_shm.Common.{
  ℕ, ◌<◌, ◌≡◌, ◌≢◌, refl, sym, ◌∙◌, arith, true, false, ◌||◌, ltb, Option, none, some, Bool-cases,
  inl, inr, ◌==◌,
}
use ipc_shm.Types.{ok, einval, ShmCfg, max_instances, max_channels}
use ipc_shm.Memory.{null}
use ipc_shm.Queue.{is_ok, is_ok-eq}
use ipc_shm.Shm.State.{World, Platform, put_plat, put_priv}
use ipc_shm.Shm.Lookup.{instance_is_free}
use ipc_shm.Shm.Frame.{Keeps}
use ipc_shm.Shm.Instance.{
  set_global, attached, opened, announce, abandon, free_platform, start_channels, start_platform,
  start_instance, init_instance,
}
use ipc_shm.Shm.Instance.Life.{in_use, not_in_use, free_configured-Keeps, init_channels-Keeps}

-- What the driver relies on: a successful ipc_os_init() has mapped the local memory.
abbrev pub Maps : {S : Type 0} → Platform S → Type 0
Maps {S} P =
    (s : S) (i : ℕ) (cfg : ShmCfg)
    → (P.os_init s i cfg).0 ≡ ok
    → P.os_get_local_shm (P.os_init s i cfg).1 i ≢ null

module _ {S : Type 0} (P : Platform S) where
  pub opened-Keeps :
      (w : World S) (i : ℕ) (cfg : ShmCfg) → Keeps i (attached P w i) (opened P w i cfg).1
  opened-Keeps w i cfg =
      init_channels-Keeps P (attached P w i) i cfg.channels _ _ 0 cfg.num_channels

  announce-in_use :
      (w : World S) (i : ℕ)
      → i < max_instances
      → (w.priv i).global ≢ null
      → in_use (announce P w i) i ≡ true
  unfolding announce instance_is_free
  announce-in_use w i lt ne = ground arith

  abandon-not_in_use : (w : World S) (i : ℕ) (cfg : ShmCfg) → in_use (abandon P w i cfg) i ≡ false
  unfolding abandon free_platform
  abandon-not_in_use w i cfg =
      not_in_use _ i
        ((free_configured-Keeps (set_global w i null) i cfg.channels).global ∙ ground arith)

  start_channels-in_use :
      (w : World S) (i : ℕ) (cfg : ShmCfg)
      → i < max_instances
      → P.os_get_local_shm w.plat i ≢ null
      → in_use (start_channels P w i cfg).1 i ≡ is_ok (start_channels P w i cfg).0
  unfolding start_channels
  start_channels-in_use w i cfg lt ne = elim (Bool-cases (is_ok (opened P w i cfg).0)) [
    | inl good ↦ rw good (announce-in_use _ i lt (λ e. ne (sym (k.global ∙ ground arith) ∙ e)))
    | inr bad ↦ rw bad (abandon-not_in_use _ i cfg ∙ sym bad)
  ]
    where
      k : Keeps i (attached P w i) (opened P w i cfg).1
      k = opened-Keeps w i cfg

  pub in_use-plat : (w : World S) (s : S) (i : ℕ) → in_use (put_plat w s) i ≡ in_use w i
  unfolding instance_is_free
  in_use-plat w s i = refl

  pub in_use-saved :
      (w : World S) (i size num : ℕ)
      → in_use (put_priv w i (record (w.priv i) { shm_size = size; num_channels = num })) i
        ≡ in_use w i
  unfolding instance_is_free
  in_use-saved w i size num = ground arith

  start_platform-in_use :
      (maps : Maps P) (w : World S) (i : ℕ) (cfg : ShmCfg)
      → i < max_instances
      → in_use w i ≡ false
      → in_use (start_platform P w i cfg).1 i ≡ is_ok (start_platform P w i cfg).0
  unfolding start_platform
  start_platform-in_use maps w i cfg lt idle =
      let hw = P.hw_init w.plat i cfg in
      let os = P.os_init hw.1 i cfg in
      elim (Bool-cases (is_ok hw.0)) [
        | inr bad ↦ rw (bad, bad) (in_use-plat w hw.1 i ∙ idle)
        | inl good ↦ elim (Bool-cases (is_ok os.0)) [
          | inr bad ↦ rw (good, bad, bad) (in_use-plat w (P.hw_free os.1 i) i ∙ idle)
          | inl fine ↦
              rw (good, fine)
                (start_channels-in_use (put_plat w os.1) i cfg lt
                  (maps hw.1 i cfg (is_ok-eq os.0 fine)))
        ]
      ]

  start_instance-in_use :
      (maps : Maps P) (w : World S) (i : ℕ) (cfg : ShmCfg)
      → i < max_instances
      → in_use w i ≡ false
      → in_use (start_instance P w i cfg).1 i ≡ is_ok (start_instance P w i cfg).0
  unfolding start_instance
  start_instance-in_use maps w i cfg lt idle =
      let bad_addr = (cfg.local_shm_addr == null) || (cfg.remote_shm_addr == null) in
      let bad_num = (cfg.num_channels == 0) || ltb max_channels cfg.num_channels in
      elim (Bool-cases bad_addr) [
        | inl e ↦ rw e idle
        | inr a ↦ elim (Bool-cases bad_num) [
          | inl e ↦ rw (a, e) idle
          | inr n ↦
              rw (a, n)
                (start_platform-in_use maps _ i cfg lt
                  (in_use-saved w i cfg.shm_size cfg.num_channels ∙ idle))
        ]
      ]

  -- On a free instance with a valid id, where ipc_os_init() maps the local memory whenever it
  -- succeeds, ipc_shm_init_instance() returns 0 exactly if the instance is in use afterwards.
  pub init_instance-in_use :
      (maps : Maps P) (w : World S) (i : ℕ) (cfg : Option ShmCfg)
      → i < max_instances
      → in_use w i ≡ false
      → in_use (init_instance P w i cfg).1 i ≡ is_ok (init_instance P w i cfg).0
  unfolding init_instance
  init_instance-in_use maps w i none lt idle = rw idle idle
  init_instance-in_use maps w i (some cfg) lt idle =
      rw idle (start_instance-in_use maps w i cfg lt idle)

  -- A second initialization is refused and changes nothing.
  pub init_instance_twice :
      (w : World S) (i : ℕ) (cfg : Option ShmCfg)
      → in_use w i ≡ true
      → init_instance P w i cfg ≡ (einval, w)
  unfolding init_instance
  init_instance_twice w i cfg busy = rw busy
