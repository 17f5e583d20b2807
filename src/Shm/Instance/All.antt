-- ===== src/Shm/Instance/All.antt =====
-- ipc_shm_init() over several instances.
use ipc_shm.Common.{
  ℕ, zero, suc, ◌+◌, ◌≤◌, ◌<◌, ◌≡◌, ◌≢◌, ap, ◌∙◌, arith, true, false, ◌||◌, ltb, Option, none, some,
  Bool-cases, inl, inr, ◌==◌,
}
use native.Mathlib.Decide.{ℕ_discrete}
use ipc_shm.Types.{Status, ok, ShmCfg, InstancesCfg, max_instances}
use ipc_shm.Queue.{is_ok}
use ipc_shm.Shm.State.{World, Platform, put_plat, put_priv}
use ipc_shm.Shm.Lookup.{instance_is_free}
use ipc_shm.Shm.Instance.{
  announce, start_channels, start_platform, start_instance, init_instance, init_from, init,
}
use ipc_shm.Shm.Instance.Life.{in_use}
use ipc_shm.Shm.Instance.Start.{Maps, opened-Keeps, in_use-plat, init_instance-in_use}

module _ {S : Type 0} (P : Platform S) where
  start_channels-others :
      (w : World S) (i j : ℕ) (cfg : ShmCfg)
      → i ≢ j
      → is_ok (start_channels P w i cfg).0 ≡ true
      → in_use w j ≡ true
      → in_use (start_channels P w i cfg).1 j ≡ true
  unfolding start_channels announce instance_is_free
  start_channels-others w i j cfg ne good busy =
      let k = opened-Keeps P w i cfg in ground (arith, k.globals, k.others j ne, k.global)

  in_use-saved_other :
      (w : World S) (i j size num : ℕ)
      → i ≢ j
      → in_use (put_priv w i (record (w.priv i) { shm_size = size; num_channels = num })) j
        ≡ in_use w j
  unfolding instance_is_free
  in_use-saved_other w i j size num ne = ground arith

  start_platform-others :
      (w : World S) (i j : ℕ) (cfg : ShmCfg)
      → i ≢ j
      → is_ok (start_platform P w i cfg).0 ≡ true
      → in_use w j ≡ true
      → in_use (start_platform P w i cfg).1 j ≡ true
  unfolding start_platform
  start_platform-others w i j cfg ne good busy =
      let hw = P.hw_init w.plat i cfg in
      let os = P.os_init hw.1 i cfg in
      elim (Bool-cases (is_ok hw.0)) [
        | inr bad ↦ rw bad (in_use-plat P w hw.1 j ∙ busy)
        | inl a ↦ elim (Bool-cases (is_ok os.0)) [
          | inr bad ↦ rw (a, bad) (in_use-plat P w (P.hw_free os.1 i) j ∙ busy)
          | inl b ↦
              rw (a, b)
                (start_channels-others (put_plat w os.1) i j cfg ne (rw (a, b) at good)
                  (in_use-plat P w os.1 j ∙ busy))
        ]
      ]

  init_instance-others :
      (w : World S) (i j : ℕ) (cfg : Option ShmCfg)
      → i ≢ j
      → is_ok (init_instance P w i cfg).0 ≡ true
      → in_use w j ≡ true
      → in_use (init_instance P w i cfg).1 j ≡ true
  unfolding init_instance start_instance
  init_instance-others w i j none ne good busy = ground arith
  init_instance-others w i j (some cfg) ne good busy = ground (
    arith,
    start_platform-others
        (put_priv w i
          (record (w.priv i) { shm_size = cfg.shm_size; num_channels = cfg.num_channels }))
        i j cfg ne,
    in_use-saved_other w i j cfg.shm_size cfg.num_channels ne,
  )

  -- one round of the loop of ipc_shm_init()
  abbrev round : World S → InstancesCfg → ℕ → Status × World S
  round w cfg i = init_instance P w i (some (cfg.shm_cfg i))

  init_from-others :
      (w : World S) (cfg : InstancesCfg) (i n j : ℕ)
      → is_ok (init_from P w cfg i n).0 ≡ true
      → in_use w j ≡ true
      → in_use (init_from P w cfg i n).1 j ≡ true
  unfolding init_from
  init_from-others w cfg i zero j good busy = busy
  init_from-others w cfg i (suc n) j good busy = elim (Bool-cases (in_use w i)) [
    | inl used ↦ rw used (init_from-others w cfg (i + 1) n j (rw used at good) busy)
    | inr idle ↦ elim (Bool-cases (is_ok (round w cfg i).0)) [
      | inr bad ↦ absurd (cc (rw (idle, bad) at good, bad))
      | inl fine ↦
          rw (idle, fine)
            (init_from-others (round w cfg i).1 cfg (i + 1) n j (rw (idle, fine) at good) (
              init_instance-others w i j (some (cfg.shm_cfg i)) (λ e. differ e idle busy) fine
                busy))
    ]
  ]
    where
      differ : i ≡ j → in_use w i ≡ false → in_use w j ≡ true → ⊥
      differ e p q = cc

  init_from-in_use :
      (maps : Maps P) (w : World S) (cfg : InstancesCfg) (i n j : ℕ)
      → is_ok (init_from P w cfg i n).0 ≡ true
      → i ≤ j
      → j < i + n
      → i + n ≤ max_instances
      → in_use (init_from P w cfg i n).1 j ≡ true
  unfolding init_from
  init_from-in_use maps w cfg i zero j good lo hi fits = absurd (omega arith)
  init_from-in_use maps w cfg i (suc n) j good lo hi fits = elim (Bool-cases (in_use w i)) [
    | inl used ↦ elim (ℕ_discrete i j) [
      | yes e ↦ rw used (init_from-others w cfg (i + 1) n j (rw used at good) (rw (← e) used))
      | no ne ↦ rw used (
          init_from-in_use maps w cfg (i + 1) n j (rw used at good) (omega arith) (omega arith)
            (omega arith))
    ]
    | inr idle ↦ elim (Bool-cases (is_ok (round w cfg i).0)) [
      | inr bad ↦ absurd (cc (rw (idle, bad) at good, bad))
      | inl fine ↦ elim (ℕ_discrete i j) [
        | yes e ↦
            rw (idle, fine)
              (init_from-others (round w cfg i).1 cfg (i + 1) n j (rw (idle, fine) at good) (
                rw (← e) (
                  init_instance-in_use P maps w i (some (cfg.shm_cfg i)) (omega arith) idle
                  ∙ fine)))
        | no ne ↦
            rw (idle, fine)
              (init_from-in_use maps (round w cfg i).1 cfg (i + 1) n j (rw (idle, fine) at good)
                (omega arith) (omega arith) (omega arith))
      ]
    ]
  ]

  -- If ipc_shm_init() returns 0, then every configured instance is in use.
  pub init_starts_all :
      (maps : Maps P) (w : World S) (cfg : InstancesCfg) (i : ℕ)
      → (init P w (some cfg)).0 ≡ ok
      → i < cfg.num_instances
      → in_use (init P w (some cfg)).1 i ≡ true
  unfolding init
  init_starts_all maps w cfg i good lt =
      elim (Bool-cases (ltb max_instances cfg.num_instances || (cfg.num_instances == 0))) [
        | inl bad ↦ absurd (cc (rw bad at good))
        | inr fine ↦ rw fine (
            init_from-in_use maps w cfg 0 cfg.num_instances i (ap is_ok (rw fine at good))
              (omega arith) (omega arith) (ground arith))
      ]
