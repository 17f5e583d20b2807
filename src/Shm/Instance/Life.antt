-- ===== src/Shm/Instance/Life.antt =====
-- When an instance is in use: initialization, release, and both over all instances.
use ipc_shm.Common.{
  ℕ, zero, suc, ◌+◌, ◌≤◌, ◌<◌, ◌≡◌, ◌≢◌, refl, ◌∙◌, arith, Bool, false, Option, none, some,
  Bool-cases, inl, inr, if◌then◌else◌,
}
use native.Mathlib.Decide.{ℕ_discrete, dec_lt}
use ipc_shm.Types.{ChannelType, ChannelCfg, max_instances}
use ipc_shm.Memory.{null, add_ptr}
use ipc_shm.Queue.{is_ok}
use ipc_shm.Shm.State.{World, Platform, channel}
use ipc_shm.Shm.Lookup.{instance_is_free, is_used}
use ipc_shm.Shm.Setup.{init_channel, get_chan_memmap_size}
use ipc_shm.Shm.Teardown.{free_channel}
use ipc_shm.Shm.Frame.{Keeps, keep, and_then, Keeps-if, free_channel-Keeps}
use ipc_shm.Shm.Frame.Opening.{init_channel-Keeps}
use ipc_shm.Shm.Instance.{
  element, free_channels, free_configured, init_channels, detached, stop_instance, free_platform,
  free_instance, free_from, free,
}

abbrev pub in_use : {S : Type 0} → World S → ℕ → Bool
in_use w i = is_used (instance_is_free w i)

module _ {S : Type 0} where
  free_channels-Keeps :
      (w : World S) (i : ℕ) (type_of : World S → ℕ → ChannelType) (c n : ℕ)
      → Keeps i w (free_channels w i type_of c n)
  unfolding free_channels
  free_channels-Keeps w i type_of c zero = keep i w
  free_channels-Keeps w i type_of c (suc n) =
      let w' = free_channel w i c (type_of w c) in
      and_then i (free_channel-Keeps w i c (type_of w c))
        (free_channels-Keeps w' i type_of (c + 1) n)

  pub free_configured-Keeps :
      (w : World S) (i : ℕ) (cfgs : Option (ℕ → ChannelCfg)) → Keeps i w (free_configured w i cfgs)
  unfolding free_configured
  free_configured-Keeps w i none = keep i w
  free_configured-Keeps w i (some cfgs) =
      free_channels-Keeps w i (λ _ c. (cfgs c).type) 0 (w.priv i).num_channels

  -- An instance whose `global` is null is not in use.
  pub not_in_use : (w : World S) (i : ℕ) → (w.priv i).global ≡ null → in_use w i ≡ false
  unfolding instance_is_free
  not_in_use w i e = ground arith

  pub not_an_instance : (w : World S) (i : ℕ) → max_instances ≤ i → in_use w i ≡ false
  unfolding instance_is_free
  not_an_instance w i h = ground arith

module _ {S : Type 0} (P : Platform S) where
  pub init_channels-Keeps :
      (w : World S) (i : ℕ) (cfgs : Option (ℕ → ChannelCfg)) (local_shm remote_shm c n : ℕ)
      → Keeps i w (init_channels P w i cfgs local_shm remote_shm c n).1
  unfolding init_channels
  init_channels-Keeps w i cfgs local_shm remote_shm c zero = keep i w
  init_channels-Keeps w i cfgs local_shm remote_shm c (suc n) =
      let r = init_channel P w i c local_shm remote_shm (element cfgs c) in
      let size = get_chan_memmap_size r.1 i c in
      let first = init_channel-Keeps P w i c local_shm remote_shm (element cfgs c) in
      Keeps-if i (is_ok r.0) _ _
        (and_then i first (
          init_channels-Keeps r.1 i cfgs (add_ptr local_shm size) (add_ptr remote_shm size) (c + 1)
            n))
        first

  stop_instance-Keeps :
      (w : World S) (i : ℕ)
      → Keeps i (detached P w i) (record (stop_instance P w i) { plat = (detached P w i).plat })
  unfolding stop_instance free_platform
  stop_instance-Keeps w i =
      let w₁ = detached P w i in
      let k = free_channels-Keeps w₁ i (λ w' c. (channel w' i c).type) 0 (w₁.priv i).num_channels in
      record {
        globals = k.globals;
        plat = refl;
        others = k.others;
        global = k.global;
        num_channels = k.num_channels;
        shm_size = k.shm_size;
      }

  stop_instance-global : (w : World S) (i : ℕ) → ((stop_instance P w i).priv i).global ≡ null
  stop_instance-global w i = (stop_instance-Keeps w i).global ∙ ground arith

  -- After ipc_shm_free_instance() the instance is not in use.
  pub free_instance_ends : (w : World S) (i : ℕ) → in_use (free_instance P w i) i ≡ false
  unfolding free_instance
  free_instance_ends w i = elim (Bool-cases (in_use w i)) [
    | inl e ↦ rw e (not_in_use (stop_instance P w i) i (stop_instance-global w i))
    | inr e ↦ rw e e
  ]

  stop_instance-others :
      (w : World S) (i j : ℕ) → i ≢ j → in_use w j ≡ false → in_use (stop_instance P w i) j ≡ false
  unfolding instance_is_free
  stop_instance-others w i j ne e =
      let k = stop_instance-Keeps w i in ground (arith, k.globals, k.others j ne)

  -- Releasing an instance brings no other one into use.
  pub free_instance-others :
      (w : World S) (i j : ℕ) → in_use w j ≡ false → in_use (free_instance P w i) j ≡ false
  unfolding free_instance
  free_instance-others w i j e = elim (Bool-cases (in_use w i)) [
    | inr idle ↦ rw idle e
    | inl busy ↦ elim (ℕ_discrete i j) [
      | yes same ↦ rw (busy, ← same) (not_in_use (stop_instance P w i) i (stop_instance-global w i))
      | no ne ↦ rw busy (stop_instance-others w i j ne e)
    ]
  ]

  -- one round of the loop of ipc_shm_free()
  abbrev freed : World S → ℕ → World S
  freed w i = if in_use w i then free_instance P w i else w

  freed-ends : (w : World S) (i : ℕ) → in_use (freed w i) i ≡ false
  freed-ends w i = elim (Bool-cases (in_use w i)) [
    | inl e ↦ rw e (free_instance_ends w i)
    | inr e ↦ rw e e
  ]

  freed-others : (w : World S) (i j : ℕ) → in_use w j ≡ false → in_use (freed w i) j ≡ false
  freed-others w i j h = elim (Bool-cases (in_use w i)) [
    | inl e ↦ rw e (free_instance-others w i j h)
    | inr e ↦ rw e h
  ]

  free_from-others :
      (w : World S) (i n j : ℕ) → in_use w j ≡ false → in_use (free_from P w i n) j ≡ false
  unfolding free_from
  free_from-others w i zero j h = h
  free_from-others w i (suc n) j h = free_from-others (freed w i) (i + 1) n j (freed-others w i j h)

  free_from-ends :
      (w : World S) (i n j : ℕ) → i ≤ j → j < i + n → in_use (free_from P w i n) j ≡ false
  unfolding free_from
  free_from-ends w i zero j lo hi = absurd (omega arith)
  free_from-ends w i (suc n) j lo hi = elim (ℕ_discrete i j) [
    | yes same ↦ free_from-others (freed w i) (i + 1) n j (rw (← same) (freed-ends w i))
    | no ne ↦ free_from-ends (freed w i) (i + 1) n j (omega arith) (omega arith)
  ]

  -- After ipc_shm_free() no instance is in use, whatever was before.
  pub free_ends_all : (w : World S) (i : ℕ) → in_use (free P w) i ≡ false
  unfolding free
  free_ends_all w i = elim (dec_lt i max_instances) [
    | yes h ↦ free_from-ends w 0 max_instances i (omega arith) (omega arith)
    | no h ↦ not_an_instance (free P w) i (omega arith)
  ]
