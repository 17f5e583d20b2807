-- ===== src/Shm/Instance.antt =====
-- The life of an instance: ipc_shm_init_instance(), ipc_shm_free_instance(), ipc_shm_init() and
-- ipc_shm_free().
pub mod Life
pub mod Start
pub mod All
mod Tests
use ipc_shm.Common.{
  ℕ, zero, suc, ◌+◌, Bool, true, false, ◌||◌, not, Option, none, some, leb, ltb, ◌==◌,
  if◌then◌else◌,
}
use ipc_shm.Types.{
  Status, ok, einval, ChannelType, ChannelCfg, ShmCfg, InstancesCfg, max_channels, max_instances,
}
use ipc_shm.Memory.{null, global_size, add_ptr, put_global}
use ipc_shm.Queue.{is_ok}
use ipc_shm.Shm.State.{
  World, Platform, channel, put_mem, put_plat, put_priv, state_ready, state_clear,
}
use ipc_shm.Shm.Lookup.{instance_is_free, is_used}
use ipc_shm.Shm.Setup.{init_channel, get_chan_memmap_size}
use ipc_shm.Shm.Teardown.{free_channel}

-- the element of an array that may be the null pointer
abbrev pub element : Option (ℕ → ChannelCfg) → ℕ → Option ChannelCfg
element none k = none
element (some cfgs) k = some (cfgs k)

module _ {S : Type 0} where
  -- `rounds` channels from `c` on, of the types that `type_of` gives
  unfoldable pub free_channels : World S → ℕ → (World S → ℕ → ChannelType) → ℕ → ℕ → World S
  free_channels w i type_of c zero = w
  free_channels w i type_of c (suc rounds) =
      free_channels (free_channel w i c (type_of w c)) i type_of (c + 1) rounds

  abbrev pub set_global : World S → ℕ → ℕ → World S
  set_global w i a = put_priv w i (record (w.priv i) { global = a })

  -- the cleanup of a failed initialization, by the types of the configuration
  unfoldable pub free_configured : World S → ℕ → Option (ℕ → ChannelCfg) → World S
  unfolding free_channels
  free_configured w i none = w
  free_configured w i (some cfgs) =
      free_channels w i (λ _ c. (cfgs c).type) 0 (w.priv i).num_channels

module _ {S : Type 0} (P : Platform S) where
  -- `rounds` channels from `c` on, one behind the other
  unfoldable pub init_channels :
      World S → ℕ → Option (ℕ → ChannelCfg) → ℕ → ℕ → ℕ → ℕ → Status × World S
  init_channels w i cfgs local_shm remote_shm c zero = (ok, w)
  init_channels w i cfgs local_shm remote_shm c (suc rounds) =
      let (s, w') = init_channel P w i c local_shm remote_shm (element cfgs c) in
      let size = get_chan_memmap_size w' i c in
      let rest =
        init_channels w' i cfgs (add_ptr local_shm size) (add_ptr remote_shm size) (c + 1) rounds in
      if is_ok s then rest else (s, w')

  unfoldable pub free_platform : World S → ℕ → World S
  free_platform w i = put_plat w (P.hw_free (P.os_free w.plat i) i)

  -- the state word at the start of the local shared memory, cleared
  abbrev pub attached : World S → ℕ → World S
  attached w i =
      let base = P.os_get_local_shm w.plat i in
      let w₁ = set_global w i base in put_mem w₁ (put_global w₁.mem base state_clear)

  -- all channels, behind the state words
  abbrev pub opened : World S → ℕ → ShmCfg → Status × World S
  opened w i cfg =
      init_channels (attached w i) i cfg.channels
        (add_ptr (P.os_get_local_shm w.plat i) global_size)
        (add_ptr (P.os_get_remote_shm w.plat i) global_size) 0 cfg.num_channels

  unfoldable pub announce : World S → ℕ → World S
  announce w i =
      let enabled = put_plat w (P.hw_irq_enable w.plat i) in
      put_mem enabled (put_global enabled.mem (enabled.priv i).global state_ready)

  unfoldable pub abandon : World S → ℕ → ShmCfg → World S
  unfolding free_configured free_platform
  abandon w i cfg = free_platform (free_configured (set_global w i null) i cfg.channels) i

  -- with the platform initialized
  unfoldable pub start_channels : World S → ℕ → ShmCfg → Status × World S
  unfolding init_channels
  start_channels w i cfg =
      let (s, w') = opened w i cfg in if is_ok s then (ok, announce w' i) else (s, abandon w' i cfg)

  unfoldable pub start_platform : World S → ℕ → ShmCfg → Status × World S
  unfolding start_channels
  start_platform w i cfg =
      let (hw, p) = P.hw_init w.plat i cfg in
      let (os, p') = P.os_init p i cfg in
      if not (is_ok hw)
      then (hw, put_plat w p)
      else if not (is_ok os)
      then (os, put_plat w (P.hw_free p' i))
      else start_channels (put_plat w p') i cfg

  unfoldable pub start_instance : World S → ℕ → ShmCfg → Status × World S
  unfolding start_platform
  start_instance w i cfg =
      let saved = record (w.priv i) { shm_size = cfg.shm_size; num_channels = cfg.num_channels } in
      if (cfg.local_shm_addr == null) || (cfg.remote_shm_addr == null)
      then (einval, w)
      else if (cfg.num_channels == 0) || ltb max_channels cfg.num_channels
      then (einval, w)
      else start_platform (put_priv w i saved) i cfg

  unfoldable pub init_instance : World S → ℕ → Option ShmCfg → Status × World S
  unfolding start_instance
  init_instance w i cfg =
      if is_used (instance_is_free w i)
      then (einval, w)
      else elim cfg [ none ↦ (einval, w) | some c ↦ start_instance w i c ]

  -- the state is cleared and the interrupt disabled
  abbrev pub detached : World S → ℕ → World S
  detached w i =
      let cleared = put_mem w (put_global w.mem (w.priv i).global state_clear) in
      let w₁ = set_global cleared i null in put_plat w₁ (P.hw_irq_disable w₁.plat i)

  unfoldable pub stop_instance : World S → ℕ → World S
  unfolding free_channels free_platform
  stop_instance w i =
      let w₁ = detached w i in
      free_platform (free_channels w₁ i (λ w' c. (channel w' i c).type) 0 (w₁.priv i).num_channels)
        i

  unfoldable pub free_instance : World S → ℕ → World S
  free_instance w i = if not (is_used (instance_is_free w i)) then w else stop_instance w i

  -- `rounds` instances from `i` on; those in use are skipped, and the first error ends the loop
  unfoldable pub init_from : World S → InstancesCfg → ℕ → ℕ → Status × World S
  init_from w cfg i zero = (ok, w)
  init_from w cfg i (suc rounds) =
      let skipped = init_from w cfg (i + 1) rounds in
      let (s, w') = init_instance w i (some (cfg.shm_cfg i)) in
      let rest = init_from w' cfg (i + 1) rounds in
      if is_used (instance_is_free w i) then skipped else if is_ok s then rest else (s, w')

  unfoldable pub init : World S → Option InstancesCfg → Status × World S
  unfolding init_from
  init w none = (einval, w)
  init w (some cfg) =
      if ltb max_instances cfg.num_instances || (cfg.num_instances == 0)
      then (einval, w)
      else init_from w cfg 0 cfg.num_instances

  unfoldable pub free_from : World S → ℕ → ℕ → World S
  free_from w i zero = w
  free_from w i (suc rounds) =
      let freed = free_instance w i in
      free_from (if is_used (instance_is_free w i) then freed else w) (i + 1) rounds

  unfoldable pub free : World S → World S
  unfolding free_from
  free w = free_from w 0 max_instances
