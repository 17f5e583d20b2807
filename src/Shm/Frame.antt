-- ===== src/Shm/Frame.antt =====
-- What the initialization and the release of channels leave alone: the state words of all
-- instances, the layers below, the other instances, and what an instance is known by.
pub mod Opening
use ipc_shm.Common.{
  ℕ, zero, suc, update, ◌+◌, ◌≡◌, ◌≢◌, refl, ◌∙◌, ◌||◌, arith, Option, none, some, Bool-cases, inl,
  inr, Bool, true, false, if◌then◌else◌, ◌==◌, ltb,
}
use ipc_shm.Types.{
  max_umng_size, max_bufs_per_pool, max_pools, Status, ChannelType, managed, unmanaged, other,
  PoolCfg, ManagedCfg, UnmanagedCfg, ChannelCfg,
}
use ipc_shm.Memory.{Bd, Mem, null, add_ptr}
use ipc_shm.Queue
use ipc_shm.Queue.{IpcQueue, QueueData, is_ok, mem_size}
use ipc_shm.Queue.Frame.{push-WritesOnly, init-WritesOnly, free-WritesOnly}
use ipc_shm.Shm.State
use ipc_shm.Shm.State.{World, Platform, Pool, ManagedChannel, channel, put_mem, put_mng, put_pool}
use ipc_shm.Shm.Setup.{
  populate, placed, queue_data, channel_data, fill_pool, buf_pool_init, init_pools, map_pools,
  open_managed, pools_of, managed_channel_init, unmanaged_channel_init, init_typed, init_channel,
  total_buf_per_chan,
}
use ipc_shm.Shm.Teardown.{free_pools, free_managed_channel, free_channel}

pub record Keeps {S : Type 0} (i : ℕ) (w w' : World S) : Type 0 where
  pub globals : w'.mem.globals ≡ w.mem.globals
  pub plat : w'.plat ≡ w.plat
  pub others : (j : ℕ) → i ≢ j → w'.priv j ≡ w.priv j
  pub global : (w'.priv i).global ≡ (w.priv i).global
  pub num_channels : (w'.priv i).num_channels ≡ (w.priv i).num_channels
  pub shm_size : (w'.priv i).shm_size ≡ (w.priv i).shm_size

module _ {S : Type 0} (i : ℕ) where
  pub keep : (w : World S) → Keeps i w w
  keep w = record {
    globals = refl;
    plat = refl;
    others = λ j ne. refl;
    global = refl;
    num_channels = refl;
    shm_size = refl;
  }

  pub and_then : {w₁ w₂ w₃ : World S} → Keeps i w₁ w₂ → Keeps i w₂ w₃ → Keeps i w₁ w₃
  and_then a b = record {
    globals = b.globals ∙ a.globals;
    plat = b.plat ∙ a.plat;
    others = λ j ne. b.others j ne ∙ a.others j ne;
    global = b.global ∙ a.global;
    num_channels = b.num_channels ∙ a.num_channels;
    shm_size = b.shm_size ∙ a.shm_size;
  }

  pub Keeps-mem : (w : World S) (m : Mem) → m.globals ≡ w.mem.globals → Keeps i w (put_mem w m)
  Keeps-mem w m e = record {
    globals = e;
    plat = refl;
    others = λ j ne. refl;
    global = refl;
    num_channels = refl;
    shm_size = refl;
  }

  -- A branch keeps what both of its sides keep.
  pub Keeps-if :
      {w : World S} (b : Bool) (x y : Status × World S)
      → Keeps i w x.1
      → Keeps i w y.1
      → Keeps i w (if b then x else y).1
  Keeps-if true x y l r = l
  Keeps-if false x y l r = r

  -- New channels and new memory with the same state words keep all that.
  pub Keeps-channels :
      (w : World S) (c : ℕ) (ch : State.Channel) (m : Mem)
      → m.globals ≡ w.mem.globals
      → Keeps i w (put_mem (State.put_channel w i c ch) m)
  Keeps-channels w c ch m e = record {
    globals = e;
    plat = refl;
    others = λ j ne. ground arith;
    global = ground arith;
    num_channels = ground arith;
    shm_size = ground arith;
  }

free_pools-globals :
    (m : Mem) (ch : ManagedChannel) (k n : ℕ) → (free_pools m ch k n).1.globals ≡ m.globals
unfolding free_pools
free_pools-globals m ch k zero = refl
free_pools-globals m ch k (suc n) =
    let pool = ch.pools k in
    let freed = Queue.free m pool.bd_queue in
    ground (
      arith,
      (free-WritesOnly m pool.bd_queue).globals,
      free_pools-globals m ch (k + 1) n,
      free_pools-globals freed.1
          (record ch { pools = update ch.pools k (record pool { bd_queue = freed.0 }) }) (k + 1) n,
    )

free_managed-globals :
    (m : Mem) (ch : ManagedChannel) → (free_managed_channel m ch).1.globals ≡ m.globals
unfolding free_managed_channel
free_managed-globals m ch =
    let freed = Queue.free m ch.bd_queue in
    ground (
      arith,
      (free-WritesOnly m ch.bd_queue).globals,
      free_pools-globals freed.1 (record ch { bd_queue = freed.0 }) 0 ch.num_pools,
    )

module _ {S : Type 0} where
  pub free_channel-Keeps :
      (w : World S) (i c : ℕ) (t : ChannelType) → Keeps i w (free_channel w i c t)
  unfolding free_channel
  free_channel-Keeps w i c managed =
      elim (Bool-cases ((channel w i c).mng.bd_queue.push_ring == null)) [
        | inl e ↦ rw e (keep i w)
        | inr e ↦ rw e (Keeps-channels i w c _ _ (free_managed-globals w.mem (channel w i c).mng))
      ]
  free_channel-Keeps w i c unmanaged = Keeps-channels i w c _ _ (ground arith)
  free_channel-Keeps w i c (other _) = keep i w
