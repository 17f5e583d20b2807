-- ===== src/Shm/Tests.antt =====
-- What the driver does at concrete states.
use ipc_shm.Common.{ℕ, ◌+◌, ◌<◌, ◌≡◌, refl, arith, true, ◌&&◌, some, leb, ◌==◌, if◌then◌else◌}
use ipc_shm.Types.{ok, UnmanagedCfg, max_bufs_per_channel}
use ipc_shm.Queue.{check_integrity, pop}
use ipc_shm.Queue.Fifo.{mirror}
use ipc_shm.Shm.State.{World, App, put_mem, put_plat}
use ipc_shm.Shm.Lookup.{
  check_mchan_integrity, check_uchan_integrity, get_managed_chan, get_unmanaged_chan,
  is_remote_ready,
}
use ipc_shm.Shm.Buffers.{
  from_local, from_remote, buf_index, owns, find_pool_for_buf, acquire_buf, release_buf, tx,
}
use ipc_shm.Shm.Buffers.Pools.{Located, buf_at, buf_index-buf_at, find_pool_for_buf_lem}
use ipc_shm.Shm.Buffers.Transfer.{Offered, IsBuffer, release_enqueues, tx_enqueues}
use ipc_shm.Shm.Buffers.Acquire.{Acquisition, acquire_buf_first_fit}
use ipc_shm.Shm.Rx.{channel_rx, rx_bds, deliver, shm_rx}
use ipc_shm.Shm.Rx.Budget.{shm_rx_bounded}
use ipc_shm.Shm.Rx.Drain.{Drained, channel_rx_drains}
use ipc_shm.Shm.Unmanaged.{unmanaged_tx}
use ipc_shm.Shm.Unmanaged.Handshake.{Joined, unmanaged_init_joins}
use ipc_shm.Shm.Unmanaged.Exchange.{AreEnds, IsCaughtUp, noticed, tx_noticed_once}
use ipc_shm.Shm.Setup.{unmanaged_channel_init, buf_pool_init, total_buf_per_chan}
use ipc_shm.Shm.Setup.Total.{are_sorted, count_bufs, total_buf_per_chan-count}
use ipc_shm.Shm.Setup.Populate.{PoolReady, IsMappable, buf_pool_init_fills}
use ipc_shm.Shm.Example.{
  pool_cfg, managed_cfg, platform, app, sent, mem, pool, data_channel, control_channel, world,
  control_world, other_end, quiet, channel-IsLinked, channel_sound, all_sound, ready, busy,
  found_channel,
}

channel_rx_drains_example : Drained quiet world 0 0 8 (channel_rx platform app world 0 0 8)
channel_rx_drains_example = channel_rx_drains quiet world 0 0 8 refl channel-IsLinked channel_sound

channel_rx_counts : (channel_rx platform app world 0 0 8).1.plat ≡ 16
unfolding channel_rx rx_bds deliver pop check_integrity
channel_rx_counts = refl

shm_rx_bounded_example :
    (work : ℕ) × (w' : World ℕ) × (shm_rx platform app world 0 128 ≡ some (work, w'))
    × (work < 128 + 1)
shm_rx_bounded_example = shm_rx_bounded platform app world 0 128 (omega arith)

-- It ignores the null pointer, and is otherwise `app`.
abbrev careful : App ℕ
careful = record {
  rx_managed = λ cb arg i id buf size w. if buf == 0 then w else put_plat w (w.plat + size);
  rx_unmanaged = λ cb arg i id buf w. put_plat w (w.plat + 1);
}

acquire_buf_first_fit_example :
    Acquisition platform world 0 data_channel 40 (acquire_buf platform world 0 0 40)
acquire_buf_first_fit_example =
    acquire_buf_first_fit platform world 0 0 40 data_channel ready found_channel all_sound
      (λ h lo hi. ground arith) (omega arith)

-- The smaller pool is passed over.
acquired_address : (acquire_buf platform world 0 0 40).0 ≡ 4564
unfolding acquire_buf is_remote_ready get_managed_chan check_mchan_integrity check_integrity pop
acquired_address = refl

local-IsBuffer : IsBuffer data_channel from_local 1 1
local-IsBuffer = record {
  pool = omega arith;
  number = omega arith;
  fits = ground arith;
  first = λ j lt. ground arith;
  ne_null = ground arith;
}

remote-IsBuffer : IsBuffer data_channel from_remote 0 1
remote-IsBuffer = record {
  pool = omega arith;
  number = omega arith;
  fits = ground arith;
  first = λ j lt. absurd (omega arith);
  ne_null = ground arith;
}

tx_enqueues_example :
    Offered world data_channel.bd_queue
      (record { pool_id = 1; buf_id = 1; data_size = 50 })
      (λ s. s + 1)
      (tx platform world 0 0 4564 50)
tx_enqueues_example =
    tx_enqueues platform world 0 0 50 data_channel 1 1 ready found_channel all_sound
      channel-IsLinked local-IsBuffer (omega arith)

-- The other side of the managed channel.
abbrev far_world : World ℕ
far_world = record world {
  priv = λ i. record (world.priv i) {
    channels = λ c. record ((world.priv i).channels c) {
      mng = record data_channel { bd_queue = mirror data_channel.bd_queue };
    };
  };
}

release_enqueues_example :
    Offered world
      (pool 0).bd_queue
      (record { pool_id = 0; buf_id = 1; data_size = 0 })
      (λ s. s)
      (release_buf world 0 0 8428)
release_enqueues_example =
    release_enqueues world 0 0 data_channel sent busy found_channel all_sound (ground arith)
      remote-IsBuffer

buf_index-buf_at_example :
    (buf_index from_local (pool 1) (buf_at from_local (pool 1) 1) ≡ 1)
    × (owns from_local (pool 1) (buf_at from_local (pool 1) 1) ≡ true)
buf_index-buf_at_example = buf_index-buf_at local-IsBuffer.fits local-IsBuffer.number

find_pool_for_buf_lem_example :
    Located data_channel from_local 4564 0 2 (find_pool_for_buf data_channel 4564 from_local)
find_pool_for_buf_lem_example = find_pool_for_buf_lem data_channel from_local 4564

ends : AreEnds mem control_channel other_end
unfolding check_uchan_integrity
ends = ground arith

caught_up : IsCaughtUp mem other_end
unfolding IsCaughtUp
caught_up = refl

ready_too : is_remote_ready platform (control_world control_channel) 0 ≡ ok
unfolding is_remote_ready
ready_too = refl

found_control : get_unmanaged_chan (control_world control_channel) 0 0 ≡ some control_channel
unfolding get_unmanaged_chan
found_control = refl

tx_noticed_once_example :
    let w = control_world control_channel in
    let v = control_world other_end in
    let (s, w') = unmanaged_tx platform w 0 0 in
    let after = put_mem v (noticed w'.mem other_end) in
    (s ≡ ok)
    × (w'.plat ≡ 1)
    × (channel_rx platform app (put_mem v w'.mem) 0 0 128 ≡ (128, put_plat after 1))
    × (channel_rx platform app after 0 0 128 ≡ (0, after))
tx_noticed_once_example =
    tx_noticed_once platform app (control_world control_channel) 0 0 control_channel
      (control_world other_end) 0 0 128 ready_too found_control refl ends caught_up

total_buf_per_chan-count_example : total_buf_per_chan managed_cfg pool_cfg ≡ (
    if are_sorted pool_cfg 0 0 2 && leb (count_bufs pool_cfg 0 2) max_bufs_per_channel
    then count_bufs pool_cfg 0 2
    else 0)
total_buf_per_chan-count_example = total_buf_per_chan-count managed_cfg pool_cfg (λ j. omega arith)

total_is_4 : total_buf_per_chan managed_cfg pool_cfg ≡ 4
unfolding total_buf_per_chan
total_is_4 = refl

mappable : IsMappable mem (pool_cfg 0) 4200 8296
mappable = ground arith

buf_pool_init_fills_example :
    PoolReady world 0 0 0 4200 8296
      (pool_cfg 0)
      (buf_pool_init platform world 0 0 0 4200 8296 (pool_cfg 0))
buf_pool_init_fills_example =
    buf_pool_init_fills platform world 0 0 0 4200 8296 (pool_cfg 0) mappable refl

abbrev control_cfg : UnmanagedCfg
control_cfg = record { size = 64; rx_cb = 8888; cb_arg = 6 }

unmanaged_init_joins_example :
    Joined world 0 0 4800 8896 control_cfg (unmanaged_channel_init world 0 0 4800 8896 control_cfg)
unmanaged_init_joins_example =
    unmanaged_init_joins world 0 0 4800 8896 control_cfg (omega arith) (omega arith) (omega arith)
      refl
