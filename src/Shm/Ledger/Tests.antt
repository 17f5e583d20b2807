-- ===== src/Shm/Ledger/Tests.antt =====
-- A channel with two pools of two buffers each, used by two cores.
use ipc_shm.Common.{
  ℕ, ◌+◌, ◌*◌, ◌/◌, ◌<◌, ◌≡◌, refl, arith, ◌||◌, ◌==◌, [], ◌∷◌, ◌++◌, ◌⊎◌, inl, inr, if◌then◌else◌,
}
use ipc_shm.Types.{ok, queue_init_done}
use ipc_shm.Memory.{Mem}
use ipc_shm.Queue.{check_integrity, pop, push}
use ipc_shm.Queue.Fifo.{mirror, outgoing, incoming}
use ipc_shm.Shm.State.{World, Platform, Pool, ManagedChannel, put_mem}
use ipc_shm.Shm.Lookup.{check_mchan_integrity, get_managed_chan, instance_is_free, is_remote_ready}
use ipc_shm.Shm.Buffers.{from_local, from_remote, acquire_buf, tx, release_buf, find_pool_for_buf}
use ipc_shm.Shm.Buffers.Pools.{buf_at}
use ipc_shm.Shm.Buffers.Transfer.{IsBuffer}
use ipc_shm.Shm.Rx.Drain.{Quiet}
use ipc_shm.Shm.Rx.{channel_rx, rx_bds, deliver}
use ipc_shm.Shm.Setup.Populate.{free_bds}
use ipc_shm.Shm.Example.{platform, app, mem, pool, data_channel, world}
use ipc_shm.Shm.Ledger.{
  Circuit, Buf, Sys, Near, Far, Step, Run, acquires, sends, receives, stays, goes, weigh, bufs,
  take, all_free, after_tx, after_rx,
}
use ipc_shm.Shm.Ledger.Effects.{AllLinked}
use ipc_shm.Shm.Ledger.Conservation.{Conserved, buffers-Conserved}
use ipc_shm.Shm.Ledger.Fresh.{Fresh, is_buf, num_all, Fresh-Consistent}
use ipc_shm.Shm.Ledger.Owners.{Roomy, one_owner, tx_accepted, release_accepted}

abbrev pool_no : ℕ → ℕ
pool_no a = if (a == 4400) || (a == 8496) then 1 else 0

-- All buffers are free, and nothing is on its way.
abbrev fresh_mem : Mem
fresh_mem = record mem {
  rings = λ a. record {
    sentinel = queue_init_done;
    write = if (a == 4104) || (a == 8200) then 0 else 2;
    read = 0;
    content = λ x. record { pool_id = pool_no a; buf_id = x / 8; data_size = 0 };
  };
}

abbrev far_pool : ℕ → Pool
far_pool k = record (pool k) {
  local_pool_addr = 8396 + 200 * k;
  remote_pool_addr = 4300 + 200 * k;
  bd_queue = mirror (pool k).bd_queue;
}

abbrev far_channel : ManagedChannel
far_channel = record data_channel { bd_queue = mirror data_channel.bd_queue; pools = far_pool }

abbrev far_platform : Platform ℕ
far_platform = record platform { os_get_local_shm = λ s i. 8192; os_get_remote_shm = λ s i. 4096 }

far_quiet : Quiet far_platform app
far_quiet = record {
  act = λ cb arg i id buf size s. s + size;
  only_plat = λ cb arg i id buf size w. refl;
  same_remote = λ cb arg i id buf size s j. refl;
}

abbrev near_world : Mem → World ℕ
near_world m = put_mem world m

abbrev far_world : Mem → World ℕ
far_world m = record world {
  mem = m;
  priv = λ i. record (world.priv i) {
    channels = λ c. record ((world.priv i).channels c) { mng = far_channel };
  };
}

below_two : (k : ℕ) → k < 2 → (k ≡ 0) ⊎ (k ≡ 1)
below_two k lt = ground arith

near_buf : (k id : ℕ) → k < 2 → id < 2 → IsBuffer data_channel from_local k id
near_buf k id lt lt' = elim (below_two k lt) [
  | inl e ↦ elim (below_two id lt') [
    | inl e' ↦ rw (e, e') (ground arith)
    | inr e' ↦ rw (e, e') (ground arith)
  ]
  | inr e ↦ elim (below_two id lt') [
    | inl e' ↦ rw (e, e') (ground arith)
    | inr e' ↦ rw (e, e') (ground arith)
  ]
]

far_buf : (k id : ℕ) → k < 2 → id < 2 → IsBuffer far_channel from_remote k id
far_buf k id lt lt' = elim (below_two k lt) [
  | inl e ↦ elim (below_two id lt') [
    | inl e' ↦ rw (e, e') (ground arith)
    | inr e' ↦ rw (e, e') (ground arith)
  ]
  | inr e ↦ elim (below_two id lt') [
    | inl e' ↦ rw (e, e') (ground arith)
    | inr e' ↦ rw (e, e') (ground arith)
  ]
]

circuit : Circuit data_channel far_channel
circuit = record {
  same_pools = refl;
  mirrored = refl;
  pool_mirrored = λ k lt. refl;
  near = near_buf;
  remote = far_buf;
  apart = λ k lt. ground arith;
  pools_apart = λ k h lt lt' ne. ground arith;
}

fresh_linked : AllLinked fresh_mem data_channel
fresh_linked = record { of_channel = ground arith; of_pools = λ k lt. ground arith }

abbrev fresh_sys : Sys
fresh_sys = record { mem = fresh_mem; held = []; got = [] }

fresh : Fresh data_channel fresh_sys
unfolding free_bds
fresh = record {
  linked = fresh_linked;
  free = λ k lt. elim (below_two k lt) [ inl e ↦ rw e refl | inr e ↦ rw e refl ];
  flight = refl;
  held = refl;
  got = refl;
}

Near-at :
    (m : Mem)
    → m.globals ≡ mem.globals
    → check_mchan_integrity m data_channel ≡ ok
    → Near platform data_channel m (near_world m) 0 0
unfolding is_remote_ready get_managed_chan
Near-at m e sound = record {
  same = refl;
  ready = rw e refl;
  here = refl;
  sound = sound;
  covered = λ k id b. elim (below_two k b.pool) [
    | inl e ↦ elim (below_two id b.number) [ inl e' ↦ rw (e, e') refl | inr e' ↦ rw (e, e') refl ]
    | inr e ↦ elim (below_two id b.number) [ inl e' ↦ rw (e, e') refl | inr e' ↦ rw (e, e') refl ]
  ];
}

Far-at :
    (m : Mem)
    → m.globals ≡ mem.globals
    → check_mchan_integrity m far_channel ≡ ok
    → Far far_platform far_channel m (far_world m) 0 0
unfolding instance_is_free get_managed_chan
Far-at m e sound = record {
  same = refl;
  live = rw e refl;
  here = refl;
  type = refl;
  mng = refl;
  sound = sound;
  covered = λ k id b. elim (below_two k b.pool) [
    | inl e ↦ elim (below_two id b.number) [ inl e' ↦ rw (e, e') refl | inr e' ↦ rw (e, e') refl ]
    | inr e ↦ elim (below_two id b.number) [ inl e' ↦ rw (e, e') refl | inr e' ↦ rw (e, e') refl ]
  ];
}

-- The sender acquires the first buffer of the second pool, sends it, and the receiver gets it.
abbrev first : Buf
first = record { pool = 1; number = 0 }

abbrev acquired_sys : Sys
acquired_sys = record {
  mem = (acquire_buf platform (near_world fresh_mem) 0 0 50).1.mem;
  held = first ∷ [];
  got = [];
}

abbrev sent_sys : Sys
sent_sys = after_tx acquired_sys [] first [] (tx platform (near_world acquired_sys.mem) 0 0 4500 16)

abbrev got_sys : Sys
got_sys =
    after_rx sent_sys (incoming sent_sys.mem far_channel.bd_queue)
      (channel_rx far_platform app (far_world sent_sys.mem) 0 0 8)

Near-fresh : Near platform data_channel fresh_mem (near_world fresh_mem) 0 0
unfolding check_mchan_integrity check_integrity
Near-fresh = Near-at fresh_mem refl refl

acquire-Step : Step platform far_platform data_channel far_channel app fresh_sys acquired_sys
unfolding acquire_buf pop push is_remote_ready get_managed_chan check_mchan_integrity
    check_integrity
acquire-Step =
    acquires fresh_sys (near_world fresh_mem) 0 0 50 first Near-fresh (omega arith) (omega arith)
      (omega arith) refl

Near-acquired : Near platform data_channel acquired_sys.mem (near_world acquired_sys.mem) 0 0
unfolding acquire_buf pop push is_remote_ready get_managed_chan check_mchan_integrity
    check_integrity
Near-acquired = Near-at acquired_sys.mem refl refl

send-Step : Step platform far_platform data_channel far_channel app acquired_sys sent_sys
send-Step =
    sends acquired_sys (near_world acquired_sys.mem) 0 0 16 [] [] first Near-acquired (omega arith)
      refl

Far-sent : Far far_platform far_channel sent_sys.mem (far_world sent_sys.mem) 0 0
unfolding tx acquire_buf pop push is_remote_ready get_managed_chan check_mchan_integrity
    check_integrity find_pool_for_buf
Far-sent = Far-at sent_sys.mem refl refl

receive-Step : Step platform far_platform data_channel far_channel app sent_sys got_sys
receive-Step = receives sent_sys (far_world sent_sys.mem) 0 0 8 Far-sent

Far-got : Far far_platform far_channel got_sys.mem (far_world got_sys.mem) 0 0
unfolding channel_rx rx_bds deliver tx acquire_buf pop push is_remote_ready get_managed_chan
    check_mchan_integrity check_integrity find_pool_for_buf
Far-got = Far-at got_sys.mem refl refl

got_first : got_sys.got ≡ [] ++ (first ∷ [])
unfolding channel_rx rx_bds deliver tx acquire_buf pop push is_remote_ready get_managed_chan
    check_mchan_integrity check_integrity find_pool_for_buf bufs take
got_first = refl

to_acquired : Run platform far_platform data_channel far_channel app fresh_sys acquired_sys
to_acquired = goes _ _ _ acquire-Step (stays _)

to_got : Run platform far_platform data_channel far_channel app fresh_sys got_sys
to_got = goes _ _ _ acquire-Step (goes _ _ _ send-Step (goes _ _ _ receive-Step (stays _)))

roomy : Roomy data_channel
unfolding num_all
roomy = record { of_channel = omega arith; of_pools = λ k lt. omega arith }

buffers-Conserved_example : Conserved data_channel fresh_sys got_sys
buffers-Conserved_example =
    buffers-Conserved platform far_platform circuit far_quiet fresh_sys got_sys
      (Fresh-Consistent fresh) to_got

one_owner_example :
    (weigh (is_buf first) ([] ++ []) ≡ 0)
    × (weigh (is_buf first) (all_free acquired_sys.mem data_channel 0 2) ≡ 0)
    × (weigh (is_buf first) (bufs (outgoing acquired_sys.mem data_channel.bd_queue)) ≡ 0)
    × (weigh (is_buf first) [] ≡ 0)
one_owner_example =
    one_owner platform far_platform circuit far_quiet fresh_sys acquired_sys fresh to_acquired [] []
      first refl

tx_accepted_example :
    (tx platform (near_world acquired_sys.mem) 0 0 (buf_at from_local (pool 1) 0) 16).0 ≡ ok
tx_accepted_example =
    tx_accepted platform far_platform circuit far_quiet fresh_sys acquired_sys fresh to_acquired
      roomy (near_world acquired_sys.mem) 0 0 16 [] [] first Near-acquired (omega arith) refl

release_accepted_example :
    (release_buf (far_world got_sys.mem) 0 0 (buf_at from_remote (far_pool 1) 0)).0 ≡ ok
release_accepted_example =
    release_accepted platform far_platform circuit far_quiet fresh_sys got_sys fresh to_got roomy
      (far_world got_sys.mem) 0 0 [] [] first Far-got got_first
