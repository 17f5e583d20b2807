-- ===== src/Shm/Setup/Total.antt =====
-- What ipc_get_total_buf_per_chan() computes.
use ipc_shm.Common.{
  ℕ, zero, suc, ◌+◌, ◌^◌, ◌≤◌, ◌<◌, ◌≡◌, ap, ◌∙◌, arith, Bool, true, ◌&&◌, ltb, leb, if◌then◌else◌,
  Bool-cases, inl, inr, ltb-false→le,
}
use ipc_shm.Types.{PoolCfg, ManagedCfg, max_bufs_per_channel}
use ipc_shm.Shm.Setup.{total_from, total_buf_per_chan}

-- the buffers of `n` pools from `k` on
pub count_bufs : (ℕ → PoolCfg) → (k n : ℕ) → ℕ
count_bufs pools k zero = 0
count_bufs pools k (suc n) = (pools k).num_bufs + count_bufs pools (k + 1) n

-- whether the sizes of the buffers, behind one of size `prev`, never go down
pub are_sorted : (ℕ → PoolCfg) → (prev k n : ℕ) → Bool
are_sorted pools prev k zero = true
are_sorted pools prev k (suc n) =
    leb prev (pools k).buf_size && are_sorted pools (pools k).buf_size (k + 1) n

total_from-count :
    (pools : ℕ → PoolCfg) (prev total k n : ℕ)
    → ((j : ℕ) → (pools j).num_bufs < 2 ^ 16)
    → total ≤ max_bufs_per_channel
    → total_from pools prev total k n ≡ (
        if are_sorted pools prev k n && leb (total + count_bufs pools k n) max_bufs_per_channel
        then total + count_bufs pools k n
        else 0)
unfolding total_from count_bufs are_sorted
total_from-count pools prev total k zero small le = ground arith
total_from-count pools prev total k (suc n) small le =
    elim (Bool-cases (ltb (pools k).buf_size prev)) [
      | inl down ↦ ground arith
      | inr up ↦ elim (Bool-cases (ltb max_bufs_per_channel (total + (pools k).num_bufs))) [
        | inl over ↦ ground (arith, small k)
        | inr within ↦ ground (
          arith,
          small k,
          total_from-count pools (pools k).buf_size (total + (pools k).num_bufs) (k + 1) n small
              (ltb-false→le _ _ within),
        )
      ]
    ]

-- ipc_get_total_buf_per_chan() gives the number of the buffers of all pools, if the sizes of the
-- buffers never go down and they are at most IPC_SHM_MAX_BUFS_PER_CHANNEL, and 0 otherwise. Their
-- numbers are those of a uint16_t.
pub total_buf_per_chan-count :
    (cfg : ManagedCfg) (pools : ℕ → PoolCfg)
    → ((j : ℕ) → (pools j).num_bufs < 2 ^ 16)
    → total_buf_per_chan cfg pools ≡ (
        if are_sorted pools 0 0 cfg.num_pools
          && leb (count_bufs pools 0 cfg.num_pools) max_bufs_per_channel
        then count_bufs pools 0 cfg.num_pools
        else 0)
unfolding total_buf_per_chan
total_buf_per_chan-count cfg pools small =
    total_from-count pools 0 0 0 cfg.num_pools small (omega arith)
    ∙ ap (λ x. if are_sorted pools 0 0 cfg.num_pools && leb x max_bufs_per_channel then x else 0)
        (omega arith)
