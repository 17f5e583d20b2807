-- ===== src/Shm/Layout/Spans.antt =====
-- The stretch of shared memory that each channel of an instance has, and what stands in it.
use ipc_shm.Common.{
  ℕ, zero, suc, ◌+◌, ◌*◌, ◌^◌, ◌≤◌, ◌<◌, ◌≡◌, sym, ◌∙◌, arith, some, ◌⊎◌, inl, inr,
}
use mathlib.Core.Path.{subst₂}
use native.Mathlib.Decide.{ℕ_discrete}
use ipc_shm.Types.{PoolCfg, ManagedCfg, ChannelCfg, ChannelType, managed, unmanaged, max_channels}
use ipc_shm.Memory.{add_ptr, bd_size, umem_size}
use ipc_shm.Queue.{mem_size}
use ipc_shm.Shm.State.{ManagedChannel, Channel}
use ipc_shm.Shm.Setup.{pools_size, memmap_typed}
use ipc_shm.Shm.Layout.{ManagedAt, ChannelAt, ChannelRow}
use ipc_shm.Shm.Layout.Apart.{InOrder, InOrder-none, InOrder-first, PoolsLaid, PoolRow-PoolsLaid}

-- where a channel begins in the local memory
abbrev pub start_typed : ChannelType → Channel → ℕ
start_typed unmanaged ch = ch.umng.local_mem
start_typed _ ch = ch.mng.bd_queue.push_ring

abbrev pub channel_start : Channel → ℕ
channel_start ch = start_typed ch.type ch

abbrev pub channel_size : Channel → ℕ
channel_size ch = memmap_typed ch.type ch

-- The pools of a managed channel stand behind its queue, and end where the channel ends.
pub record ManagedLaid (cfg : ManagedCfg) (limit : ℕ) (ch : ManagedChannel) : Type 0 where
  pub cfgs : ℕ → PoolCfg
  pub configured : cfg.pools ≡ some cfgs
  pub elem_size : ch.bd_queue.elem_size ≡ bd_size
  pub few : ch.bd_queue.elem_num < 2 ^ 16
  pub pools : PoolsLaid cfgs ch ch.bd_queue.push_ring limit (mem_size ch.bd_queue) 0 ch.num_pools

-- No pool of a managed channel is configured with 2 GB of buffers, or more.
abbrev pub SmallPools : (ℕ → ChannelCfg) → Type 0
SmallPools cfgs =
    (c : ℕ) (pools : ℕ → PoolCfg)
    → (cfgs c).managed_cfg.pools ≡ some pools
    → (k : ℕ) → k < (cfgs c).managed_cfg.num_pools
    → (pools k).buf_size * (pools k).num_bufs < 2 ^ 31

ManagedAt-ManagedLaid :
    (cfg : ManagedCfg) (local_shm remote_shm limit : ℕ) (ch : ManagedChannel)
    → ((pools : ℕ → PoolCfg)
        → cfg.pools ≡ some pools
        → (k : ℕ) → k < cfg.num_pools
        → (pools k).buf_size * (pools k).num_bufs < 2 ^ 31)
    → limit + 2 ^ 33 ≤ 2 ^ 64
    → limit < local_shm + 2 ^ 32
    → local_shm + 2 ^ 33 ≤ 2 ^ 64
    → ManagedAt cfg local_shm remote_shm limit ch
    → ManagedLaid cfg limit ch
ManagedAt-ManagedLaid cfg local_shm remote_shm limit ch small low near far a =
    let next : add_ptr local_shm (mem_size ch.bd_queue) ≡ local_shm + mem_size ch.bd_queue =
      omega arith in
    let laid =
      PoolRow-PoolsLaid a.cfgs ch local_shm (add_ptr remote_shm (mem_size ch.bd_queue)) limit
        (mem_size ch.bd_queue) 0 cfg.num_pools (λ h lt. small a.cfgs a.configured h (omega arith))
        low near (omega (arith, a.fits)) (rw next at a.row) in
    record {
      cfgs = a.cfgs;
      configured = a.configured;
      elem_size = a.elem_size;
      few = a.few;
      pools =
          subst₂ (λ base n. PoolsLaid a.cfgs ch base limit (mem_size ch.bd_queue) 0 n) (sym a.ring)
            (sym a.num_pools) laid;
    }

-- `n` channels from `c` on
pub record ChannelsLaid (cfgs : ℕ → ChannelCfg) (limit : ℕ) (channels : ℕ → Channel) (lo c n : ℕ)
    : Type 0 where
  pub hi : ℕ
  pub reach : lo ≤ hi
  pub in_order :
      InOrder (λ d. channel_start (channels d)) (λ d. channel_size (channels d)) lo hi c n
  pub managed_laid :
      (d : ℕ)
      → c ≤ d
      → d < c + n
      → (channels d).type ≡ managed
      → ManagedLaid (cfgs d).managed_cfg limit (channels d).mng
        × (channel_start (channels d) + channel_size (channels d) ≤ limit)
  pub umem_laid :
      (d : ℕ)
      → c ≤ d
      → d < c + n
      → (channels d).type ≡ unmanaged
      → channel_size (channels d) ≡ umem_size + (channels d).umng.size

-- where a channel ends: by the limit if it is managed, and 64 KB behind its start or before if not
record Spanned (cfg : ChannelCfg) (limit local_shm : ℕ) (ch : Channel) : Type 0 where
  pub start : channel_start ch ≡ local_shm
  pub size : (local_shm + channel_size ch ≤ limit) ⊎ (channel_size ch < 2 ^ 17)
  pub managed_laid :
      ch.type ≡ managed
      → ManagedLaid cfg.managed_cfg limit ch.mng × (channel_start ch + channel_size ch ≤ limit)
  pub umem_laid : ch.type ≡ unmanaged → channel_size ch ≡ umem_size + ch.umng.size

ChannelAt-Spanned :
    (cfgs : ℕ → ChannelCfg) (c local_shm remote_shm limit : ℕ) (ch : Channel)
    → SmallPools cfgs
    → limit + 2 ^ 33 ≤ 2 ^ 64
    → limit < local_shm + 2 ^ 32
    → local_shm + 2 ^ 33 ≤ 2 ^ 64
    → ChannelAt (cfgs c) local_shm remote_shm limit ch
    → Spanned (cfgs c) limit local_shm ch
unfolding memmap_typed pools_size
ChannelAt-Spanned cfgs c local_shm remote_shm limit ch small low near far (inl (type, a)) =
    let laid =
      ManagedAt-ManagedLaid (cfgs c).managed_cfg local_shm remote_shm limit ch.mng (small c) low
        near far a in
    let fits = rw a.ring at laid.pools.fits in
    record {
      start = rw type a.ring;
      size = inl (rw type fits);
      managed_laid = λ _. (laid, rw type laid.pools.fits);
      umem_laid = λ e. absurd (cc (sym type ∙ e));
    }
ChannelAt-Spanned cfgs c local_shm remote_shm limit ch small low near far (inr (type, u)) =
    let few = u.few in
    record {
      start = rw type u.place;
      size = inr (rw (type, u.size) (omega arith));
      managed_laid = λ e. absurd (cc (sym type ∙ e));
      umem_laid = λ _. rw (type, u.size) (omega arith);
    }

pub ChannelRow-ChannelsLaid :
    (cfgs : ℕ → ChannelCfg) (limit : ℕ) (channels : ℕ → Channel) (base local_shm remote_shm c n : ℕ)
    → SmallPools cfgs
    → base + 2 ^ 40 ≤ 2 ^ 64
    → limit < base + 2 ^ 32
    → base ≤ local_shm
    → local_shm < base + 2 ^ 32 + c * 2 ^ 17
    → c + n ≤ max_channels
    → ChannelRow cfgs limit channels local_shm remote_shm c n
    → ChannelsLaid cfgs limit channels local_shm c n
unfolding ChannelRow
ChannelRow-ChannelsLaid cfgs limit channels base local_shm remote_shm c zero small low near from to
      few row =
    record {
      hi = local_shm;
      reach = omega arith;
      in_order = InOrder-none _ _ _ _ _;
      managed_laid = λ d l h. absurd (omega arith);
      umem_laid = λ d l h. absurd (omega arith);
    }
ChannelRow-ChannelsLaid cfgs limit channels base local_shm remote_shm c (suc n) small low near from
      to few (first, row) =
    let size = channel_size (channels c) in
    let one =
      ChannelAt-Spanned cfgs c local_shm remote_shm limit (channels c) small (omega arith)
        (omega arith) (omega arith) first in
    let upto : local_shm + size < base + 2 ^ 32 + (c + 1) * 2 ^ 17 = elim one.size [
      | inl e ↦ omega arith
      | inr e ↦ omega arith
    ] in
    let next : add_ptr local_shm size ≡ local_shm + size = omega arith in
    let rest =
      ChannelRow-ChannelsLaid cfgs limit channels base (local_shm + size) (add_ptr remote_shm size)
        (c + 1) n small low near (omega arith) upto (omega arith) (rw next at row) in
    let reach = rest.reach in
    record {
      hi = rest.hi;
      reach = omega arith;
      in_order = InOrder-first _ _ local_shm rest.hi c n one.start reach rest.in_order;
      managed_laid = λ d l h. elim (ℕ_discrete c d) [
        | yes e ↦ rw (← e) one.managed_laid
        | no ne ↦ rest.managed_laid d (omega arith) (omega arith)
      ];
      umem_laid = λ d l h. elim (ℕ_discrete c d) [
        | yes e ↦ rw (← e) one.umem_laid
        | no ne ↦ rest.umem_laid d (omega arith) (omega arith)
      ];
    }
