-- ===== src/Shm/Buffers/Pools.antt =====
-- Addresses of buffers: the search for the pool of an address, and the index of a buffer in its pool
-- (find_pool_for_buf(), and the pointer arithmetic of ipc_shm_release_buf() and ipc_shm_tx()).
use ipc_shm.Common.{
  ℕ, zero, suc, ◌+◌, ◌-◌, ◌*◌, ◌/◌, ◌%◌, ◌^◌, ◌≤◌, ◌<◌, ◌≡◌, ap, ◌∙◌, arith, true, false, Option,
  none, some, ltb, Bool-cases, Option-cases, ltb→lt, ltb-false→le, inl, inr,
}
use native.Mathlib.Decide.{ℕ_discrete}
use native.Mathlib.Nat.{mul-div_cancel, mul-lt-mul_of_pos_right}
use ipc_shm.Memory.{add_ptr}
use ipc_shm.Shm.State.{Pool, ManagedChannel}
use ipc_shm.Shm.Buffers.{Side, pool_addr, owns, find_from, find_pool_for_buf, buf_index}

-- What a search among the pools from `k` on has found: the first one that owns the address.
pub record IsFirst (ch : ManagedChannel) (side : Side) (buf k n j : ℕ) : Type 0 where
  pub from : k ≤ j
  pub within : j < k + n
  pub is_owner : owns side (ch.pools j) buf ≡ true
  pub before : (i : ℕ) → k ≤ i → i < j → owns side (ch.pools i) buf ≡ false

-- The search finds the first pool that owns the address, or no pool owns it.
pub Located : (ch : ManagedChannel) (side : Side) (buf k n : ℕ) → Option ℕ → Type 0
Located ch side buf k n none = (i : ℕ) → k ≤ i → i < k + n → owns side (ch.pools i) buf ≡ false
Located ch side buf k n (some j) = IsFirst ch side buf k n j

Located-suc :
    (ch : ManagedChannel) (side : Side) (buf k n : ℕ) (r : Option ℕ)
    → owns side (ch.pools k) buf ≡ false
    → Located ch side buf (k + 1) n r
    → Located ch side buf k (suc n) r
unfolding Located
Located-suc ch side buf k n none free l = λ i le lt. elim (ℕ_discrete k i) [
  | yes e ↦ rw e at free
  | no ne ↦ l i (omega arith) (omega arith)
]
Located-suc ch side buf k n (some j) free l = record {
  from = omega (arith, l.from);
  within = omega (arith, l.within);
  is_owner = l.is_owner;
  before = λ i le lt. elim (ℕ_discrete k i) [
    | yes e ↦ rw e at free
    | no ne ↦ l.before i (omega arith) lt
  ];
}

find_from-Located :
    (ch : ManagedChannel) (side : Side) (buf k n : ℕ)
    → Located ch side buf k n (find_from ch buf side k n)
unfolding find_from Located
find_from-Located ch side buf k zero = λ i le lt. absurd (omega arith)
find_from-Located ch side buf k (suc n) = elim (Bool-cases (owns side (ch.pools k) buf)) [
  | inl e ↦ rw e (record {
    from = omega arith;
    within = omega arith;
    is_owner = e;
    before = λ i le lt. absurd (omega arith);
  })
  | inr e ↦ rw e (Located-suc ch side buf k n _ e (find_from-Located ch side buf (k + 1) n))
]

-- find_pool_for_buf() returns the first pool of the channel that owns the address, and fails only if
-- none of its pools does.
pub find_pool_for_buf_lem :
    (ch : ManagedChannel) (side : Side) (buf : ℕ)
    → Located ch side buf 0 ch.num_pools (find_pool_for_buf ch buf side)
unfolding find_pool_for_buf
find_pool_for_buf_lem ch side buf = find_from-Located ch side buf 0 ch.num_pools

-- the address of a buffer, as acquired and as received
abbrev pub buf_at : Side → Pool → ℕ → ℕ
buf_at side p id = add_ptr (pool_addr side p) (id * p.buf_size % 2 ^ 32)

-- The buffers of a pool lie in the address space, and their numbers are those of a uint16_t.
pub record Fits (side : Side) (p : Pool) : Type 0 where
  pub sized : 0 < p.buf_size
  pub few : p.num_bufs ≤ 2 ^ 16
  pub bytes : p.num_bufs * p.buf_size < 2 ^ 32
  pub mapped : pool_addr side p + p.num_bufs * p.buf_size < 2 ^ 64

module _ {side : Side} {p : Pool} (fits : Fits side p) {id : ℕ} (lt : id < p.num_bufs) where
  buf_bytes : id * p.buf_size < p.num_bufs * p.buf_size
  buf_bytes = mul-lt-mul_of_pos_right lt fits.sized

  pub buf_at_plain : buf_at side p id ≡ pool_addr side p + id * p.buf_size
  buf_at_plain = omega (arith, buf_bytes, fits.bytes, fits.mapped)

  pub owns-buf_at : owns side p (buf_at side p id) ≡ true
  owns-buf_at = ground (arith, buf_bytes, fits.bytes, fits.mapped)

  plain_index : (pool_addr side p + id * p.buf_size - pool_addr side p) / p.buf_size ≡ id
  plain_index = ap (λ x. x / p.buf_size) (omega arith) ∙ mul-div_cancel id fits.sized

  -- The index of a buffer is got back from its address, and its pool owns the address.
  pub buf_index-buf_at :
      (buf_index side p (buf_at side p id) ≡ id) × (owns side p (buf_at side p id) ≡ true)
  buf_index-buf_at = (rw (buf_at_plain, plain_index) (omega (arith, fits.few)), owns-buf_at)

-- A pool that owns the address, when none before it does, is the one found.
pub find_pool_first :
    (ch : ManagedChannel) (side : Side) (buf k : ℕ)
    → k < ch.num_pools
    → owns side (ch.pools k) buf ≡ true
    → ((j : ℕ) → j < k → owns side (ch.pools j) buf ≡ false)
    → find_pool_for_buf ch buf side ≡ some k
unfolding Located
find_pool_first ch side buf k lt mine others =
    let l = find_pool_for_buf_lem ch side buf in
    elim (Option-cases (find_pool_for_buf ch buf side)) [
      | inl e ↦ (let l' = rw e at l in absurd (cc (mine, l' k (omega arith) (omega (arith, lt)))))
      | inr (j, e) ↦
          let l' = rw e at l in
          elim (ℕ_discrete j k) [
            | yes same ↦ rw (e, same)
            | no ne ↦ elim (Bool-cases (ltb j k)) [
              | inl less ↦ absurd (cc (others j (ltb→lt j k less), l'.is_owner))
              | inr more ↦
                  absurd
                    (cc (mine, l'.before k (omega arith) (omega (arith, ltb-false→le j k more))))
            ]
          ]
    ]
