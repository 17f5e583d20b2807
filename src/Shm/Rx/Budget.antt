-- ===== src/Shm/Rx/Budget.antt =====
-- How much work a reception does, and that it ends, whatever the callbacks do.
use ipc_shm.Common.{
  ℕ, zero, suc, ◌+◌, ◌-◌, ◌*◌, ◌/◌, ◌≤◌, ◌<◌, ◌≡◌, refl, arith, Bool, true, false, ◌||◌, ◌&&◌,
  Option, some, Bool-cases, eq_of_==, inl, inr, ◌==◌, ltb,
}
use native.Mathlib.Nat.{div-mul-le_self}
use ipc_shm.Types.{ChannelType, managed, unmanaged, other}
use ipc_shm.Queue
use ipc_shm.Shm.State.{World, Platform, App, channel, put_mem}
use ipc_shm.Shm.Buffers.{popped_bd}
use ipc_shm.Shm.Lookup.{instance_is_free, is_used}
use ipc_shm.Shm.Rx.{
  deliver, rx_bds, rx_unmanaged, rx_typed, channel_rx, rx_pass, chan_budget, rx_passes, shm_rx,
}

-- What a pass over `n` channels with budget `b` each has done.
record Passed (b n done : ℕ) (before after : Bool) : Type 0 where
  at_most : done ≤ n * b
  progress : before ≡ false → after ≡ true → b ≤ done

-- Each channel may work, and together they exceed the budget by less than their number.
chan_budget_bounds :
    (budget work num : ℕ)
    → 0 < num
    → work < budget
    → (0 < chan_budget budget work num) × (work + num * chan_budget budget work num < budget + num)
chan_budget_bounds budget work num pos lt = elim (Bool-cases ((budget - work) / num == 0)) [
  | inl e ↦ rw e (omega arith, omega arith)
  | inr e ↦ rw e (ground arith, omega (arith, div-mul-le_self (budget - work) num))
]

module _ {S : Type 0} (P : Platform S) (A : App S) where
  rx_bds-le : (w : World S) (i c b : ℕ) → (rx_bds P A w i c b).0 ≤ b
  unfolding rx_bds
  rx_bds-le w i c zero = omega arith
  rx_bds-le w i c (suc b) =
      let r = Queue.pop w.mem (channel w i c).mng.bd_queue in
      ground (arith, rx_bds-le (deliver P A (put_mem w r.2) i c (popped_bd r.1)) i c b)

  rx_typed-le : (t : ChannelType) (w : World S) (i c b : ℕ) → (rx_typed P A t w i c b).0 ≤ b
  unfolding rx_typed rx_unmanaged
  rx_typed-le managed w i c b = rx_bds-le w i c b
  rx_typed-le unmanaged w i c b = ground arith
  rx_typed-le (other _) w i c b = rx_bds-le w i c b

  -- A channel never does more than its budget.
  pub channel_rx-le : (w : World S) (i c b : ℕ) → (channel_rx P A w i c b).0 ≤ b
  unfolding channel_rx
  channel_rx-le w i c b = rx_typed-le (channel w i c).type w i c b

  rx_pass-Passed :
      (w : World S) (i b c n : ℕ) (more : Bool)
      → let (done, more', w') = rx_pass P A w i b c n more in Passed b n done more more'
  unfolding rx_pass
  rx_pass-Passed w i b c zero more = record { at_most = omega arith; progress = λ p q. cc }
  rx_pass-Passed w i b c (suc n) more =
      let r = channel_rx P A w i c b in
      let rest = rx_pass-Passed r.1 i b (c + 1) n (more || (r.0 == b)) in
      let le = channel_rx-le w i c b in
      record {
        at_most = omega (arith, rest.at_most, le);
        progress = λ fresh full. elim (Bool-cases (r.0 == b)) [
          | inl e ↦ omega (arith, eq_of_== r.0 b e)
          | inr ne ↦ omega (arith, rest.progress (rw (fresh, ne)) full)
        ];
      }

  -- the result of the outer loop
  record Bounded (num budget : ℕ) (r : Option (ℕ × World S)) : Type 0 where
    work : ℕ
    after : World S
    ends : r ≡ some (work, after)
    within : work < budget + num

  rx_passes-Bounded :
      (fuel : ℕ) (w : World S) (i num budget work : ℕ) (more : Bool)
      → 0 < num
      → 0 < fuel
      → (more ≡ true → budget + 2 ≤ work + fuel)
      → work < budget + num
      → Bounded num budget (rx_passes P A fuel w i num budget work more)
  unfolding rx_passes
  rx_passes-Bounded zero w i num budget work more pos fuelled enough small = absurd (omega arith)
  rx_passes-Bounded (suc fuel) w i num budget work more pos fuelled enough small =
      elim (Bool-cases (ltb work budget && more)) [
        | inr stop ↦ record { work = work; after = w; ends = rw stop; within = small }
        | inl go ↦
            let on : (work < budget) × (more ≡ true) = ground arith in
            let room = enough on.1 in
            let b = chan_budget budget work num in
            let bounds = chan_budget_bounds budget work num pos on.0 in
            let r = rx_pass P A w i b 0 num false in
            let p = rx_pass-Passed w i b 0 num false in
            let next =
              rx_passes-Bounded fuel r.2 i num budget (work + r.0) r.1 pos
                (omega (arith, room, on.0))
                (λ again. omega (arith, room, bounds.0, p.progress refl again))
                (omega (arith, bounds.1, p.at_most)) in
            record {
              work = next.work;
              after = next.after;
              ends = rw go next.ends;
              within = next.within;
            }
      ]

  -- ipc_shm_rx() ends, whatever the callbacks do, on an instance with at least one channel; what it
  -- returns exceeds the budget by less than the number of channels.
  pub shm_rx_bounded :
      (w : World S) (i budget : ℕ)
      → 0 < (w.priv i).num_channels
      → (work : ℕ) × (w' : World S) × (shm_rx P A w i budget ≡ some (work, w'))
        × (work < budget + (w.priv i).num_channels)
  unfolding shm_rx
  shm_rx_bounded w i budget pos = elim (Bool-cases (is_used (instance_is_free w i))) [
    | inr e ↦ (0, w, rw e, omega arith)
    | inl e ↦
        let r =
          rx_passes-Bounded (budget + 2) w i (w.priv i).num_channels budget 0 true pos (omega arith)
            (λ _. omega arith) (omega arith) in
        (r.work, r.after, rw e r.ends, r.within)
  ]
