-- ===== src/Shm/Unmanaged/Exchange.antt =====
-- Unmanaged channels from both sides: what ipc_shm_unmanaged_tx() announces, ipc_channel_rx() on the
-- other side reports exactly once.
use ipc_shm.Common.{ℕ, ◌^◌, ◌<◌, ◌≡◌, ◌≢◌, refl, sym, ◌∙◌, arith, false, some, ◌==◌}
use ipc_shm.Types.{ok, unmanaged}
use ipc_shm.Memory.{Mem, umem_size, add_ptr, add_u32, put_umem}
use ipc_shm.Shm.State.{World, Platform, App, UnmanagedChannel, channel, put_mem}
use ipc_shm.Shm.Lookup.{check_uchan_integrity, get_unmanaged_chan, is_remote_ready}
use ipc_shm.Shm.Unmanaged.{bump, unmanaged_tx}
use ipc_shm.Shm.Rx.{rx_unmanaged, rx_typed, channel_rx}

-- The two ends of an unmanaged channel: each side's remote memory is the local memory of the other.
pub record AreEnds (m : Mem) (sender receiver : UnmanagedChannel) : Type 0 where
  pub there : receiver.remote_mem ≡ sender.local_mem
  pub back : receiver.local_mem ≡ sender.remote_mem
  pub apart : sender.local_mem ≢ sender.remote_mem
  pub sound : check_uchan_integrity m sender ≡ ok
  pub count : (m.umems sender.local_mem).tx_count < 2 ^ 32

-- The receiver has seen every transmission so far.
unfoldable pub IsCaughtUp : Mem → UnmanagedChannel → Type 0
IsCaughtUp m u = (m.umems u.local_mem).remote_tx_count ≡ (m.umems u.remote_mem).tx_count

-- the memory after a transmission
abbrev pub counted : Mem → UnmanagedChannel → Mem
counted m u =
    let own = m.umems u.local_mem in
    put_umem m u.local_mem (record own { tx_count = add_u32 own.tx_count 1 })

-- the memory after a reception
abbrev pub noticed : Mem → UnmanagedChannel → Mem
noticed m u =
    let own = m.umems u.local_mem in
    put_umem m u.local_mem (record own { remote_tx_count = (m.umems u.remote_mem).tx_count })

module _ {S : Type 0} (P : Platform S) (A : App S) where
  -- A receiver that has caught up reports nothing.
  idle :
      (w : World S) (i c b : ℕ)
      → IsCaughtUp w.mem (channel w i c).umng
      → rx_unmanaged P A w i c b ≡ (0, w)
  unfolding rx_unmanaged IsCaughtUp
  idle w i c b e = ground arith

  still_sound :
      (m : Mem) (u v : UnmanagedChannel)
      → AreEnds m u v
      → check_uchan_integrity (counted m u) v ≡ ok
  unfolding check_uchan_integrity
  still_sound m u v ends = ground arith

  differs :
      (m : Mem) (u v : UnmanagedChannel)
      → AreEnds m u v
      → IsCaughtUp m v
      → (((counted m u).umems v.remote_mem).tx_count
          == ((counted m u).umems v.local_mem).remote_tx_count)
        ≡ false
  unfolding IsCaughtUp
  differs m u v ends e = ground arith

  -- A transmission makes a receiver that had caught up report.
  notices :
      (m : Mem) (u : UnmanagedChannel) (w : World S) (j d b : ℕ)
      → AreEnds m u (channel w j d).umng
      → IsCaughtUp m (channel w j d).umng
      → rx_unmanaged P A (put_mem w (counted m u)) j d b ≡ (
        b,
        A.rx_unmanaged
            (channel w j d).umng.rx_cb
            (channel w j d).umng.cb_arg
            j
            (channel w j d).id
            (add_ptr (channel w j d).umng.remote_mem umem_size)
            (put_mem w (noticed (counted m u) (channel w j d).umng)),
      )
  unfolding rx_unmanaged
  notices m u w j d b ends e =
      let v = (channel w j d).umng in rw (still_sound m u v ends, differs m u v ends e) refl

  -- When it has, it has caught up.
  noticed-IsCaughtUp :
      (m : Mem) (u : UnmanagedChannel) → u.local_mem ≢ u.remote_mem → IsCaughtUp (noticed m u) u
  unfolding IsCaughtUp
  noticed-IsCaughtUp m u apart = ground arith

  -- A transmission on an unmanaged channel, for a ready remote side and with both ends marked as
  -- initialized, succeeds and notifies the remote core. A receiver on the same memory that had caught
  -- up reports it: its reception returns the whole budget and calls the callback with the remote
  -- channel memory. The next reception, on the memory that the first one leaves, does nothing.
  pub tx_noticed_once :
      (w : World S) (i c : ℕ) (u : UnmanagedChannel) (v : World S) (j d b : ℕ)
      → is_remote_ready P w i ≡ ok
      → get_unmanaged_chan w i c ≡ some u
      → (channel v j d).type ≡ unmanaged
      → AreEnds w.mem u (channel v j d).umng
      → IsCaughtUp w.mem (channel v j d).umng
      → let (s, w') = unmanaged_tx P w i c in
        let r = (channel v j d).umng in
        let after = put_mem v (noticed w'.mem r) in
        (s ≡ ok)
        × (w'.plat ≡ P.hw_irq_notify w.plat i)
        × (channel_rx P A (put_mem v w'.mem) j d b ≡ (
          b,
          A.rx_unmanaged r.rx_cb r.cb_arg j
              (channel v j d).id
              (add_ptr r.remote_mem umem_size)
              after,
        ))
        × (channel_rx P A after j d b ≡ (0, after))
  unfolding unmanaged_tx bump channel_rx rx_typed
  tx_noticed_once w i c u v j d b ready here is ends e =
      let r = (channel v j d).umng in
      rw (ready, here, ends.sound, is)
        (
          refl,
          refl,
          notices w.mem u v j d b ends e,
          idle (put_mem v (noticed (counted w.mem u) r)) j d b (
              noticed-IsCaughtUp (counted w.mem u) r
                (λ same. ends.apart (sym ends.there ∙ sym same ∙ ends.back))),
        )
