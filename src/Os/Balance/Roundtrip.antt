-- ===== src/Os/Balance/Roundtrip.antt =====
-- ipc_os_free() after ipc_os_init().
use ipc_shm.Common.{ℕ, ◌≡◌, ap, arith}
use ipc_shm.Types.{ok, ShmCfg}
use ipc_shm.Os.{OsState}
use ipc_shm.Os.Setup.{Kernel, os_init, os_free}
use ipc_shm.Os.Mapping.{os_init-Up}
use ipc_shm.Os.Balance.{Account}
use ipc_shm.Os.Balance.Memories.{os_init-held}
use ipc_shm.Os.Balance.Stop.{os_free-held}

-- When ipc_os_init() of an instance returns 0, ipc_os_free() of it right after leaves everything that
-- the kernel gives out, memory regions, mappings and interrupts, held as it was before.
pub os_free-os_init :
    {S : Type 0} {K : Kernel S} (A : Account K) (i : ℕ) (cfg : ShmCfg) (rx_cb : ℕ) (st : OsState S)
    → (os_init K st i cfg rx_cb).0 ≡ ok
    → A.held (os_free K (os_init K st i cfg rx_cb).1 i).rest ≡ A.held st.rest
os_free-os_init {S} {K} A i cfg rx_cb st good =
    let up = (os_init-Up K i cfg rx_cb st good).prepared in
    omega (
      arith,
      os_init-held A i cfg rx_cb st good,
      os_free-held A i (os_init K st i cfg rx_cb).1,
      ap A.region up.local_phys,
      ap A.region up.remote_phys,
    )
