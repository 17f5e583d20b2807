-- ===== src/Hw/S32g3xx.antt =====
-- hw/s32g3xx: eight A53 and four M7 cores, twelve inter-core interrupts.
use Prim.Native.Nat.{bit_and, bit_or}
use ipc_shm.Common.{ℕ, ◌*◌, ◌^◌, Option, none, some, ◌==◌, if◌then◌else◌}
use ipc_shm.Types.{Status, ShmCfg}
use ipc_shm.Hw
use ipc_shm.Hw.{Mmio, HwState, Chip}

-- the processor ids of the A53 cores, by IPC_CORE_INDEX_n
abbrev pub a53 : ℕ → Option ℕ
a53 index =
    if index == 0x01
    then some 0
    else if index == 0x02
    then some 1
    else if index == 0x04
    then some 2
    else if index == 0x08
    then some 3
    else if index == 0x10
    then some 8
    else if index == 0x20
    then some 9
    else if index == 0x40
    then some 10
    else if index == 0x80
    then some 11
    else none

abbrev pub m7 : ℕ → Option ℕ
m7 index =
    if index == 0x01
    then some 4
    else if index == 0x02
    then some 5
    else if index == 0x04
    then some 6
    else if index == 0x08
    then some 7
    else none

-- the MSI of an inter-core interrupt
abbrev pub msi : ℕ → Option ℕ
msi n =
    if n == 0
    then some 0
    else if n == 1
    then some 1
    else if n == 2
    then some 2
    else if n == 3
    then some 5
    else if n == 4
    then some 6
    else if n == 5
    then some 7
    else if n == 6
    then some 8
    else if n == 7
    then some 9
    else if n == 8
    then some 10
    else if n == 9
    then some 11
    else if n == 10
    then some 12
    else if n == 11
    then some 13
    else none

-- its index among the shared peripheral interrupts
abbrev pub spi : ℕ → Option ℕ
spi n =
    if n == 0
    then some 1
    else if n == 1
    then some 2
    else if n == 2
    then some 3
    else if n == 3
    then some 22
    else if n == 4
    then some 23
    else if n == 5
    then some 68
    else if n == 6
    then some 69
    else if n == 7
    then some 164
    else if n == 8
    then some 165
    else if n == 9
    then some 166
    else if n == 10
    then some 167
    else if n == 11
    then some 168
    else none

-- the bits of the cores 4 to 7 of the configuration are four bits higher in the register
abbrev pub trust_cores : ℕ → ℕ
trust_cores trusted = bit_or (bit_and trusted 0x0f) (bit_and trusted 0xf0 * 2 ^ 4)

abbrev pub a53_tr : ℕ
a53_tr = 0xf0f

-- IPC_MSCM_CP_COUNT, IPC_MSCM_IRQ_COUNT, IPC_MSCM_IRSPRC_COUNT
abbrev pub cp_count : ℕ
cp_count = 12

abbrev pub irq_count : ℕ
irq_count = 14

abbrev pub irsprc_count : ℕ
irsprc_count = 240

abbrev pub chip : Chip
chip = record {
  a53 = a53;
  m7 = m7;
  default_local_core = 0;
  default_remote_core = 4;
  trust_cores = trust_cores;
  a53_tr = a53_tr;
  msi = msi;
  spi = spi;
}

module _ {S : Type 0} (M : Mmio S) where
  abbrev pub irq_enable : HwState S → ℕ → HwState S
  irq_enable = Hw.irq_enable M

  abbrev pub irq_disable : HwState S → ℕ → HwState S
  irq_disable = Hw.irq_disable M

  abbrev pub irq_notify : HwState S → ℕ → HwState S
  irq_notify = Hw.irq_notify M

  abbrev pub irq_clear : HwState S → ℕ → HwState S
  irq_clear = Hw.irq_clear M

  abbrev pub hw_free : HwState S → ℕ → HwState S
  hw_free = Hw.hw_free M

  abbrev pub init_at : HwState S → ℕ → ShmCfg → (periph_addr : ℕ) → Status × HwState S
  init_at = Hw.init_at M chip

  abbrev pub hw_init : HwState S → ℕ → ShmCfg → Status × HwState S
  hw_init = Hw.hw_init M chip
