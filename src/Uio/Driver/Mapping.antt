-- ===== src/Uio/Driver/Mapping.antt =====
-- ipc_cdev_mmap(): which physical memory user space sees at the addresses that the layer in user
-- space computes.
use ipc_shm.Common.{
  ℕ, zero, suc, ◌+◌, ◌-◌, ◌*◌, ◌/◌, ◌%◌, ◌^◌, ◌≤◌, ◌<◌, ◌≡◌, ◌≢◌, refl, ap, ◌∙◌, arith, true,
  Option, none, some, leb, Bool-cases, inl, inr,
}
use native.Mathlib.Nat.{
  add-mul-div_right, mod-add-div', mod-lt, div-mul-le_self, mul-le-mul_right, one-le-pow,
}
use native.Mathlib.Decide.{ℕ_discrete}
use ipc_shm.Types.{ok}
use ipc_shm.Uio.{Posix}
use ipc_shm.Uio.Setup.{page_of}
use ipc_shm.Uio.Driver.{
  Driver, Linux, Command, ioc_init, ioc_free, ioc_mmap_local, ioc_mmap_remote, ioc_other, is_mmap,
}
use ipc_shm.Uio.Driver.Cdev.{map_pages, cdev_ioctl, cdev_mmap}

-- The page table of the process: the physical page at each of its pages. remap_pfn_range() of one page
-- sets the entry of that page, and no other.
pub record PageTable {S : Type 0} (L : Linux S) : Type 0 where
  pub entry : S → ℕ → Option ℕ
  pub set :
      (s : S) (addr page pfn : ℕ)
      → addr ≡ page * 2 ^ L.page_shift
      → (L.remap_pfn_range s addr pfn).0 ≡ true
      → entry (L.remap_pfn_range s addr pfn).1 page ≡ some pfn
  pub others :
      (s : S) (addr page pfn other : ℕ)
      → addr ≡ page * 2 ^ L.page_shift
      → page ≢ other
      → entry (L.remap_pfn_range s addr pfn).1 other ≡ entry s other

module _ {S : Type 0} {L : Linux S} (T : PageTable L) where
  abbrev width : ℕ
  width = 2 ^ L.page_shift

  -- the byte of a page that is at an address
  abbrev in_frame : ℕ → Option ℕ → Option ℕ
  in_frame addr none = none
  in_frame addr (some pfn) = some (pfn * width + addr % width)

  -- the physical address at an address of the process
  abbrev pub physical : S → ℕ → Option ℕ
  physical s addr = in_frame addr (T.entry s (addr / width))

  -- The pages from `j` on are mapped, and those before are as they were.
  record Mapped (s : S) (a size phys_addr j : ℕ) (s' : S) : Type 0 where
    pub here :
        (p : ℕ)
        → j ≤ p
        → p * width < size
        → T.entry s' (a + p) ≡ some ((phys_addr + p * width) % 2 ^ 64 / width)
    pub before : (p : ℕ) → p < a + j → T.entry s' p ≡ T.entry s p

  behind : (p j size : ℕ) → size ≤ j * width → j ≤ p → p * width < size → ⊥
  behind p j size ends from lt = omega (arith, mul-le-mul_right width from)

  one_page :
      (s s₁ s₂ : S) (a size phys_addr j : ℕ)
      → T.entry s₁ (a + j) ≡ some ((phys_addr + j * width) % 2 ^ 64 / width)
      → ((p : ℕ) → a + j ≢ p → T.entry s₁ p ≡ T.entry s p)
      → Mapped s₁ a size phys_addr (j + 1) s₂
      → Mapped s a size phys_addr j s₂
  one_page s s₁ s₂ a size phys_addr j set others rest = record {
    here = λ p from lt. elim (ℕ_discrete j p) [
      | yes e ↦ let mine = rest.before (a + j) (omega arith) ∙ set in rw (← e) mine
      | no ne ↦ rest.here p (omega arith) lt
    ];
    before = λ p lt. rest.before p (omega arith) ∙ others p (λ e. omega arith);
  }

  map_pages-Mapped :
      (s : S) (start a size phys_addr offset j rounds : ℕ)
      → start ≡ a * width
      → offset ≡ j * width
      → size ≤ offset + rounds
      → (map_pages L s start size phys_addr offset rounds).0 ≡ ok
      → Mapped s a size phys_addr j (map_pages L s start size phys_addr offset rounds).1
  unfolding map_pages
  map_pages-Mapped s start a size phys_addr offset j zero at_a at_j enough good = record {
    here = λ p from lt. absurd (behind p j size (omega arith) from lt);
    before = λ p lt. refl;
  }
  map_pages-Mapped s start a size phys_addr offset j (suc rounds) at_a at_j enough good =
      let pfn = (phys_addr + offset) % 2 ^ 64 / width in
      let r = L.remap_pfn_range s (start + offset) pfn in
      let page : start + offset ≡ (a + j) * width = grind arith in
      elim (Bool-cases (leb size offset)) [
        | inl e ↦
            rw (map_pages, e)
              (record {
                here = λ p from lt. absurd (behind p j size (ground arith) from lt);
                before = λ p lt. refl;
              })
        | inr e ↦ elim (Bool-cases r.0) [
          | inr bad ↦ absurd (cc (rw (map_pages, e, bad) at good))
          | inl fine ↦
              let rest =
                map_pages-Mapped r.1 start a size phys_addr (offset + width) (j + 1) rounds at_a
                  (grind arith) (omega (arith, one-le-pow L.page_shift 2 (omega arith)))
                  (rw (map_pages, e, fine) at good) in
              rw (map_pages, e, fine)
                (one_page s r.1 _ a size phys_addr j
                  (T.set s (start + offset) (a + j) pfn page fine ∙ rw at_j refl)
                  (λ p ne. T.others s (start + offset) (a + j) pfn p page ne) rest)
        ]
      ]

  -- the address `a * width + off` lies in the page `a + off / width`
  in_page :
      (a off : ℕ)
      → ((a * width + off) / width ≡ a + off / width) × ((a * width + off) % width ≡ off % width)
  in_page a off =
      let pos = one-le-pow L.page_shift 2 (omega arith) in
      let turn : a * width + off ≡ off + a * width = omega arith in
      let page : (a * width + off) / width ≡ a + off / width =
        ap (λ x. x / width) turn ∙ add-mul-div_right off a pos ∙ omega arith in
      let whole = mod-add-div' (a * width + off) width in
      let part = mod-add-div' off width in
      let spread : (a + off / width) * width ≡ a * width + off / width * width = grind arith in
      (page, omega (arith, (rw page at whole), part, spread))

  mapped_at :
      (s : S) (a size addr off x : ℕ)
      → off ≡ addr - addr / width * width
      → addr + size + width ≤ 2 ^ 64
      → x < size
      → T.entry s (a + (off + x) / width)
        ≡ some ((addr + (off + x) / width * width) % 2 ^ 64 / width)
      → physical s (a * width + (off + x)) ≡ some (addr + x)
  mapped_at s a size addr off x at_off fits lt here =
      let pos = one-le-pow L.page_shift 2 (omega arith) in
      let p = (off + x) / width in
      let place = in_page a (off + x) in
      let part = mod-add-div' (off + x) width in
      let head = mod-add-div' addr width in
      let short = mod-lt addr pos in
      let narrow : (addr + p * width) % 2 ^ 64 ≡ addr + p * width = omega arith in
      let pfn : (addr + p * width) % 2 ^ 64 / width ≡ addr / width + p =
        ap (λ y. y / width) narrow ∙ add-mul-div_right addr p pos in
      let spread : (addr / width + p) * width ≡ addr / width * width + p * width = grind arith in
      let n = a * width + (off + x) in
      let sum : (addr / width + p) * width + n % width ≡ addr + x = omega (arith, place.1) in
      ap (in_frame n) (ap (T.entry s) place.0 ∙ here ∙ ap some pfn) ∙ ap some sum

  announced :
      {U : Type 0} (P : Posix U) (s : S) (addr size a len x : ℕ)
      → P.page_size ≡ width
      → addr + size + width ≤ 2 ^ 64
      → addr - page_of P addr + size ≤ len
      → (map_pages L s (a * width) len addr 0 len).0 ≡ ok
      → x < size
      → physical
          (map_pages L s (a * width) len addr 0 len).1
          (a * width + (addr - page_of P addr + x))
        ≡ some (addr + x)
  announced P s addr size a len x pages fits long good lt =
      let off = addr - page_of P addr in
      let at_off : off ≡ addr - addr / width * width = rw pages refl in
      let below = div-mul-le_self (off + x) width in
      let m =
        map_pages-Mapped s (a * width) a len addr 0 0 len refl (omega arith) (omega arith) good in
      mapped_at _ a size addr off x at_off fits lt
        (m.here ((off + x) / width) (omega arith) (omega arith))

  -- User space announces a physical address by IPC_IOC_MMAP_LOCAL or IPC_IOC_MMAP_REMOTE, and maps the
  -- page of it with as many bytes as ipc_os_init() asks for, or more. When the mapping succeeds, each
  -- byte from the address that ipc_os_init() computes in it is the byte of the physical memory from
  -- the address that was announced, for the size of the shared memory.
  pub mapped_exactly :
      {U : Type 0} (P : Posix U) (d : Driver S) (cmd : Command) (addr size a len x : ℕ)
      → P.page_size ≡ width
      → is_mmap cmd ≡ true
      → addr + size + width ≤ 2 ^ 64
      → addr - page_of P addr + size ≤ len
      → (cdev_mmap L (cdev_ioctl L d cmd addr).1 (a * width) len).0 ≡ ok
      → x < size
      → physical
          (cdev_mmap L (cdev_ioctl L d cmd addr).1 (a * width) len).1.rest
          (a * width + (addr - page_of P addr + x))
        ≡ some (addr + x)
  unfolding cdev_ioctl cdev_mmap
  mapped_exactly P d ioc_mmap_local addr size a len x pages is_map fits long good lt =
      announced P d.rest addr size a len x pages fits long good lt
  mapped_exactly P d ioc_mmap_remote addr size a len x pages is_map fits long good lt =
      announced P d.rest addr size a len x pages fits long good lt
  mapped_exactly P d ioc_init addr size a len x pages is_map fits long good lt = absurd (cc is_map)
  mapped_exactly P d ioc_free addr size a len x pages is_map fits long good lt = absurd (cc is_map)
  mapped_exactly P d (ioc_other n) addr size a len x pages is_map fits long good lt =
      absurd (cc is_map)
