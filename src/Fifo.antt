-- ===== src/Fifo.antt =====
-- The intrusive queues of include/lob/order_book.hpp: orders at addresses, linked both ways, with
-- the first and the last of them in the level. A heap maps an address to the order there.
pub mod Cells
pub mod Links
pub mod Moves
pub mod Fills
use limit_order_book.Base.{ℕ, ◌+◌, ◌-◌, ◌%◌, ◌^◌, ℤ, Bool, ◌==◌, if◌then◌else◌, add64, u64_mod}
use limit_order_book.Types.{Side}

abbrev pub Ptr : Type 0
Ptr = ℕ

abbrev pub null : Ptr
null = 0

-- A level stays where it is in its ladder, so its address is its side and its price.
pub record Order : Type 0 where
  pub qty : ℕ
  pub owner : ℕ
  pub next : Ptr
  pub id : ℕ
  pub price : ℤ
  pub prev : Ptr
  pub level : Side × ℤ
  pub side : Side

pub record Level : Type 0 where
  pub head : Ptr
  pub tail : Ptr
  pub total_qty : ℕ
  pub count : ℕ
  pub price : ℤ

abbrev pub Heap : Type 0
Heap = Ptr → Order

unfoldable pub write : Ptr → Order → Heap → Heap
write p o h q = if q == p then o else h q

-- `a -= b` on 64 bits, and on 32.
unfoldable pub sub64 : ℕ → ℕ → ℕ
sub64 a b = (a + u64_mod - b) % u64_mod

unfoldable pub down32 : ℕ → ℕ
down32 a = (a + 2 ^ 32 - 1) % 2 ^ 32

unfoldable pub up32 : ℕ → ℕ
up32 a = (a + 1) % 2 ^ 32

-- `if (p) p->next = q`, and the same of `prev`.
unfoldable pub set_next : Ptr → Ptr → Heap → Heap
set_next p q h = if p == null then h else write p (record (h p) { next = q }) h

unfoldable pub set_prev : Ptr → Ptr → Heap → Heap
set_prev p q h = if p == null then h else write p (record (h p) { prev = q }) h

-- `unlink` of an order, as it is read from the heap.
unfoldable pub unlink_order : Level → Order → Heap → Level × Heap
unlink_order lvl o h = (
  record lvl {
    head = if o.prev == null then o.next else lvl.head;
    tail = if o.next == null then o.prev else lvl.tail;
    total_qty = sub64 lvl.total_qty o.qty;
    count = down32 lvl.count;
  },
  set_prev o.next o.prev (set_next o.prev o.next h),
)

unfoldable pub unlink : Level → Ptr → Heap → Level × Heap
unlink lvl p h = unlink_order lvl (h p) h

-- What `rest` does with a new order `o` at `p`, whose `prev` is the last order of the level.
unfoldable pub link : Level → Ptr → Order → Heap → Level × Heap
link lvl p o h = (
  record lvl {
    head = if lvl.tail == null then p else lvl.head;
    tail = p;
    total_qty = add64 lvl.total_qty o.qty;
    count = up32 lvl.count;
  },
  set_next lvl.tail p (write p o h),
)

-- `p->qty = q`.
unfoldable pub set_qty : Ptr → ℕ → Heap → Heap
set_qty p q h = write p (record (h p) { qty = q }) h
